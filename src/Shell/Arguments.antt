-- ===== src/Shell/Arguments.antt =====
-- The command line parser of src/shell.rs: `struct Arguments`, `parse`, `push` and `get`.
pub mod Words
pub mod Refine
pub mod Spans
pub mod Parse
pub mod Total
pub mod Quoted
use crab_os.Prelude.{
  ℕ, ◌+◌, Bool, true, false, not, ◌&&◌, ◌||◌, Option, none, some, List, [], ◌∷◌, ltb, ◌==◌,
  if◌then◌else◌, length, get_elem?, set, replicate, all, slice, assert, from_utf8, is_ascii,
  is_ascii_whitespace, ◌>>=◌ as ◌>>=?◌,
}

abbrev pub max_input : ℕ
max_input = 256

abbrev pub max_args : ℕ
max_args = 32

-- The messages of `parse` and `push`.
pub data Error : Type 0 where
  bad_input chaining unfinished_escape unclosed_quote too_many : Error

-- A `Result` of code that may also panic.
pub data Outcome {ℓ} (A : Type ℓ) : Type ℓ where
  ok : A → Outcome A
  err : Error → Outcome A
  panic : Outcome A

infixl 5 ◌>>=◌
abbrev pub ◌>>=◌ {ℓ κ} : {A : Type ℓ} {B : Type κ} → Outcome A → (A → Outcome B) → Outcome B
ok a >>= f = f a
err e >>= f = err e
panic >>= f = panic

pub record Arguments : Type 0 where
  pub bytes : List ℕ
  pub spans : List (ℕ × ℕ)
  pub len : ℕ

unfoldable pub push : Arguments → ℕ → ℕ → Outcome Arguments
push r start end =
    if r.len == max_args
    then err too_many
    else if ltb r.len (length r.spans)
    then ok (record r { spans = set r.spans r.len (start, end); len = r.len + 1 })
    else panic

-- The panics of `get` are its assertion, the two indices and the text that is no string.
unfoldable pub get : Arguments → ℕ → Option (List ℕ)
get r index = assert (ltb index r.len) >>=? λ _.
    get_elem? r.spans index >>=? λ span. slice r.bytes span.0 span.1 >>=? λ text. from_utf8 text

-- The variables of the loop in `parse`.
pub record State : Type 0 where
  pub result : Arguments
  pub used : ℕ
  pub start : Option ℕ
  pub quote : Option ℕ
  pub escaped : Bool

abbrev pub initial : State
initial = record {
  result = record { bytes = replicate max_input 0; spans = replicate max_args (0, 0); len = 0 };
  used = 0;
  start = none;
  quote = none;
  escaped = false;
}

-- `start.get_or_insert(used)`
abbrev pub get_or_insert : Option ℕ → ℕ → Option ℕ
get_or_insert (some begin) used = some begin
get_or_insert none used = some used

-- `quote == Some(byte)`
abbrev pub is_quote : Option ℕ → ℕ → Bool
is_quote none byte = false
is_quote (some q) byte = q == byte

abbrev pub is_none {ℓ} : {A : Type ℓ} → Option A → Bool
is_none none = true
is_none (some _) = false

-- The operators that the shell does not have: | > < ; &
abbrev pub is_operator : ℕ → Bool
is_operator byte = byte == b'|' || byte == b'>' || byte == b'<' || byte == b';' || byte == b'&'

-- `result.bytes[used] = byte; used += 1`
abbrev pub store_byte : State → ℕ → Outcome State
store_byte s byte =
    if ltb s.used (length s.result.bytes)
    then ok (record s {
      result = record (s.result) { bytes = set s.result.bytes s.used byte };
      used = s.used + 1;
    })
    else panic

-- `if let Some(begin) = start.take() { result.push(begin, used)?; }`
abbrev pub end_word : State → Option ℕ → Outcome State
end_word s none = ok (record s { start = none })
end_word s (some begin) =
    push s.result begin s.used >>= λ result. ok (record s { result = result; start = none })

-- One round of the loop.
unfoldable pub step : State → ℕ → Outcome State
unfolding push
step s byte =
    if s.escaped
    then (store_byte s byte >>= λ s'. ok (record s' { escaped = false }))
    else if byte == b'\\' && not (is_quote s.quote b'\'')
    then ok (record s { start = get_or_insert s.start s.used; escaped = true })
    else if is_quote s.quote byte
    then ok (record s { quote = none })
    else if is_none s.quote && (byte == b'\'' || byte == b'"')
    then ok (record s { start = get_or_insert s.start s.used; quote = some byte })
    else if is_none s.quote && is_ascii_whitespace byte
    then end_word s s.start
    else if is_none s.quote && is_operator byte
    then err chaining
    else store_byte (record s { start = get_or_insert s.start s.used }) byte

unfoldable pub scan : State → List ℕ → Outcome State
unfolding step
scan s [] = ok s
scan s (byte ∷ rest) = step s byte >>= λ s'. scan s' rest

-- What follows the loop.
unfoldable pub finish : State → Outcome Arguments
unfolding push
finish s =
    if s.escaped
    then err unfinished_escape
    else if not (is_none s.quote)
    then err unclosed_quote
    else end_word s s.start >>= λ s'. ok s'.result

unfoldable pub parse : List ℕ → Outcome Arguments
unfolding scan finish
parse input =
    if ltb max_input (length input) || not (all is_ascii input)
    then err bad_input
    else scan initial input >>= finish
