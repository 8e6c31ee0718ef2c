-- ===== src/Shell/Line.antt =====
-- The line editor of src/shell.rs: `struct Line` and its methods. A method that may panic returns
-- an `Option`, and `none` is the panic.
pub mod Text
pub mod Bytes
pub mod Refine
pub mod Word
pub mod Str
use crab_os.Prelude.{
  ℕ, zero, suc, ◌+◌, ◌-◌, ◌<◌, Bool, true, false, not, ◌&&◌, ◌||◌, Option, none, some, List, ltb,
  ◌==◌, if◌then◌else◌, get_elem?, replicate, store, copy_within, slice, from_utf8, ◌>>=◌,
  is_ascii_graphic,
}

abbrev pub max_input : ℕ
max_input = 256

pub record Line : Type 0 where
  pub bytes : List ℕ
  pub len : ℕ
  pub cursor : ℕ
  pub overflow : Bool

-- `Line::new`
abbrev pub new : Line
new = record { bytes = replicate max_input 0; len = 0; cursor = 0; overflow = false }

unfoldable pub as_str : Line → Option (List ℕ)
as_str l = slice l.bytes 0 l.len >>= from_utf8

-- The bytes that the editor takes: graphic ASCII and the space.
abbrev pub is_printable : ℕ → Bool
is_printable byte = is_ascii_graphic byte || byte == b' '

-- The new line, and whether the byte went in.
unfoldable pub insert : Line → ℕ → Option (Line × Bool)
insert l byte =
    if not (is_printable byte)
    then some (l, false)
    else if l.len == max_input
    then some (record l { overflow = true }, false)
    else do
      shifted ← copy_within l.bytes l.cursor l.len (l.cursor + 1)
      bytes ← store shifted l.cursor byte
      some (record l { bytes = bytes; cursor = l.cursor + 1; len = l.len + 1 }, true)

unfoldable pub delete : Line → Option Line
delete l =
    if ltb l.cursor l.len
    then (do
      bytes ← copy_within l.bytes (l.cursor + 1) l.len l.cursor
      some (record l { bytes = bytes; len = l.len - 1; overflow = false }))
    else some l

unfoldable pub backspace : Line → Option Line
unfolding delete
backspace l = if ltb 0 l.cursor then delete (record l { cursor = l.cursor - 1 }) else some l

-- `self.cursor > 0 && test(self.bytes[self.cursor - 1])`
abbrev pub before_cursor : (ℕ → Bool) → Line → Option Bool
before_cursor test l =
    if ltb 0 l.cursor
    then (do byte ← get_elem? l.bytes (l.cursor - 1); some (test byte))
    else some false

-- A loop of `delete_word`: backspace while the byte before the cursor passes the test. The first
-- argument bounds the rounds.
unfoldable pub backspace_while : ℕ → (ℕ → Bool) → Line → Option Line
unfolding backspace
backspace_while zero test l = none
backspace_while (suc fuel) test l = before_cursor test l >>= λ more. elim more [
  | true ↦ backspace l >>= λ l'. backspace_while fuel test l'
  | false ↦ some l
]

-- Each round of a loop moves the cursor back by one, so `cursor + 1` rounds are enough.
unfoldable pub delete_word : Line → Option Line
unfolding backspace_while
delete_word l = do
  l' ← backspace_while (l.cursor + 1) (λ byte. byte == b' ') l
  backspace_while (l'.cursor + 1) (λ byte. not (byte == b' ')) l'
