-- ===== src/Shell/Arguments/Words.antt =====
-- What the parser promises: the splitting of a command line into words, on plain lists. This is the
-- specification of `Arguments`; it has no buffer, no spans and no counters.
use crab_os.Prelude.{
  ℕ, Bool, true, false, not, ◌&&◌, ◌||◌, Option, none, some, List, [], ◌∷◌, ◌++◌, ltb, ◌==◌,
  if◌then◌else◌, length, all, is_ascii, is_ascii_whitespace,
}
use crab_os.Shell.Arguments.{
  bad_input, chaining, unfinished_escape, unclosed_quote, too_many, Outcome, ok, err, ◌>>=◌,
  max_input, max_args, is_quote, is_none, is_operator,
}

-- The words that are complete, the one that is being read, and how the next byte is read.
pub record Words : Type 0 where
  pub done : List (List ℕ)
  pub current : Option (List ℕ)
  pub quote : Option ℕ
  pub escaped : Bool

abbrev pub words : List (List ℕ) → Option (List ℕ) → Option ℕ → Bool → Words
words done current quote escaped = record {
  done = done;
  current = current;
  quote = quote;
  escaped = escaped;
}

abbrev pub begun : Option (List ℕ) → List ℕ
begun none = []
begun (some word) = word

abbrev pub add : Words → ℕ → Words
add w byte = record w { current = some (begun w.current ++ byte ∷ []) }

abbrev pub end_word : Words → Option (List ℕ) → Outcome Words
end_word w none = ok w
end_word w (some word) =
    if length w.done == max_args
    then err too_many
    else ok (record w { done = w.done ++ word ∷ []; current = none })

abbrev pub step : Words → ℕ → Outcome Words
step w byte =
    if w.escaped
    then ok (record (add w byte) { escaped = false })
    else if byte == b'\\' && not (is_quote w.quote b'\'')
    then ok (record w { current = some (begun w.current); escaped = true })
    else if is_quote w.quote byte
    then ok (record w { quote = none })
    else if is_none w.quote && (byte == b'\'' || byte == b'"')
    then ok (record w { current = some (begun w.current); quote = some byte })
    else if is_none w.quote && is_ascii_whitespace byte
    then end_word w w.current
    else if is_none w.quote && is_operator byte
    then err chaining
    else ok (add w byte)

abbrev pub scan : Words → List ℕ → Outcome Words
scan w [] = ok w
scan w (byte ∷ rest) = step w byte >>= λ w'. scan w' rest

abbrev pub finish : Words → Outcome (List (List ℕ))
finish w =
    if w.escaped
    then err unfinished_escape
    else if not (is_none w.quote)
    then err unclosed_quote
    else end_word w w.current >>= λ w'. ok w'.done

abbrev pub start : Words
start = words [] none none false

unfoldable pub split : List ℕ → Outcome (List (List ℕ))
split input =
    if ltb max_input (length input) || not (all is_ascii input)
    then err bad_input
    else scan start input >>= finish
