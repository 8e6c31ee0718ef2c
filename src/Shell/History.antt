-- ===== src/Shell/History.antt =====
-- The command history of src/shell.rs: `struct History`, a ring of sixteen lines, and its methods.
-- `none` is a panic.
pub mod Ring
pub mod Record
pub mod Browse
use crab_os.Prelude.{
  ℕ, ◌+◌, ◌-◌, ◌%◌, Bool, true, false, ◌&&◌, ◌||◌, Option, none, some, List, [], ◌∷◌, ltb, leb,
  ◌==◌, if◌then◌else◌, get_elem?, set, replicate, all, store, slice, from_utf8, ◌>>=◌,
}
use crab_os.Shell.Line
use crab_os.Shell.Line.{Line}

abbrev pub history_size : ℕ
history_size = 16

pub record History : Type 0 where
  pub lines : List Line
  pub start : ℕ
  pub len : ℕ
  pub browsing : Option ℕ
  pub draft : Line

-- `History::new`
abbrev pub new : History
new = record {
  lines = replicate history_size Line.new;
  start = 0;
  len = 0;
  browsing = none;
  draft = Line.new;
}

unfoldable pub get : History → ℕ → Option Line
get h index = get_elem? h.lines ((h.start + index) % history_size)

-- `text.trim().is_empty()`, for a text of ASCII bytes.
abbrev pub is_blank : List ℕ → Bool
is_blank = all (λ byte. (leb 9 byte && leb byte 13) || byte == 32)

-- Two texts are equal.
abbrev pub same_text : List ℕ → List ℕ → Bool
same_text [] [] = true
same_text [] (_ ∷ _) = false
same_text (_ ∷ _) [] = false
same_text (x ∷ xs) (y ∷ ys) = x == y && same_text xs ys

-- `self.len > 0 && self.get(self.len - 1).as_str() == text`
unfoldable pub repeats : History → List ℕ → Option Bool
unfolding get
repeats h text =
    if ltb 0 h.len
    then (do last ← get h (h.len - 1); entry ← Line.as_str last; some (same_text entry text))
    else some false

-- The part of `record` behind its early return.
unfoldable pub push : History → Line → Option History
push h line =
    if h.len == history_size
    then (do
      lines ← store h.lines h.start line
      some (record h { lines = lines; start = (h.start + 1) % history_size }))
    else (do
      lines ← store h.lines ((h.start + h.len) % history_size) line
      some (record h { lines = lines; len = h.len + 1 }))

-- `History::record`
unfoldable pub record_line : History → Line → Option History
unfolding repeats push
record_line h line = do
  let h' = record h { browsing = none }
  text ← Line.as_str line
  again ← (if is_blank text then some true else repeats h' text)
  if again then some h' else push h' line

-- The line of an entry, with the cursor at its end.
unfoldable pub recall : History → ℕ → Option Line
unfolding get
recall h index = do line ← get h index; some (record line { cursor = line.len })

-- Where `previous` goes, and the history with the draft saved when browsing begins.
abbrev pub step_back : History → Line → Option ℕ → ℕ × History
step_back h current (some index) = (index - 1, h)
step_back h current none = (h.len - 1, record h { draft = current })

unfoldable pub previous : History → Line → Option (History × Line)
unfolding recall
previous h current = if h.len == 0 then some (h, current) else do
  let (index, h') = step_back h current h.browsing
  line ← recall h' index
  some (record h' { browsing = some index }, line)

unfoldable pub next_at : History → Line → Option ℕ → Option (History × Line)
next_at h current none = some (h, current)
next_at h current (some index) =
    if ltb (index + 1) h.len
    then (do line ← recall h (index + 1); some (record h { browsing = some (index + 1) }, line))
    else some (record h { browsing = none }, h.draft)

unfoldable pub next : History → Line → Option (History × Line)
unfolding next_at recall
next h current = next_at h current h.browsing
