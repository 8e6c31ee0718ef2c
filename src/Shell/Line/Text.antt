-- ===== src/Shell/Line/Text.antt =====
-- What the editor promises: a text of at most 256 printable bytes with a cursor in it, and its
-- editing operations on plain lists. This is the specification of `Line`, not a part of it.
use crab_os.Prelude.{
  ℕ, ◌+◌, Bool, true, false, not, List, [], ◌∷◌, ◌++◌, reverse, ◌==◌, if◌then◌else◌, length,
  drop_while,
}

-- The bytes before the cursor, nearest first, and those behind it.
pub record Text : Type 0 where
  pub left : List ℕ
  pub right : List ℕ
  pub overflow : Bool

abbrev pub of_lists : List ℕ → List ℕ → Bool → Text
of_lists left right overflow = record { left = left; right = right; overflow = overflow }

abbrev pub empty : Text
empty = of_lists [] [] false

abbrev pub size : Text → ℕ
size t = length t.left + length t.right

-- In reading order.
abbrev pub to_list : Text → List ℕ
to_list t = reverse t.left ++ t.right

abbrev pub insert : (ℕ → Bool) → ℕ → Text → ℕ → Text × Bool
insert accepts capacity t byte =
    if not (accepts byte)
    then (t, false)
    else if size t == capacity
    then (record t { overflow = true }, false)
    else (record t { left = byte ∷ t.left }, true)

abbrev delete_at : List ℕ → Text → Text
delete_at [] t = t
delete_at (_ ∷ right) t = record t { right = right; overflow = false }

abbrev pub delete : Text → Text
delete t = delete_at t.right t

abbrev backspace_at : List ℕ → Text → Text
backspace_at [] t = t
backspace_at (_ ∷ left) t = record t { left = left; overflow = false }

abbrev pub backspace : Text → Text
backspace t = backspace_at t.left t

-- Erase the longest run before the cursor that passes the test. The overflow mark goes when a byte
-- goes.
abbrev pub erase_run : (ℕ → Bool) → Text → Text
erase_run test t = record t {
  left = drop_while test t.left;
  overflow = if length (drop_while test t.left) == length t.left then t.overflow else false;
}

-- Erase the spaces before the cursor, and then the word.
abbrev pub delete_word : Text → Text
delete_word t = erase_run (λ byte. not (byte == b' ')) (erase_run (λ byte. byte == b' ') t)
