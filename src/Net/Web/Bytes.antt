-- ===== src/Net/Web/Bytes.antt =====
-- Searches in bytes, as Rust's slices have them.
use crab_os.Prelude.{
  ℕ, suc, ◌+◌, Bool, true, false, ◌&&◌, ◌||◌, Option, none, some, List, [], ◌∷◌, map, leb, ◌==◌,
  if◌then◌else◌,
}

abbrev pub eq : List ℕ → List ℕ → Bool
eq [] [] = true
eq [] (y ∷ ys) = false
eq (x ∷ xs) [] = false
eq (x ∷ xs) (y ∷ ys) = x == y && eq xs ys

-- `xs.starts_with(pattern)`
abbrev pub starts_with : List ℕ → List ℕ → Bool
starts_with [] xs = true
starts_with (p ∷ pattern) [] = false
starts_with (p ∷ pattern) (x ∷ xs) = p == x && starts_with pattern xs

abbrev pub later : Option ℕ → Option ℕ
later none = none
later (some i) = some (suc i)

-- `xs.windows(n).position(|window| window == pattern)`, for a pattern of `n` bytes.
abbrev pub find : List ℕ → List ℕ → Option ℕ
find pattern [] = none
find pattern (x ∷ xs) =
    let rest = find pattern xs in if starts_with pattern (x ∷ xs) then some 0 else later rest

-- `xs.iter().position(|byte| *byte == b)`
abbrev pub find_byte : ℕ → List ℕ → Option ℕ
find_byte b [] = none
find_byte b (x ∷ xs) = let rest = find_byte b xs in if x == b then some 0 else later rest

abbrev pub grow : ℕ → List (List ℕ) → List (List ℕ)
grow x [] = (x ∷ []) ∷ []
grow x (piece ∷ pieces) = (x ∷ piece) ∷ pieces

-- `xs.split(|byte| *byte == b)`
abbrev pub split : ℕ → List ℕ → List (List ℕ)
split b [] = [] ∷ []
split b (x ∷ xs) = let pieces = split b xs in if x == b then [] ∷ pieces else grow x pieces

abbrev pub lowercase : ℕ → ℕ
lowercase b = if leb 65 b && leb b 90 then b + 32 else b

abbrev pub to_ascii_lowercase : List ℕ → List ℕ
to_ascii_lowercase xs = map lowercase xs

abbrev pub eq_ignore_ascii_case : List ℕ → List ℕ → Bool
eq_ignore_ascii_case xs ys = eq (to_ascii_lowercase xs) (to_ascii_lowercase ys)

abbrev pub is_ascii_control : ℕ → Bool
is_ascii_control b = leb b 31 || b == 127
