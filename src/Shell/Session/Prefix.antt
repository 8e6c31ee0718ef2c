-- ===== src/Shell/Session/Prefix.antt =====
-- What the matches of a completion have in common: `common_len` against the longest common prefix.
use crab_os.Prelude.{
  ℕ, zero, suc, ◌≡◌, refl, ap, ◌∙◌, true, ◌&&◌, List, [], ◌∷◌, ◌++◌, arith, ◌==◌, if◌then◌else◌,
  length, take, drop, all, Bool-cases, inl, inr, All,
}
use crab_os.Net.Web.Bytes.{starts_with}
use crab_os.Shell.Session.{matching, common_with, common_len}

-- The longest common prefix of two texts, and of one and several others.
abbrev pub common_prefix : List ℕ → List ℕ → List ℕ
common_prefix [] ys = []
common_prefix (x ∷ xs) [] = []
common_prefix (x ∷ xs) (y ∷ ys) = if x == y then x ∷ common_prefix xs ys else []

abbrev pub shared : List ℕ → List (List ℕ) → List ℕ
shared first [] = first
shared first (name ∷ names) = shared (common_prefix first name) names

take-common_with :
    (first name : List ℕ) (n : ℕ)
    → take (common_with first name n) first ≡ common_prefix (take n first) name
unfolding common_with
take-common_with first name zero = refl
take-common_with [] name (suc n) = refl
take-common_with (x ∷ first) [] (suc n) = refl
take-common_with (x ∷ first) (y ∷ name) (suc n) = elim (Bool-cases (x == y)) [
  | inl e ↦ rw e (ap (x ∷◌) (take-common_with first name n))
  | inr e ↦ rw e refl
]

take-common_len :
    (first : List ℕ) (names : List (List ℕ)) (n : ℕ)
    → take (common_len first n names) first ≡ shared (take n first) names
unfolding common_len
take-common_len first [] n = refl
take-common_len first (name ∷ names) n =
    take-common_len first names (common_with first name n)
    ∙ ap (λ (t : List ℕ). shared t names) (take-common_with first name n)

take_all : (xs : List ℕ) → take (length xs) xs ≡ xs
take_all [] = refl
take_all (x ∷ xs) = ap (x ∷◌) (take_all xs)

-- The code's count of common bytes cuts the first match to the longest common prefix of all of them.
pub take-common_len_all :
    (first : List ℕ) (names : List (List ℕ))
    → take (common_len first (length first) names) first ≡ shared first names
take-common_len_all first names =
    take-common_len first names (length first)
    ∙ ap (λ (t : List ℕ). shared t names) (take_all first)

-- A text is a prefix of the longest common prefix exactly when it is a prefix of both.
starts_with-common_prefix :
    (p xs ys : List ℕ)
    → starts_with p (common_prefix xs ys) ≡ (starts_with p xs && starts_with p ys)
starts_with-common_prefix [] xs ys = refl
starts_with-common_prefix (b ∷ p) [] ys = refl
starts_with-common_prefix (b ∷ p) (x ∷ xs) [] = ground arith
starts_with-common_prefix (b ∷ p) (x ∷ xs) (y ∷ ys) =
    ground (arith, starts_with-common_prefix p xs ys)

-- The same for several: `shared` is the longest prefix of all the names.
pub starts_with-shared :
    (p first : List ℕ) (names : List (List ℕ))
    → starts_with p (shared first names) ≡ (starts_with p first && all (starts_with p) names)
starts_with-shared p first [] = ground arith
starts_with-shared p first (name ∷ names) = ground (
  arith,
  starts_with-shared p (common_prefix first name) names,
  starts_with-common_prefix p first name,
)

-- A prefix and what follows it.
pub append-drop : (p xs : List ℕ) → starts_with p xs ≡ true → p ++ drop (length p) xs ≡ xs
append-drop [] xs h = refl
append-drop (b ∷ p) [] h = cc
append-drop (b ∷ p) (x ∷ xs) h = ground (arith, append-drop p xs)

-- The names that match are those of the table that start with the text.
pub all-matching :
    (p : List ℕ) (table : List (List ℕ × List ℕ)) → all (starts_with p) (matching p table) ≡ true
all-matching p [] = refl
all-matching p (c ∷ table) = ground (arith, all-matching p table)

pub All-matching {κ} :
    (P : List ℕ → Type κ) (p : List ℕ) (table : List (List ℕ × List ℕ))
    → All (λ (c : List ℕ × List ℕ). P c.0) table
    → All P (matching p table)
All-matching P p [] h = tt
All-matching P p (c ∷ table) h = elim (Bool-cases (starts_with p c.0)) [
  | inl e ↦ rw e (h.0, All-matching P p table h.1)
  | inr e ↦ rw e (All-matching P p table h.1)
]
