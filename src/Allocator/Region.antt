-- ===== src/Allocator/Region.antt =====
-- Regions of memory, and lists of regions that have no byte in common.
use crab_os.Prelude.{ℕ, ◌+◌, ◌≤◌, ◌⊎◌, inl, inr, List, [], ◌∷◌, ◌++◌, All, arith}

pub record Region : Type 0 where
  pub start : ℕ
  pub size : ℕ

abbrev pub end_addr : Region → ℕ
end_addr r = r.start + r.size

abbrev pub Disjoint : Region → Region → Type 0
Disjoint r s = (end_addr r ≤ s.start) ⊎ (end_addr s ≤ r.start)

abbrev pub Apart : Region → List Region → Type 0
Apart r rs = All (Disjoint r) rs

abbrev pub Pairwise : List Region → Type 0
Pairwise [] = Unit
Pairwise (r ∷ rs) = Apart r rs × Pairwise rs

-- All the regions of one list are apart from those of the other.
abbrev pub Across : List Region → List Region → Type 0
Across rs ss = All (λ r. Apart r ss) rs

abbrev pub Part : Region → Region → Type 0
Part r s = (s.start ≤ r.start) × (end_addr r ≤ end_addr s)

module _ {ℓ κ} {A : Type ℓ} (P : A → Type κ) where
  pub All-drop_one : (xs ys : List A) (a : A) → All P (xs ++ a ∷ ys) → P a × All P (xs ++ ys)
  All-drop_one [] ys a h = h
  All-drop_one (x ∷ xs) ys a h = let (p, q) = All-drop_one xs ys a h.1 in (p, (h.0, q))

  pub All-weaken {μ} : {Q : A → Type μ} (xs : List A) → ((a : A) → P a → Q a) → All P xs → All Q xs
  All-weaken [] f h = tt
  All-weaken (x ∷ xs) f h = (f x h.0, All-weaken xs f h.1)

Disjoint-sym : (r s : Region) → Disjoint r s → Disjoint s r
Disjoint-sym r s (inl h) = inr h
Disjoint-sym r s (inr h) = inl h

Part-Disjoint : (p r s : Region) → Part p r → Disjoint r s → Disjoint p s
Part-Disjoint p r s h (inl d) = inl (omega arith)
Part-Disjoint p r s h (inr d) = inr (omega arith)

pub Part-Apart : (p r : Region) (ss : List Region) → Part p r → Apart r ss → Apart p ss
Part-Apart p r ss h a = All-weaken (Disjoint r) ss (λ s. Part-Disjoint p r s h) a

-- The list without one of its regions, which is apart from the rest.
pub Pairwise-drop_one :
    (xs ys : List Region) (r : Region)
    → Pairwise (xs ++ r ∷ ys)
    → Apart r (xs ++ ys) × Pairwise (xs ++ ys)
Pairwise-drop_one [] ys r h = h
Pairwise-drop_one (x ∷ xs) ys r h =
    let (a, b) = Pairwise-drop_one xs ys r h.1 in
    let (c, d) = All-drop_one (Disjoint x) xs ys r h.0 in ((Disjoint-sym x r c, a), (d, b))

-- The columns of a table: apart from a list with a new head.
pub Across-cons :
    (rs ss : List Region) (s : Region) → Apart s rs → Across rs ss → Across rs (s ∷ ss)
Across-cons [] ss s a h = tt
Across-cons (r ∷ rs) ss s a h = ((Disjoint-sym s r a.0, h.0), Across-cons rs ss s a.1 h.1)

pub Across-drop_one :
    (rs xs ys : List Region) (s : Region)
    → Across rs (xs ++ s ∷ ys)
    → Apart s rs × Across rs (xs ++ ys)
Across-drop_one [] xs ys s h = (tt, tt)
Across-drop_one (r ∷ rs) xs ys s h =
    let (a, b) = All-drop_one (Disjoint r) xs ys s h.0 in
    let (c, d) = Across-drop_one rs xs ys s h.1 in ((Disjoint-sym r s a, c), (b, d))
