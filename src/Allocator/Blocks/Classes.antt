-- ===== src/Allocator/Blocks/Classes.antt =====
-- `list_index` gives the least size class that does.
use crab_os.Prelude.{
  ℕ, zero, suc, ◌+◌, ◌≤◌, ◌<◌, ◌≡◌, refl, ◌⊎◌, inl, inr, max, none, some, Bool-cases, List, [], ◌∷◌,
  get_elem?, lt-length_of_get_elem?, All, All-get_elem?, leb, leb→le, arith,
}
use crab_os.Allocator.{Layout}
use crab_os.Allocator.Blocks.{block_sizes, position_from, list_index}

-- The first of some sizes that is large enough, from an index.
pub record Least (from : ℕ) (sizes : List ℕ) (required : ℕ) (i : ℕ) : Type 0 where
  pub steps : ℕ
  pub index : i ≡ from + steps
  pub size : ℕ
  pub found : get_elem? sizes steps ≡ some size
  pub enough : required ≤ size
  pub least : (j smaller : ℕ) → j < steps → get_elem? sizes j ≡ some smaller → smaller < required

position_from-cases :
    (from : ℕ) (sizes : List ℕ) (required : ℕ)
    → ((position_from from sizes required ≡ none) × All (λ s. s < required) sizes)
      ⊎ ((i : ℕ) × (position_from from sizes required ≡ some i) × Least from sizes required i)
position_from-cases from [] required = inl (refl, tt)
position_from-cases from (s ∷ sizes) required = elim (Bool-cases (leb required s)) [
  | inl e ↦ inr (
    from,
    rw e refl,
    record {
      steps = 0;
      index = omega arith;
      size = s;
      found = refl;
      enough = leb→le _ _ e;
      least = λ j smaller h _. absurd (omega arith);
    },
  )
  | inr e ↦ elim (position_from-cases (suc from) sizes required) [
    | inl (n, a) ↦ inl (rw e n, (ground arith, a))
    | inr (i, n, l) ↦ inr (
      i,
      rw e n,
      record {
        steps = suc l.steps;
        index = let k = l.index in omega arith;
        size = l.size;
        found = l.found;
        enough = l.enough;
        least = λ j smaller h g.
            least_suc s sizes required l.steps j smaller (ground arith) l.least h g;
      },
    )
  ]
]
  where
    least_suc :
        (s : ℕ) (sizes : List ℕ) (required steps j smaller : ℕ)
        → s < required
        → ((j smaller : ℕ) → j < steps → get_elem? sizes j ≡ some smaller → smaller < required)
        → j < suc steps
        → get_elem? (s ∷ sizes) j ≡ some smaller
        → smaller < required
    least_suc s sizes required steps zero smaller e f h g =
        let same : s ≡ smaller = cc in omega arith
    least_suc s sizes required steps (suc j) smaller e f h g = f j smaller (omega arith) g

-- For every layout: `list_index` is `None` exactly where size or alignment is above 2048, and
-- otherwise it is the index of the least block size that is at least both.
pub list_index-cases :
    (layout : Layout)
    → ((list_index layout ≡ none) × (2048 < max layout.size layout.align))
      ⊎ ((i : ℕ) × (list_index layout ≡ some i)
          × (i < 9)
          × (max layout.size layout.align ≤ 2048)
          × Least 0 block_sizes (max layout.size layout.align) i)
unfolding list_index
list_index-cases layout =
    let required = max layout.size layout.align in
    elim (position_from-cases 0 block_sizes required) [
      | inl (n, a) ↦ inl (n, a.1.1.1.1.1.1.1.1.0)
      | inr (i, n, l) ↦
          let inside = lt-length_of_get_elem? block_sizes l.steps l.found in
          let k = l.index in
          let top = All-get_elem? (λ s. s ≤ 2048) block_sizes l.steps l.size tops l.found in
          let e = l.enough in inr (i, n, omega arith, omega arith, l)
    ]
  where
    tops : All (λ s. s ≤ 2048) block_sizes
    tops = (
      omega arith,
      (
        omega arith,
        (
          omega arith,
          (
            omega arith,
            (omega arith, (omega arith, (omega arith, (omega arith, (omega arith, tt))))),
          ),
        ),
      ),
    )
