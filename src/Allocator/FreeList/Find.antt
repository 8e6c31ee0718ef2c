-- ===== src/Allocator/FreeList/Find.antt =====
-- The search for a region: where a block is put, and what is left of the list.
use crab_os.Prelude.{
  ℕ, ◌+◌, ◌-◌, ◌%◌, ◌^◌, ◌≤◌, ◌<◌, ◌≡◌, refl, ap, ◌⊎◌, inl, inr, true, false, ◌&&◌, All, Bool-cases,
  none, some, List, [], ◌∷◌, ◌++◌, ltb, ltb→lt, arith,
}
use crab_os.Allocator.{next_multiple, next_multiple-bounds, align_up-eq_some, checked_add-eq_some}
use crab_os.Allocator.Region.{Region, end_addr}
use crab_os.Allocator.FreeList.{node_size, alloc_from_region, Found, find_region}

-- A place for a block in a region: aligned, inside, and with no rest or one that can hold a node.
pub record Place (r : Region) (size : ℕ) (align : ℕ) (alloc_start : ℕ) : Type 0 where
  pub inside : r.start ≤ alloc_start
  pub ends : alloc_start + size ≤ end_addr r
  pub aligned : alloc_start % align ≡ 0
  pub rest : (alloc_start + size ≡ end_addr r) ⊎ (alloc_start + size + node_size ≤ end_addr r)
  pub small : alloc_start + size < 2 ^ 64

rest-cases :
    (stop last : ℕ)
    → stop ≤ last
    → (ltb 0 (last - stop) && ltb (last - stop) node_size) ≡ false
    → (stop ≡ last) ⊎ (stop + node_size ≤ last)
rest-cases stop last h g = elim (Bool-cases (ltb 0 (last - stop))) [
  | inl e ↦ inr (ground arith)
  | inr e ↦ inl (ground arith)
]

-- A region in which the block, put on the first multiple of the alignment, would end behind the end, or
-- leave a rest that cannot hold a node.
pub record NoRoom (size align : ℕ) (r : Region) : Type 0 where
  pub short :
      (end_addr r < next_multiple r.start align + size)
      ⊎ ((next_multiple r.start align + size < end_addr r)
          × (end_addr r < next_multiple r.start align + size + node_size))

-- The region's end and its start, rounded up, are numbers of a `usize`.
abbrev pub InReach : ℕ → Region → Type 0
InReach align r = (end_addr r < 2 ^ 64) × (r.start + align < 2 ^ 64)

too_small :
    (stop last : ℕ)
    → (ltb 0 (last - stop) && ltb (last - stop) node_size) ≡ true
    → (stop < last) × (last < stop + node_size)
too_small stop last g = ground arith

alloc_from_region-cases :
    (r : Region) (size align : ℕ)
    → 0 < align
    → InReach align r
    → ((alloc_from_region r size align ≡ some none) × NoRoom size align r)
      ⊎ ((at : ℕ) × (alloc_from_region r size align ≡ some (some at)) × Place r size align at)
unfolding alloc_from_region
alloc_from_region-cases r size align pos (last, far) =
    let (up, less, even) = next_multiple-bounds r.start align pos in
    let start = next_multiple r.start align in
    let stop = start + size in
    let rest = end_addr r - stop in
    let placed = align_up-eq_some r.start align far in
    let ended = checked_add-eq_some r.start r.size last in
    elim (Bool-cases (ltb stop (2 ^ 64))) [
      | inr e ↦ inl (rw placed (rw e refl), record { short = inl (ground arith) })
      | inl e ↦ elim (Bool-cases (ltb (end_addr r) stop)) [
        | inl f ↦
            inl (rw placed (rw e (rw ended (rw f refl))), record { short = inl (ltb→lt _ _ f) })
        | inr f ↦ elim (Bool-cases (ltb 0 rest && ltb rest node_size)) [
          | inl g ↦ inl (
            rw placed (rw e (rw ended (rw f (rw g refl)))),
            record { short = inr (too_small stop (end_addr r) g) },
          )
          | inr g ↦ inr (
            start,
            rw placed (rw e (rw ended (rw f (rw g refl)))),
            record {
              inside = up;
              ends = ground arith;
              aligned = even;
              rest = rest-cases stop (end_addr r) (ground arith) g;
              small = ltb→lt _ _ e;
            },
          )
        ]
      ]
    ]

-- The region that is found is one of the list, and the others are the rest of it.
pub record Finds (free : List Region) (size : ℕ) (align : ℕ) (f : Found) : Type 0 where
  pub before : List Region
  pub after : List Region
  pub split : free ≡ before ++ f.region ∷ after
  pub others : f.others ≡ before ++ after
  pub place : Place f.region size align f.alloc_start

-- The search panics nowhere, and finds a place where there is one.
pub find_region-cases :
    (free : List Region) (size align : ℕ)
    → 0 < align
    → All (InReach align) free
    → ((find_region free size align ≡ some none) × All (NoRoom size align) free)
      ⊎ ((f : Found) × (find_region free size align ≡ some (some f)) × Finds free size align f)
unfolding find_region
find_region-cases [] size align pos h = inl (refl, tt)
find_region-cases (r ∷ rest) size align pos h =
    elim (alloc_from_region-cases r size align pos h.0) [
      | inr (at, e, p) ↦ inr (
        record { region = r; alloc_start = at; others = rest },
        rw e refl,
        record { before = []; after = rest; split = refl; others = refl; place = p },
      )
      | inl (e, no_room) ↦ elim (find_region-cases rest size align pos h.1) [
        | inl (e', none_fits) ↦ inl (rw e (rw e' refl), (no_room, none_fits))
        | inr (g, e', s) ↦ inr (
          record g { others = r ∷ g.others },
          rw e (rw e' refl),
          record {
            before = r ∷ s.before;
            after = s.after;
            split = ap (λ (xs : List Region). r ∷ xs) s.split;
            others = ap (λ (xs : List Region). r ∷ xs) s.others;
            place = s.place;
          },
        )
      ]
    ]
