-- ===== src/Allocator/Bump.antt =====
-- The bump allocator of src/allocator/bump.rs.
use crab_os.Prelude.{
  ℕ, ◌+◌, ◌-◌, ◌%◌, ◌^◌, ◌≤◌, ◌<◌, ◌≡◌, refl, ◌⊎◌, inl, inr, Bool-cases, Option, none, some, List,
  [], ◌∷◌, ◌++◌, All, length, length-append, ltb, ltb→lt, lt→ltb, ◌==◌, if◌then◌else◌, assert, ◌>>◌,
  ◌>>=◌, arith,
}
use crab_os.Allocator.{
  Layout, align_up, checked_add, add_usize, next_multiple, next_multiple-bounds, align_up-eq_some,
  checked_add-eq_some,
}
use crab_os.Allocator.Region.{
  Region, end_addr, Apart, Pairwise, Pairwise-drop_one, All-drop_one, All-weaken,
}

pub record BumpAllocator : Type 0 where
  pub heap_start : ℕ
  pub heap_end : ℕ
  pub next : ℕ
  pub allocations : ℕ

abbrev pub new : BumpAllocator
new = record { heap_start = 0; heap_end = 0; next = 0; allocations = 0 }

unfoldable pub init : BumpAllocator → ℕ → ℕ → Option BumpAllocator
init b heap_start heap_size = add_usize heap_start heap_size >>= λ heap_end.
    some (record b { heap_start = heap_start; heap_end = heap_end; next = heap_start })

-- No pointer is the null pointer, for want of memory.
abbrev pub alloc_to : BumpAllocator → ℕ → Option ℕ → Option (BumpAllocator × Option ℕ)
alloc_to b alloc_start none = some (b, none)
alloc_to b alloc_start (some alloc_end) =
    if ltb b.heap_end alloc_end
    then some (b, none)
    else (add_usize b.allocations 1 >>= λ allocations.
        some (record b { next = alloc_end; allocations = allocations }, some alloc_start))

unfoldable pub alloc : BumpAllocator → Layout → Option (BumpAllocator × Option ℕ)
alloc b layout = align_up b.next layout.align >>= λ alloc_start.
    alloc_to b alloc_start (checked_add alloc_start layout.size)

-- `dealloc` does not look at its arguments. Below zero the count panics.
unfoldable pub dealloc : BumpAllocator → Option BumpAllocator
dealloc b =
    assert (ltb 0 b.allocations)
    >> (let b' = record b { allocations = b.allocations - 1 } in
        some (if b'.allocations == 0 then record b' { next = b'.heap_start } else b'))

-- The blocks in use: they are counted, lie below `next`, and have no byte in common.
pub record Holds (b : BumpAllocator) (live : List Region) : Type 0 where
  pub count : b.allocations ≡ length live
  pub low : b.heap_start ≤ b.next
  pub high : b.next ≤ b.heap_end
  pub within : All (λ r. (b.heap_start ≤ r.start) × (end_addr r ≤ b.next)) live
  pub disjoint : Pairwise live

-- Either there is no room, and nothing changes, or a block that is aligned, in the heap and apart from
-- the others is in use.
pub record Gives (b : BumpAllocator) (live : List Region) (layout : Layout) (after : BumpAllocator)
    (pointer : ℕ) : Type 0 where
  pub aligned : pointer % layout.align ≡ 0
  pub holds : Holds after (record { start = pointer; size = layout.size } ∷ live)
  pub same_heap : (after.heap_start ≡ b.heap_start) × (after.heap_end ≡ b.heap_end)

pub init-Holds :
    (heap_start heap_size : ℕ)
    → heap_start + heap_size < 2 ^ 64
    → (b : BumpAllocator) × (init new heap_start heap_size ≡ some b) × Holds b []
unfolding init
init-Holds heap_start heap_size h = (
  record {
    heap_start = heap_start;
    heap_end = heap_start + heap_size;
    next = heap_start;
    allocations = 0;
  },
  rw (checked_add-eq_some heap_start heap_size h) refl,
  record { count = refl; low = omega arith; high = omega arith; within = tt; disjoint = tt },
)

below-Apart :
    (b : BumpAllocator) (start size : ℕ) (live : List Region)
    → b.next ≤ start
    → All (λ r. (b.heap_start ≤ r.start) × (end_addr r ≤ b.next)) live
    → Apart (record { start = start; size = size }) live
below-Apart b start size live h w =
    All-weaken (λ r. (b.heap_start ≤ r.start) × (end_addr r ≤ b.next)) live
      (λ r k. inr (omega arith)) w

-- With the blocks in use accounted for and fewer than a `usize` counts, an alignment above zero, and
-- the heap's end at least an alignment below the end of the address space, `alloc` does not panic. It
-- gives null and changes nothing exactly where the block, put on the next multiple of the alignment,
-- would end behind the heap. Otherwise that block is given: it is aligned, lies in the heap, and has no
-- byte in common with one in use.
pub alloc-Gives :
    (b : BumpAllocator) (live : List Region) (layout : Layout)
    → Holds b live
    → 0 < layout.align
    → b.heap_end + layout.align < 2 ^ 64
    → length live + 1 < 2 ^ 64
    → ((alloc b layout ≡ some (b, none))
        × (b.heap_end < next_multiple b.next layout.align + layout.size))
      ⊎ ((after : BumpAllocator) × (pointer : ℕ) × (alloc b layout ≡ some (after, some pointer))
          × (pointer ≡ next_multiple b.next layout.align)
          × (pointer + layout.size ≤ b.heap_end)
          × Gives b live layout after pointer)
unfolding alloc
alloc-Gives b live layout h pos far few =
    let start = next_multiple b.next layout.align in
    let (up, less, even) = next_multiple-bounds b.next layout.align pos in
    let low = h.low in
    let high = h.high in
    let count = h.count in
    let stop = start + layout.size in
    let placed = align_up-eq_some b.next layout.align (omega arith) in
    let counted = checked_add-eq_some b.allocations 1 (omega arith) in
    elim (Bool-cases (ltb stop (2 ^ 64))) [
      | inr e ↦ inl (rw placed (rw e refl), ground arith)
      | inl e ↦ elim (Bool-cases (ltb b.heap_end stop)) [
        | inl f ↦ inl (rw placed (rw e (rw f refl)), ltb→lt _ _ f)
        | inr f ↦ inr (
          record b { next = stop; allocations = b.allocations + 1 },
          start,
          rw placed (rw e (rw f (rw counted refl))),
          refl,
          ground arith,
          record {
            aligned = even;
            holds = record {
              count = omega arith;
              low = omega arith;
              high = ground arith;
              within = (
                (omega arith, omega arith),
                All-weaken (λ r. (b.heap_start ≤ r.start) × (end_addr r ≤ b.next)) live
                    (λ r k. (k.0, omega arith)) h.within,
              );
              disjoint = (below-Apart b start layout.size live up h.within, h.disjoint);
            };
            same_heap = (refl, refl);
          },
        )
      ]
    ]

nothing_left :
    (xs : List Region)
    → length xs ≡ 0
    → (b : BumpAllocator) → All (λ r. (b.heap_start ≤ r.start) × (end_addr r ≤ b.heap_start)) xs
nothing_left [] h b = tt
nothing_left (x ∷ xs) h b = absurd (omega arith)

-- Giving back any block in use never panics, and leaves the others in use. The last one gives the
-- whole heap back.
dealloc-Holds :
    (b : BumpAllocator) (xs ys : List Region) (r : Region)
    → Holds b (xs ++ r ∷ ys)
    → (after : BumpAllocator) × (dealloc b ≡ some after)
      × Holds after (xs ++ ys)
      × (length (xs ++ ys) ≡ 0 → after.next ≡ b.heap_start)
unfolding dealloc
dealloc-Holds b xs ys r h =
    let count = h.count in
    let low = h.low in
    let high = h.high in
    let n1 = length-append xs (r ∷ ys) in
    let n2 = length-append xs ys in
    let (_, within) =
      All-drop_one (λ r. (b.heap_start ≤ r.start) × (end_addr r ≤ b.next)) xs ys r h.within in
    let some_left = lt→ltb 0 b.allocations (omega arith) in
    elim (Bool-cases (b.allocations - 1 == 0)) [
      | inl e ↦ (
        record b { allocations = b.allocations - 1; next = b.heap_start },
        rw some_left (rw e refl),
        record {
          count = omega arith;
          low = omega arith;
          high = omega arith;
          within = nothing_left (xs ++ ys) (ground arith) b;
          disjoint = (Pairwise-drop_one xs ys r h.disjoint).1;
        },
        λ _. refl,
      )
      | inr e ↦ (
        record b { allocations = b.allocations - 1 },
        rw some_left (rw e refl),
        record {
          count = omega arith;
          low = omega arith;
          high = omega arith;
          within = within;
          disjoint = (Pairwise-drop_one xs ys r h.disjoint).1;
        },
        λ empty. absurd (ground arith),
      )
    ]
