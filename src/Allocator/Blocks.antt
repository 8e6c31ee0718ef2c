-- ===== src/Allocator/Blocks.antt =====
-- The global allocator of src/allocator/fixed_size_block.rs: lists of blocks of nine sizes, over the
-- crate `linked_list_allocator`, whose heap is a parameter. `none` is a panic.
pub mod Classes
pub mod Reuse
use crab_os.Prelude.{
  ℕ, zero, suc, ◌+◌, ◌-◌, ◌%◌, ◌^◌, max, Option, none, some, List, [], ◌∷◌, get_elem?, store, ltb,
  leb, if◌then◌else◌, assert, replicate, ◌>>◌, ◌>>=◌,
}
use crab_os.Allocator.{Layout}

-- `linked_list_allocator::Heap`.
pub record Fallback : Type 1 where
  pub Heap : Type 0
  pub empty : Heap
  pub init_heap : Heap → ℕ → ℕ → Heap
  pub allocate_first_fit : Heap → Layout → Heap × Option ℕ
  pub deallocate : Heap → ℕ → Layout → Heap

abbrev pub block_sizes : List ℕ
block_sizes = 8 ∷ 16 ∷ 32 ∷ 64 ∷ 128 ∷ 256 ∷ 512 ∷ 1024 ∷ 2048 ∷ []

-- `iter().position(|&s| s >= required)`, counted from an index.
abbrev pub position_from : ℕ → List ℕ → ℕ → Option ℕ
position_from i [] required = none
position_from i (s ∷ sizes) required =
    let later = position_from (suc i) sizes required in if leb required s then some i else later

unfoldable pub list_index : Layout → Option ℕ
list_index layout = position_from 0 block_sizes (max layout.size layout.align)

-- The allocator, with the counter `REQUESTED_BYTES`.
pub record FixedSizeBlockAllocator (Heap : Type 0) : Type 0 where
  pub list_heads : List (List ℕ)
  pub fallback_allocator : Heap
  pub requested_bytes : ℕ

module _ (fallback : Fallback) where
  abbrev pub Allocator : Type 0
  Allocator = FixedSizeBlockAllocator fallback.Heap

  abbrev pub new : Allocator
  new = record {
    list_heads = replicate 9 [];
    fallback_allocator = fallback.empty;
    requested_bytes = 0;
  }

  abbrev pub init : Allocator → ℕ → ℕ → Allocator
  init a heap_start heap_size = record a {
    fallback_allocator = fallback.init_heap a.fallback_allocator heap_start heap_size;
  }

  unfoldable pub fallback_alloc : Allocator → Layout → Allocator × Option ℕ
  fallback_alloc a layout =
      let r = fallback.allocate_first_fit a.fallback_allocator layout in
      (record a { fallback_allocator = r.0 }, r.1)

  -- The first block of a list, or a new one of the list's size, which is its alignment too.
  unfoldable pub alloc_listed : Allocator → ℕ → List ℕ → Option (Allocator × Option ℕ)
  alloc_listed a index (node ∷ next) =
      store a.list_heads index next >>= λ heads. some (record a { list_heads = heads }, some node)
  alloc_listed a index [] = get_elem? block_sizes index >>= λ size.
      some (fallback_alloc a (record { size = size; align = size }))

  unfoldable pub alloc_class : Allocator → Layout → Option ℕ → Option (Allocator × Option ℕ)
  alloc_class a layout none = some (fallback_alloc a layout)
  alloc_class a layout (some index) = get_elem? a.list_heads index >>= alloc_listed a index

  -- `fetch_add` wraps.
  abbrev pub count_up : Allocator → Layout → Option ℕ → Allocator
  count_up a layout none = a
  count_up a layout (some ptr) = record a {
    requested_bytes = (a.requested_bytes + layout.size) % 2 ^ 64;
  }

  unfoldable pub alloc : Allocator → Layout → Option (Allocator × Option ℕ)
  alloc a layout =
      alloc_class a layout (list_index layout) >>= λ r. some (count_up r.0 layout r.1, r.1)

  -- `fetch_sub` wraps, and a size is below 2 ^ 64.
  abbrev pub count_down : Allocator → Layout → Allocator
  count_down a layout = record a {
    requested_bytes = (a.requested_bytes + 2 ^ 64 - layout.size) % 2 ^ 64;
  }

  unfoldable pub dealloc_class : Allocator → ℕ → Layout → Option ℕ → Option Allocator
  dealloc_class a ptr layout none =
      assert (ltb 0 ptr)
      >> some
          (record a { fallback_allocator = fallback.deallocate a.fallback_allocator ptr layout })
  dealloc_class a ptr layout (some index) = do
    head ← get_elem? a.list_heads index
    size ← get_elem? block_sizes index
    assert (leb 8 size)
        >> (store a.list_heads index (ptr ∷ head) >>= λ heads.
            some (record a { list_heads = heads }))

  unfoldable pub dealloc : Allocator → ℕ → Layout → Option Allocator
  dealloc a ptr layout = dealloc_class (count_down a layout) ptr layout (list_index layout)
