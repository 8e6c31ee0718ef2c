-- ===== src/Allocator/Tests.antt =====
-- Runs of the allocators on a small heap.
use crab_os.Prelude.{
  ℕ, ◌+◌, ◌^◌, ◌≤◌, ◌<◌, ◌≡◌, refl, ◌-◌, ◌⊎◌, inl, inr, none, some, List, [], ◌∷◌, arith,
}
use crab_os.Allocator.{Layout, align_up, next_multiple}
use crab_os.Allocator.Region.{Region}
use crab_os.Allocator.Bump
use crab_os.Allocator.Bump.{BumpAllocator, alloc-Gives, init-Holds}
use crab_os.Allocator.FreeList
use crab_os.Allocator.FreeList.NoOverlap.{NoOverlap, Refused, Taken, alloc-Taken, dealloc-NoOverlap}
use crab_os.Allocator.FreeList.Sizes.{IsLayout, Sized}
use crab_os.Allocator.Blocks
use crab_os.Allocator.Blocks.{Fallback, Allocator, list_index, block_sizes}
use crab_os.Allocator.Blocks.Reuse.{Counts, CountsBlock, alloc-CountsBlock, dealloc-alloc}

abbrev layout : Layout
layout = record { size = 20; align = 8 }

abbrev heap : BumpAllocator
heap = record { heap_start = 4096; heap_end = 8192; next = 4099; allocations = 1 }

abbrev first_block : Region
first_block = record { start = 4096; size = 3 }

heap-Holds : Bump.Holds heap (first_block ∷ [])
heap-Holds = record {
  count = refl;
  low = omega arith;
  high = omega arith;
  within = ((omega arith, omega arith), tt);
  disjoint = (tt, tt);
}

alloc-Gives_example :
    ((Bump.alloc heap layout ≡ some (heap, none)) × (8192 < next_multiple 4099 8 + 20))
    ⊎ ((after : BumpAllocator) × (pointer : ℕ) × (Bump.alloc heap layout
          ≡ some (after, some pointer))
        × (pointer ≡ next_multiple 4099 8)
        × (pointer + 20 ≤ 8192)
        × Bump.Gives heap (first_block ∷ []) layout after pointer)
alloc-Gives_example =
    alloc-Gives heap (first_block ∷ []) layout heap-Holds (omega arith) (omega arith) (omega arith)

abbrev free : List Region
free = record { start = 4096; size = 32 } ∷ record { start = 8192; size = 1024 } ∷ []

abbrev block : Region
block = record { start = 4128; size = 16 }

free-NoOverlap : NoOverlap free (block ∷ [])
free-NoOverlap = record {
  nodes = ((refl, omega arith, omega arith), ((refl, omega arith, omega arith), tt));
  blocks = ((refl, omega arith, omega arith), tt);
  free_apart = ((inl (omega arith), tt), (tt, tt));
  live_apart = (tt, tt);
  across = ((inr (omega arith), (inl (omega arith), tt)), tt);
}

layout-IsLayout : IsLayout layout
layout-IsLayout = record { exponent = 3; power = refl; fits = omega arith }

alloc-Taken_example : Refused free layout ⊎ Taken (FreeList.alloc free layout) (block ∷ []) layout
alloc-Taken_example =
    alloc-Taken free (block ∷ []) layout free-NoOverlap layout-IsLayout
      (omega arith, (omega arith, tt))

-- At the end of the address space `align_up` panics.
near_end :
    FreeList.alloc
      (record { start = 2 ^ 64 - 8192; size = 4096 } ∷ [])
      (record { size = 16; align = 16384 })
    ≡ none
unfolding FreeList.alloc FreeList.size_align FreeList.find_region FreeList.alloc_from_region
    align_up
near_end = refl

abbrev small : Layout
small = record { size = 5; align = 1 }

small-Sized : Sized small 16 8
unfolding FreeList.size_align next_multiple
small-Sized = record {
  returns = refl;
  of_node = refl;
  room = omega arith;
  node = omega arith;
  whole = refl;
  pos = omega arith;
  both = λ at h. (omega arith, h);
}

dealloc-NoOverlap_example :
    (FreeList.dealloc free 4128 small ≡ some (block ∷ free)) × NoOverlap (block ∷ free) []
dealloc-NoOverlap_example = dealloc-NoOverlap free [] [] 4128 small 16 8 small-Sized free-NoOverlap

-- A heap that goes up from an address.
abbrev upward : Fallback
upward = record {
  Heap = ℕ;
  empty = 0;
  init_heap = λ _ start _. start;
  allocate_first_fit = λ h l. (h + l.size, some h);
  deallocate = λ h _ _. h;
}

abbrev one_block : Allocator upward
one_block = record (Blocks.init upward (Blocks.new upward) 4096 8192) { requested_bytes = 20 }

one_block-Counts : Counts upward one_block (20 ∷ [])
one_block-Counts = record { lists = refl; count = refl }

alloc-CountsBlock_example :
    CountsBlock upward one_block (20 ∷ []) layout (Blocks.alloc upward one_block layout)
alloc-CountsBlock_example = alloc-CountsBlock upward one_block (20 ∷ []) layout one_block-Counts

dealloc-alloc_example :
    (b : Allocator upward) × (Blocks.dealloc upward one_block 4096 layout ≡ some b)
    × Counts upward b []
    × ((i : ℕ) (next : Layout)
        → list_index layout ≡ some i
        → list_index next ≡ some i
        → (c : Allocator upward) × (Blocks.alloc upward b next ≡ some (c, some 4096))
          × (c.list_heads ≡ one_block.list_heads))
dealloc-alloc_example =
    dealloc-alloc upward one_block [] [] 4096 layout one_block-Counts (omega arith) (omega arith)
