-- ===== src/Allocator/FreeList.antt =====
-- The free-list allocator of src/allocator/linked_list.rs. A node stands at the start of the region
-- that it describes, so that the list is a list of regions, the head's first.
pub mod Find
pub mod Sizes
pub mod NoOverlap
use crab_os.Prelude.{
  ℕ, zero, suc, ◌+◌, ◌-◌, ◌%◌, ◌^◌, max, Bool, ◌&&◌, Option, none, some, List, [], ◌∷◌, ltb, leb,
  ◌==◌, if◌then◌else◌, assert, ◌>>◌, ◌>>=◌,
}
use crab_os.Allocator.{Layout, align_up, checked_add, add_usize, next_multiple}
use crab_os.Allocator.Region.{Region}

-- `mem::size_of::<ListNode>()` and `mem::align_of::<ListNode>()` on x86_64.
abbrev pub node_size : ℕ
node_size = 16

abbrev pub node_align : ℕ
node_align = 8

-- `isize::MAX`, which bounds the size of a `Layout` rounded up to its alignment.
abbrev pub isize_max : ℕ
isize_max = 2 ^ 63 - 1

-- `ListNode::end_addr`
abbrev pub end_of : Region → Option ℕ
end_of r = add_usize r.start r.size

-- `Layout::align_to` and `pad_to_align` of the standard library, and the room for a node.
unfoldable pub size_align : Layout → Option (ℕ × ℕ)
size_align layout =
    let align = max layout.align node_align in
    assert (leb (layout.size + align - 1) isize_max)
    >> some (max (next_multiple layout.size align) node_size, align)

unfoldable pub add_free_region : List Region → ℕ → ℕ → Option (List Region)
add_free_region free addr size = align_up addr node_align >>= λ aligned.
    assert (aligned == addr)
    >> (assert (leb node_size size) >> some (record { start = addr; size = size } ∷ free))

-- The block's place in a region, unless it would leave a rest that cannot hold a node.
abbrev pub place_in : Region → ℕ → Option ℕ → Option (Option ℕ)
place_in region alloc_start none = some none
place_in region alloc_start (some alloc_end) = end_of region >>= λ end_addr. some (
    if ltb end_addr alloc_end
    then none
    else (let excess_size = end_addr - alloc_end in
        if ltb 0 excess_size && ltb excess_size node_size then none else some alloc_start))

unfoldable pub alloc_from_region : Region → ℕ → ℕ → Option (Option ℕ)
alloc_from_region region size align = align_up region.start align >>= λ alloc_start.
    place_in region alloc_start (checked_add alloc_start size)

-- A region that was found, the place of the block in it, and the other regions.
pub record Found : Type 0 where
  pub region : Region
  pub alloc_start : ℕ
  pub others : List Region

-- The rest of a search behind a region that does not do.
abbrev pub behind : Region → Option Found → Option Found
behind r none = none
behind r (some f) = some (record f { others = r ∷ f.others })

-- The search ends at a region that does, and goes on behind one that does not.
abbrev pub choose : Region → List Region → Option ℕ → Option (Option Found) → Option (Option Found)
choose r rest none later = later >>= λ found. some (behind r found)
choose r rest (some alloc_start) later =
    some (some (record { region = r; alloc_start = alloc_start; others = rest }))

unfoldable pub find_region : List Region → ℕ → ℕ → Option (Option Found)
find_region [] size align = some none
find_region (r ∷ rest) size align =
    let later = find_region rest size align in
    alloc_from_region r size align >>= λ at. choose r rest at later

-- What `alloc` does with a region: the space behind the block is free again.
unfoldable pub take_block : ℕ → Found → Option (List Region × Option ℕ)
take_block size f = do
  alloc_end ← checked_add f.alloc_start size
  end_addr ← end_of f.region
  assert (leb alloc_end end_addr)
  let excess_size = end_addr - alloc_end
  if ltb 0 excess_size
      then (add_free_region f.others alloc_end excess_size >>= λ free.
          some (free, some f.alloc_start))
      else some (f.others, some f.alloc_start)

abbrev pub take_or_null : List Region → ℕ → Option Found → Option (List Region × Option ℕ)
take_or_null free size none = some (free, none)
take_or_null free size (some f) = take_block size f

unfoldable pub alloc : List Region → Layout → Option (List Region × Option ℕ)
alloc free layout = do
  (size, align) ← size_align layout
  found ← find_region free size align
  take_or_null free size found

unfoldable pub dealloc : List Region → ℕ → Layout → Option (List Region)
dealloc free ptr layout = do (size, _) ← size_align layout; add_free_region free ptr size
