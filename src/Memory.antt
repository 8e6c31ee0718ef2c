-- ===== src/Memory.antt =====
-- Physical memory and page tables: the frame allocator and `map_mmio` of src/memory.rs, and `init_heap`
-- of src/allocator.rs. The mapper of the crate x86_64 is a parameter; a page and a frame are their start
-- addresses, and `none` is a panic.
pub mod Frames
pub mod Mapping
mod Tests
use crab_os.Prelude.{
  ℕ, zero, suc, ◌+◌, ◌-◌, ◌*◌, ◌/◌, ◌%◌, ◌^◌, Bool, true, false, Option, none, some, List, [], ◌∷◌,
  ◌++◌, ltb, if◌then◌else◌, ◌>>=◌,
}
use crab_os.System.{MemoryRegion, heap_size}
use crab_os.Allocator.Blocks.{Fallback, Allocator}
use crab_os.Allocator.Blocks

-- `step_by(4096)`, for so many steps.
abbrev pub step_by : ℕ → ℕ → List ℕ
step_by zero addr = []
step_by (suc count) addr = addr ∷ step_by count (addr + 4096)

abbrev pub addresses_of : MemoryRegion → List ℕ
addresses_of r = step_by ((r.end_addr - r.start_addr + 4095) / 4096) r.start_addr

-- The addresses that `usable_frames` runs through.
unfoldable pub frame_addresses : List MemoryRegion → List ℕ
frame_addresses [] = []
frame_addresses (r ∷ regions) =
    let later = frame_addresses regions in if r.is_usable then addresses_of r ++ later else later

abbrev pub align_down : ℕ → ℕ
align_down addr = addr - addr % 4096

-- `PhysFrame::containing_address(PhysAddr::new(addr))`, for an address of 52 bits.
abbrev pub frame_containing : ℕ → Option ℕ
frame_containing addr = if ltb addr (2 ^ 52) then some (align_down addr) else none

-- `nth` of the iterator, which makes a frame of every address that it passes.
unfoldable pub nth : ℕ → List ℕ → Option (Option ℕ)
nth n [] = some none
nth zero (addr ∷ addresses) = frame_containing addr >>= λ frame. some (some frame)
nth (suc n) (addr ∷ addresses) = frame_containing addr >>= λ frame. nth n addresses

-- `BootInfoFrameAllocator`
pub record FrameAllocator : Type 0 where
  pub memory_map : List MemoryRegion
  pub next : ℕ

unfoldable pub allocate_frame : FrameAllocator → Option (FrameAllocator × Option ℕ)
allocate_frame a = nth a.next (frame_addresses a.memory_map) >>= λ frame.
    some (record a { next = a.next + 1 }, frame)

-- `PageTableFlags`
pub data Flag : Type 0 where
  present writable no_cache write_through : Flag

-- What `init_heap` and `map_mmio` use of a mapper and a frame allocator, whose states are one; an error
-- is that of `map_to`. `lookup` is what the page tables say of a page.
pub record Paging : Type 1 where
  pub State : Type 0
  pub Error : Type 0
  pub allocation_failed : Error
  pub map_to : ℕ → ℕ → List Flag → State → State × Option Error
  pub allocate_frame : State → State × Option ℕ
  pub lookup : State → ℕ → Option (ℕ × List Flag)

-- `Page::containing_address(VirtAddr::new(addr))`, for an address in the lower half.
abbrev pub page_containing : ℕ → Option ℕ
page_containing addr = if ltb addr (2 ^ 47) then some (align_down addr) else none

abbrev pub virtual_base : ℕ
virtual_base = 0x5555_0000_0000

abbrev pub mmio_flags : List Flag
mmio_flags = present ∷ writable ∷ no_cache ∷ write_through ∷ []

abbrev pub heap_start : ℕ
heap_start = 0x4444_4444_0000

abbrev pub heap_flags : List Flag
heap_flags = present ∷ writable ∷ []

module _ (paging : Paging) where
  -- The state, and the error that ended the code, if one did.
  abbrev pub Ended : Type 0
  Ended = Option (paging.State × Option paging.Error)

  -- `?` on a result.
  abbrev pub and_then : paging.State × Option paging.Error → (paging.State → Ended) → Ended
  and_then (s, none) rest = rest s
  and_then (s, some error) rest = some (s, some error)

  -- The loop of `map_mmio`, for so many pages from an index on.
  unfoldable pub map_pages : ℕ → ℕ → ℕ → paging.State → Ended
  map_pages physical_page zero index s = some (s, none)
  map_pages physical_page (suc count) index s = do
    page ← page_containing (virtual_base + index * 4096)
    frame ← frame_containing (physical_page + index * 4096)
    and_then (paging.map_to page frame mmio_flags s) (map_pages physical_page count (index + 1))

  -- The virtual address, or an error.
  unfoldable pub map_mmio : ℕ → ℕ → paging.State → Option (paging.State × (Option paging.Error × ℕ))
  map_mmio physical_start size s = do
    let physical_page = align_down physical_start
    let offset = physical_start - physical_page
    let page_count = (offset + size + 4095) / 4096
    (s', error) ← map_pages physical_page page_count 0 s
    some (s', (error, virtual_base + offset))

  abbrev pub map_frame : ℕ → paging.State × Option ℕ → (paging.State → Ended) → Ended
  map_frame page (s, none) rest = some (s, some paging.allocation_failed)
  map_frame page (s, some frame) rest = and_then (paging.map_to page frame heap_flags s) rest

  -- The loop of `init_heap`, over so many pages from one on.
  unfoldable pub map_heap : ℕ → ℕ → paging.State → Ended
  map_heap zero page s = some (s, none)
  map_heap (suc count) page s =
      map_frame page (paging.allocate_frame s) (map_heap count (page + 4096))

  -- The allocator gets the heap where the pages could be mapped.
  unfoldable pub init_heap :
      (fallback : Fallback)
      → Allocator fallback
      → paging.State
      → Option (paging.State × (Option paging.Error × Allocator fallback))
  init_heap fallback allocator s = do
    first ← page_containing heap_start
    last ← page_containing (heap_start + heap_size - 1)
    (s', error) ← map_heap ((last - first) / 4096 + 1) first s
    some (
      s',
      (
        error,
        elim error [
          | none ↦ Blocks.init fallback allocator heap_start heap_size
          | some e ↦ allocator
        ],
      ),
    )
