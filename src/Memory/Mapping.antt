-- ===== src/Memory/Mapping.antt =====
-- A mapper of the crate x86_64 as it is documented, and what its calls leave.
pub mod Device
pub mod Heap
use crab_os.Prelude.{
  ℕ, zero, suc, ◌+◌, ◌-◌, ◌*◌, ◌/◌, ◌%◌, ◌^◌, ◌≤◌, ◌<◌, ◌≡◌, refl, ap, subst, ◌⊎◌, inl, inr, Option,
  none, some, List, arith, lt→ltb, Option-cases, ℕ_discrete,
}
use crab_os.System.{heap_size}
use crab_os.Allocator.Blocks.{Fallback, Allocator}
use crab_os.Allocator.Blocks
use crab_os.Memory.{
  Paging, Flag, align_down, frame_containing, page_containing, virtual_base, mmio_flags, heap_start,
  heap_flags, map_pages, map_mmio, map_heap, init_heap,
}

-- The documented behaviour of a mapper: `map_to` that gives no error maps the page to the frame, and a
-- page that is mapped keeps its frame, whatever the result. A frame allocator maps nothing.
pub record Laws (paging : Paging) : Type 0 where
  pub maps :
      (page frame : ℕ) (flags : List Flag) (s s' : paging.State)
      → paging.map_to page frame flags s ≡ (s', none)
      → paging.lookup s' page ≡ some (frame, flags)
  pub keeps :
      (page frame other : ℕ) (flags : List Flag) (s : paging.State) (target : ℕ × List Flag)
      → paging.lookup s other ≡ some target
      → paging.lookup (paging.map_to page frame flags s).0 other ≡ some target
  pub keeps_frames :
      (other : ℕ) (s : paging.State) (target : ℕ × List Flag)
      → paging.lookup s other ≡ some target
      → paging.lookup (paging.allocate_frame s).0 other ≡ some target

module _ (paging : Paging) (laws : Laws paging) where
  -- The page is mapped to the frame with the flags of a device.
  abbrev pub MapsTo : ℕ → ℕ → List Flag → paging.State → Type 0
  MapsTo page frame flags s = paging.lookup s page ≡ some (frame, flags)

  -- What is mapped stays.
  abbrev pub Extends : paging.State → paging.State → Type 0
  Extends s s' =
      (page : ℕ) (target : ℕ × List Flag)
      → paging.lookup s page ≡ some target
      → paging.lookup s' page ≡ some target

  pub map_to-cases :
      (page frame : ℕ) (flags : List Flag) (s : paging.State)
      → ((s' : paging.State) × (paging.map_to page frame flags s ≡ (s', none)))
        ⊎ ((s' : paging.State) × (e : paging.Error) × (paging.map_to page frame flags s
              ≡ (s', some e)))
  map_to-cases page frame flags s = elim (Option-cases (paging.map_to page frame flags s).1) [
    | inl e ↦ inl (
      (paging.map_to page frame flags s).0,
      ap (λ (r : Option paging.Error). ((paging.map_to page frame flags s).0, r)) e,
    )
    | inr (x, e) ↦ inr (
      (paging.map_to page frame flags s).0,
      x,
      ap (λ (r : Option paging.Error). ((paging.map_to page frame flags s).0, r)) e,
    )
  ]

  pub map_to-Extends :
      (page frame : ℕ) (flags : List Flag) (s s' : paging.State) (error : Option paging.Error)
      → paging.map_to page frame flags s ≡ (s', error)
      → Extends s s'
  map_to-Extends page frame flags s s' error e other target q =
      subst (λ (t : paging.State × Option paging.Error). paging.lookup t.0 other ≡ some target) e
        (laws.keeps page frame other flags s target q)

  whole : (addr : ℕ) → addr % 4096 ≡ 0 → align_down addr ≡ addr
  whole addr h = omega arith

  pub page-eq : (addr : ℕ) → addr < 2 ^ 47 → addr % 4096 ≡ 0 → page_containing addr ≡ some addr
  page-eq addr h a = rw (lt→ltb addr (2 ^ 47) h) (ap (λ (n : ℕ). some n) (whole addr a))

  pub frame-eq : (addr : ℕ) → addr < 2 ^ 52 → addr % 4096 ≡ 0 → frame_containing addr ≡ some addr
  frame-eq addr h a = rw (lt→ltb addr (2 ^ 52) h) (ap (λ (n : ℕ). some n) (whole addr a))
