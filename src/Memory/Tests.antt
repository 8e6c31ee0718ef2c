-- ===== src/Memory/Tests.antt =====
-- A mapper whose tables are a function, and a memory map of two regions.
use crab_os.Prelude.{
  ℕ, ◌+◌, ◌≡◌, refl, Option, none, some, List, [], ◌∷◌, true, false, arith, ◌==◌, if◌then◌else◌,
  Bool-cases, ap, sym, ◌∙◌, if-eq_true, if-eq_false, inl, inr, ==-eq_true,
}
use crab_os.System.{MemoryRegion}
use crab_os.Allocator.Blocks.{Fallback, Allocator}
use crab_os.Allocator.Blocks
use crab_os.Memory.{Paging, Flag}
use crab_os.Memory.Frames.{Gives, allocate_frame-Gives}
use crab_os.Memory.Mapping.{Laws}
use crab_os.Memory.Mapping.Device.{MapsDevice, map_mmio-Maps}
use crab_os.Memory.Mapping.Heap.{MapsAll, init_heap-Maps}

abbrev memory_map : List MemoryRegion
memory_map =
    record { is_usable = true; start_addr = 0; end_addr = 8192 }
    ∷ record { is_usable = false; start_addr = 8192; end_addr = 16384 }
    ∷ record { is_usable = true; start_addr = 16384; end_addr = 20480 }
    ∷ []

allocate_frame-Gives_example : Gives memory_map 1 2
allocate_frame-Gives_example =
    allocate_frame-Gives memory_map 1 2
      (
        omega arith,
        omega arith,
        omega arith,
        refl,
        refl,
        (
          omega arith,
          omega arith,
          omega arith,
          refl,
          refl,
          (omega arith, omega arith, omega arith, refl, refl, tt),
        ),
      )
      (omega arith)

abbrev Tables : Type 0
Tables = ℕ → Option (ℕ × List Flag)

abbrev map_new : ℕ → ℕ → List Flag → Tables → Option (ℕ × List Flag) → Tables × Option ℕ
map_new page frame flags s none = ((λ p. if p == page then some (frame, flags) else s p), none)
map_new page frame flags s (some target) = (s, some 1)

abbrev tables : Paging
tables = record {
  State = Tables;
  Error = ℕ;
  allocation_failed = 0;
  map_to = λ page frame flags s. map_new page frame flags s (s page);
  allocate_frame = λ s. (s, some 0x2000);
  lookup = λ s page. s page;
}

maps :
    (page frame : ℕ) (flags : List Flag) (s s' : Tables) (old : Option (ℕ × List Flag))
    → map_new page frame flags s old ≡ (s', none)
    → s' page ≡ some (frame, flags)
maps page frame flags s s' none e =
    ap (λ (r : Tables × Option ℕ). r.0 page) (sym e) ∙ if-eq_true _ _ (==-eq_true page page refl)
maps page frame flags s s' (some target) e =
    absurd (let e' : some 1 ≡ none = ap (λ (r : Tables × Option ℕ). r.1) e in cc)

keeps :
    (page frame other : ℕ) (flags : List Flag) (s : Tables) (target : ℕ × List Flag)
    (old : Option (ℕ × List Flag))
    → s page ≡ old
    → s other ≡ some target
    → (map_new page frame flags s old).0 other ≡ some target
keeps page frame other flags s target none e h = elim (Bool-cases (other == page)) [
  | inl same ↦ absurd (let at_page : other ≡ page = ground arith in let e' = ap s at_page in cc)
  | inr apart ↦ if-eq_false _ _ apart ∙ h
]
keeps page frame other flags s target (some old) e h = h

tables-Laws : Laws tables
tables-Laws = record {
  maps = λ page frame flags s s' e. maps page frame flags s s' (s page) e;
  keeps =
      λ page frame other flags s target h. keeps page frame other flags s target (s page) refl h;
  keeps_frames = λ other s target h. h;
}

abbrev unmapped : Tables
unmapped page = none

map_mmio-Maps_example : MapsDevice tables tables-Laws 0xfeb80100 131072 unmapped
map_mmio-Maps_example =
    map_mmio-Maps tables tables-Laws 0xfeb80100 131072 unmapped (omega arith) (omega arith)

abbrev upward : Fallback
upward = record {
  Heap = ℕ;
  empty = 0;
  init_heap = λ _ start _. start;
  allocate_first_fit = λ h l. (h + l.size, some h);
  deallocate = λ h _ _. h;
}

init_heap-Maps_example : MapsAll tables tables-Laws upward (Blocks.new upward) unmapped
init_heap-Maps_example = init_heap-Maps tables tables-Laws upward (Blocks.new upward) unmapped
