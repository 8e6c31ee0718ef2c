-- ===== src/Memory/Mapping/Device.antt =====
-- What `map_mmio` maps.
use crab_os.Prelude.{
  ℕ, zero, suc, ◌+◌, ◌-◌, ◌*◌, ◌/◌, ◌%◌, ◌^◌, ◌≤◌, ◌<◌, ◌≡◌, refl, subst, inl, inr, Option, none,
  some, arith, ℕ_discrete,
}
use crab_os.Memory.{Paging, align_down, virtual_base, mmio_flags, map_pages, map_mmio}
use crab_os.Memory.Mapping.{Laws, MapsTo, Extends, map_to-cases, map_to-Extends, page-eq, frame-eq}

module _ (paging : Paging) (laws : Laws paging) where
  -- The pages of a loop from an index on, if it ended without an error.
  abbrev AllMapped : ℕ → ℕ → ℕ → paging.State → Option paging.Error → Type 0
  AllMapped physical_page count index s none =
      (i : ℕ)
      → index ≤ i
      → i < index + count
      → MapsTo paging laws (virtual_base + i * 4096) (physical_page + i * 4096) mmio_flags s
  AllMapped physical_page count index s (some error) = Unit

  record MapsPages (physical_page count index : ℕ) (s : paging.State) : Type 0 where
    pub after : paging.State
    pub error : Option paging.Error
    pub returns : map_pages paging physical_page count index s ≡ some (after, error)
    pub mapped : AllMapped physical_page count index after error
    pub extends : Extends paging laws s after

  front :
      (physical_page count index : ℕ) (s : paging.State) (error : Option paging.Error)
      → MapsTo paging laws (virtual_base + index * 4096) (physical_page + index * 4096) mmio_flags s
      → AllMapped physical_page count (index + 1) s error
      → AllMapped physical_page (suc count) index s error
  front physical_page count index s none here rest = λ i l m. elim (ℕ_discrete index i) [
    | yes e ↦
        subst
          (λ (j : ℕ).
            MapsTo paging laws (virtual_base + j * 4096) (physical_page + j * 4096) mmio_flags s)
          e here
    | no n ↦ rest i (omega arith) (omega arith)
  ]
  front physical_page count index s (some error) here rest = tt

  map_pages-Maps :
      (physical_page count index : ℕ) (s : paging.State)
      → physical_page % 4096 ≡ 0
      → physical_page + (index + count) * 4096 ≤ 2 ^ 52
      → virtual_base + (index + count) * 4096 ≤ 2 ^ 47
      → MapsPages physical_page count index s
  unfolding map_pages
  map_pages-Maps physical_page zero index s a h k = record {
    after = s;
    error = none;
    returns = refl;
    mapped = λ i l m. absurd (omega arith);
    extends = λ page target e. e;
  }
  map_pages-Maps physical_page (suc count) index s a h k =
      let page = virtual_base + index * 4096 in
      let frame = physical_page + index * 4096 in
      let p = page-eq paging laws page (omega arith) (omega arith) in
      let f = frame-eq paging laws frame (omega arith) (omega arith) in
      elim (map_to-cases paging laws page frame mmio_flags s) [
        | inl (s1, e) ↦
            let r =
              map_pages-Maps physical_page count (index + 1) s1 a (omega arith) (omega arith) in
            let here =
              r.extends page (frame, mmio_flags) (laws.maps page frame mmio_flags s s1 e) in
            record {
              after = r.after;
              error = r.error;
              returns = rw p (rw f (rw e r.returns));
              mapped = front physical_page count index r.after r.error here r.mapped;
              extends = λ other target q.
                  r.extends other target
                    (map_to-Extends paging laws page frame mmio_flags s s1 none e other target q);
            }
        | inr (s1, x, e) ↦ record {
          after = s1;
          error = some x;
          returns = rw p (rw f (rw e refl));
          mapped = tt;
          extends = map_to-Extends paging laws page frame mmio_flags s s1 (some x) e;
        }
      ]

  -- The device's bytes, where the loop ended without an error: the page of each is mapped to its frame,
  -- and it has the same place in both.
  abbrev pub Translates : ℕ → ℕ → ℕ → paging.State → Option paging.Error → Type 0
  Translates physical_start size virtual s none =
      (k : ℕ)
      → k < size
      → MapsTo paging laws (align_down (virtual + k)) (align_down (physical_start + k)) mmio_flags s
        × ((virtual + k) % 4096 ≡ (physical_start + k) % 4096)
  Translates physical_start size virtual s (some error) = Unit

  pub record MapsDevice (physical_start size : ℕ) (s : paging.State) : Type 0 where
    pub after : paging.State
    pub error : Option paging.Error
    pub virtual : ℕ
    pub returns : map_mmio paging physical_start size s ≡ some (after, (error, virtual))
    pub translates : Translates physical_start size virtual after error
    pub extends : Extends paging laws s after

  translates :
      (physical_start size : ℕ) (s : paging.State) (error : Option paging.Error)
      → AllMapped
          (align_down physical_start)
          ((physical_start % 4096 + size + 4095) / 4096)
          0
          s
          error
      → Translates physical_start size (virtual_base + physical_start % 4096) s error
  translates physical_start size s none all = λ k h.
      let offset = physical_start % 4096 in
      let i = (offset + k) / 4096 in
      let page : virtual_base + i * 4096 ≡ align_down (virtual_base + offset + k) = omega arith in
      let frame : align_down physical_start + i * 4096 ≡ align_down (physical_start + k) =
        omega arith in
      (rw (page, frame) at (all i (omega arith) (omega arith)), omega arith)
  translates physical_start size s (some error) all = tt

  -- With a mapper as documented, for a device whose pages lie below 2 ^ 52 and fit behind the virtual
  -- base, `map_mmio` panics nowhere. Without an error the page of each of the device's bytes, at the
  -- address that it returns, is mapped to the byte's frame; and what was mapped before still is.
  pub map_mmio-Maps :
      (physical_start size : ℕ) (s : paging.State)
      → physical_start + size + 4096 ≤ 2 ^ 52
      → virtual_base + size + 8192 ≤ 2 ^ 47
      → MapsDevice physical_start size s
  unfolding map_mmio
  map_mmio-Maps physical_start size s h k =
      let offset = physical_start % 4096 in
      let count = (offset + size + 4095) / 4096 in
      let r =
        map_pages-Maps (align_down physical_start) count 0 s (omega arith) (omega arith)
          (omega arith) in
      let e : physical_start - align_down physical_start ≡ offset = omega arith in
      record {
        after = r.after;
        error = r.error;
        virtual = virtual_base + offset;
        returns = rw e (rw r.returns refl);
        translates = translates physical_start size r.after r.error r.mapped;
        extends = r.extends;
      }
