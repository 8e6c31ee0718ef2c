-- ===== src/System/Facts.antt =====
-- `SystemInfo::new` panics nowhere on a sound memory map, and its parts are those that `cpuid` and the
-- map give.
use crab_os.Prelude.{
  ℕ, ◌+◌, ◌-◌, ◌^◌, ◌≤◌, ◌<◌, ◌≡◌, refl, ◌&&◌, some, List, [], ◌∷◌, ◌++◌, arith, All, replicate,
  leb, if◌then◌else◌, has_bit, Bool-cases, inl, inr,
}
use crab_os.System.{MemoryRegion, Cpuid, sum_usable, to_le_bytes, read_vendor, read_brand, new}

-- A region that ends behind its start.
abbrev pub Ordered : MemoryRegion → Type 0
Ordered r = r.start_addr ≤ r.end_addr

-- The bytes of the usable regions.
abbrev pub usable_total : List MemoryRegion → ℕ
usable_total [] = 0
usable_total (r ∷ regions) =
    (if r.is_usable then r.end_addr - r.start_addr else 0) + usable_total regions

sum_usable-eq_some :
    (regions : List MemoryRegion) (sum : ℕ)
    → All Ordered regions
    → sum + usable_total regions < 2 ^ 64
    → sum_usable sum regions ≡ some (sum + usable_total regions)
unfolding sum_usable
sum_usable-eq_some [] sum o h = rw (let e : sum + 0 ≡ sum = omega arith in e)
sum_usable-eq_some (r ∷ regions) sum o h = elim (Bool-cases r.is_usable) [
  | inl e ↦ ground (arith, sum_usable-eq_some regions (sum + (r.end_addr - r.start_addr)) o.1)
  | inr e ↦ ground (arith, sum_usable-eq_some regions sum o.1)
]

-- The twelve bytes of the vendor's name.
abbrev pub vendor_of : Cpuid → List ℕ
vendor_of base = to_le_bytes base.ebx ++ (to_le_bytes base.edx ++ to_le_bytes base.ecx)

abbrev pub leaf_bytes : Cpuid → List ℕ
leaf_bytes c = to_le_bytes c.eax ++ (to_le_bytes c.ebx ++ (to_le_bytes c.ecx ++ to_le_bytes c.edx))

-- The 48 bytes of the processor's name: three leaves, if the processor has them.
abbrev pub brand_of : (ℕ → Cpuid) → List ℕ
brand_of cpuid =
    if leb 0x80000004 (cpuid 0x80000000).eax
    then leaf_bytes (cpuid 0x80000002)
      ++ (leaf_bytes (cpuid 0x80000003) ++ leaf_bytes (cpuid 0x80000004))
    else replicate 48 0

module _ (cpuid : ℕ → Cpuid) where
  vendor-eq : read_vendor cpuid ≡ some (vendor_of (cpuid 0))
  unfolding read_vendor
  vendor-eq = refl

  brand-eq : read_brand cpuid ≡ some (brand_of cpuid)
  unfolding read_brand
  brand-eq = elim (Bool-cases (leb 0x80000004 (cpuid 0x80000000).eax)) [
    | inl e ↦ rw e refl
    | inr e ↦ rw e refl
  ]

  -- On a memory map of regions that end behind their starts, with less than 2^64 usable bytes in all,
  -- `SystemInfo::new` does not panic. It counts the bytes of the usable regions, the vendor's name is
  -- ebx, edx and ecx of leaf 0, and the processor's name the twelve words of three leaves, or zeros
  -- where the processor does not have them.
  pub new-eq :
      (memory_map : List MemoryRegion)
      → All Ordered memory_map
      → usable_total memory_map < 2 ^ 64
      → new cpuid memory_map
        ≡ some (record {
          usable_memory = usable_total memory_map;
          vendor = vendor_of (cpuid 0);
          brand = brand_of cpuid;
          virtualized = leb 1 (cpuid 0).eax && has_bit 31 (cpuid 1).ecx;
        })
  unfolding new
  new-eq memory_map o h =
      let sum : sum_usable 0 memory_map ≡ some (usable_total memory_map) =
        rw (let e : 0 + usable_total memory_map ≡ usable_total memory_map = omega arith in e) at
          (sum_usable-eq_some memory_map 0 o (omega arith)) in
      rw sum (rw vendor-eq (rw brand-eq refl))
