-- ===== src/System/Tests.antt =====
-- A processor with the name "AB" and two regions of memory, one of which is usable.
use crab_os.Prelude.{
  ℕ, ◌≡◌, refl, true, false, some, List, [], ◌∷◌, arith, ◌==◌, if◌then◌else◌, codes, from_utf8,
}
use crab_os.System.{MemoryRegion, Cpuid, SystemInfo, new, cpu_name}
use crab_os.System.Facts.{usable_total, vendor_of, brand_of, new-eq}

abbrev cpuid : ℕ → Cpuid
cpuid leaf =
    if leaf == 0x80000000
    then record { eax = 0x80000004; ebx = 0; ecx = 0; edx = 0 }
    else if leaf == 0x80000002
    then record { eax = 0x4241; ebx = 0; ecx = 0; edx = 0 }
    else record { eax = 0; ebx = 0; ecx = 0; edx = 0 }

abbrev memory_map : List MemoryRegion
memory_map =
    record { is_usable = true; start_addr = 0; end_addr = 4096 }
    ∷ record { is_usable = false; start_addr = 4096; end_addr = 8192 }
    ∷ []

abbrev info : SystemInfo
info = record {
  usable_memory = usable_total memory_map;
  vendor = vendor_of (cpuid 0);
  brand = brand_of cpuid;
  virtualized = false;
}

name_of_processor : cpu_name info ≡ codes "AB"
unfolding cpu_name from_utf8
name_of_processor = refl

new-eq_example : new cpuid memory_map ≡ some info
new-eq_example = new-eq cpuid memory_map (omega arith, (omega arith, tt)) (omega arith)
