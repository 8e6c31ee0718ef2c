-- ===== src/Pci/Tests.antt =====
-- A machine with one network card: device 3 on bus 0, function 0.
use crab_os.Prelude.{ℕ, ◌+◌, ◌*◌, ◌^◌, ◌≡◌, ◌≢◌, ◌⊎◌, none, some, ◌==◌, if◌then◌else◌, ◌&&◌}
use crab_os.Pci.{Address, find}
use crab_os.Pci.Find.{Present, Matches, find-cases}

abbrev card : Address → ℕ → ℕ
card a register =
    if a.bus == 0 && (a.device == 3 && (a.function == 0 && register == 0))
    then 0x100e_8086
    else if register == 0
    then 0xffff_ffff
    else 0

find-cases_example :
    ((find card 0x8086 0x100e ≡ none)
      × ((a : Address) → Present card 0x8086 0x100e a → card a 0 ≢ 0x100e * 2 ^ 16 + 0x8086))
    ⊎ ((a : Address) × (find card 0x8086 0x100e ≡ some a) × Matches card 0x8086 0x100e a)
find-cases_example = find-cases card 0x8086 0x100e
