-- ===== src/Pci.antt =====
-- The search for devices of src/pci.rs. The configuration space, which the ports give, is a parameter.
pub mod Find
mod Tests
use crab_os.Prelude.{
  ℕ, zero, suc, ◌+◌, ◌-◌, ◌*◌, ◌/◌, ◌%◌, ◌^◌, Bool, Option, none, some, ◌==◌, if◌then◌else◌,
  has_bit,
}

pub record Address : Type 0 where
  pub bus : ℕ
  pub device : ℕ
  pub function : ℕ

-- The number that `read` and `write` put on the selector port, for a register below 256.
unfoldable pub selector : Address → ℕ → ℕ
selector a register =
    2 ^ 31 + a.bus * 2 ^ 16 + a.device * 2 ^ 11 + a.function * 2 ^ 8 + (register - register % 4)

-- A `for` loop that returns at the first `Some`.
abbrev pub or_else {ℓ} : {A : Type ℓ} → Option A → Option A → Option A
or_else none later = later
or_else (some a) later = some a

unfoldable pub first_some {ℓ} : {A : Type ℓ} → (ℕ → Option A) → ℕ → ℕ → Option A
first_some f from zero = none
first_some f from (suc count) = or_else (f from) (first_some f (suc from) count)

module _ (read : Address → ℕ → ℕ) where
  -- Base address register 0, where it is a memory address. The upper half of a 64-bit one is in the
  -- next register.
  unfoldable pub memory_bar0 : Address → Option ℕ
  memory_bar0 a =
      let bar = read a 0x10 in
      let low = bar - bar % 16 in
      let kind = bar / 2 % 4 in
      if has_bit 0 bar
      then none
      else if kind == 0
      then some low
      else if kind == 2
      then some (low + read a 0x14 * 2 ^ 32)
      else none

  -- The functions that a device says it has.
  abbrev pub functions : Address → ℕ
  functions first = if has_bit 23 (read first 0x0c) then 8 else 1

  abbrev pub first_of : ℕ → ℕ → Address
  first_of bus device = record { bus = bus; device = device; function = 0 }

  abbrev pub try_function : ℕ → ℕ → ℕ → ℕ → ℕ → Option Address
  try_function vendor device_id bus device function =
      let address : Address = record { bus = bus; device = device; function = function } in
      if read address 0 == device_id * 2 ^ 16 + vendor then some address else none

  unfoldable pub try_device : ℕ → ℕ → ℕ → ℕ → Option Address
  try_device vendor device_id bus device =
      let first = first_of bus device in
      let found = first_some (try_function vendor device_id bus device) 0 (functions first) in
      if read first 0 % 2 ^ 16 == 0xffff then none else found

  unfoldable pub try_bus : ℕ → ℕ → ℕ → Option Address
  try_bus vendor device_id bus = first_some (try_device vendor device_id bus) 0 32

  unfoldable pub find : ℕ → ℕ → Option Address
  find vendor device_id = first_some (try_bus vendor device_id) 0 256

  unfoldable pub find_i225_v : Option Address
  find_i225_v = find 0x8086 0x15f3

  unfoldable pub find_qemu_e1000 : Option Address
  find_qemu_e1000 = find 0x8086 0x100e
