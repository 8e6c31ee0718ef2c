-- ===== src/Interrupts.antt =====
-- The clock of src/interrupts.rs: the timer's tick, `uptime_seconds` and `uptime_millis`. The sums and
-- products of `u64` are checked, and `none` is their panic.
pub mod Clock
mod Tests
use crab_os.Prelude.{
  ℕ, ◌+◌, ◌*◌, ◌/◌, ◌%◌, ◌^◌, Option, none, some, ltb, if◌then◌else◌, ℤ, pos, ◌-ℤ◌, ◌>>=◌,
}

abbrev pub pit_frequency : ℕ
pit_frequency = 1193182

abbrev pub pit_divisor : ℕ
pit_divisor = 11932

-- `TICKS.fetch_add(1)`, which wraps.
unfoldable pub tick : ℕ → ℕ
tick ticks = (ticks + 1) % 2 ^ 64

abbrev pub checked : ℕ → Option ℕ
checked n = if ltb n (2 ^ 64) then some n else none

unfoldable pub uptime_seconds : ℕ → Option ℕ
uptime_seconds ticks = do
  whole ← checked (ticks / pit_frequency * pit_divisor)
  rest ← checked (ticks % pit_frequency * pit_divisor)
  checked (whole + rest / pit_frequency)

-- `as i64`
abbrev pub as_i64 : ℕ → ℤ
as_i64 n = if ltb n (2 ^ 63) then pos n else pos n -ℤ pos (2 ^ 64)

unfoldable pub uptime_millis : ℕ → Option ℤ
uptime_millis ticks = do
  counts ← checked (ticks * pit_divisor)
  product ← checked (counts * 1000)
  some (as_i64 (product / pit_frequency))
