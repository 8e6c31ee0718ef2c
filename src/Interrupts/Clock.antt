-- ===== src/Interrupts/Clock.antt =====
-- What the two clocks show.
use crab_os.Prelude.{ℕ, ◌+◌, ◌*◌, ◌/◌, ◌%◌, ◌^◌, ◌≤◌, ◌<◌, ◌≡◌, refl, ap, some, arith, lt→ltb, pos}
use crab_os.Interrupts.{pit_frequency, pit_divisor, tick, checked, uptime_seconds, uptime_millis}

checked-eq_some : (n : ℕ) → n < 2 ^ 64 → checked n ≡ some n
checked-eq_some n h = rw (lt→ltb n (2 ^ 64) h) refl

abbrev pub seconds_of : ℕ → ℕ
seconds_of ticks = ticks * pit_divisor / pit_frequency

abbrev pub millis_of : ℕ → ℕ
millis_of ticks = ticks * pit_divisor * 1000 / pit_frequency

-- The split of the quotient does not change it.
seconds-eq : (ticks : ℕ) → ticks < 2 ^ 64 → uptime_seconds ticks ≡ some (seconds_of ticks)
unfolding uptime_seconds
seconds-eq ticks h =
    let whole = ticks / pit_frequency * pit_divisor in
    let rest = ticks % pit_frequency * pit_divisor in
    rw (checked-eq_some whole (omega arith)) (
      rw (checked-eq_some rest (omega arith)) (
        rw (checked-eq_some (whole + rest / pit_frequency) (omega arith))
          (ap (λ (n : ℕ). some n) (omega arith))))

-- What the clock in seconds shows now and at the next tick.
pub record Runs (ticks : ℕ) : Type 0 where
  pub now : uptime_seconds ticks ≡ some (seconds_of ticks)
  pub later : uptime_seconds (tick ticks) ≡ some (seconds_of (ticks + 1))
  pub forward : seconds_of ticks ≤ seconds_of (ticks + 1)
  pub slow : seconds_of (ticks + 1) ≤ seconds_of ticks + 1

-- For every count of ticks that does not wrap at the next one, `uptime_seconds` does not overflow, and
-- gives the ticks times the divisor over the frequency, rounded down. The next tick adds a second at
-- most, and takes none away.
pub uptime_seconds-Runs : (ticks : ℕ) → ticks + 1 < 2 ^ 64 → Runs ticks
unfolding tick
uptime_seconds-Runs ticks h =
    let next : (ticks + 1) % 2 ^ 64 ≡ ticks + 1 = omega arith in
    record {
      now = seconds-eq ticks (omega arith);
      later = rw next (seconds-eq (ticks + 1) h);
      forward = omega arith;
      slow = omega arith;
    }

-- Where the ticks times 11,932,000 fit in 64 bits, `uptime_millis` does not overflow, and its whole
-- seconds are those of `uptime_seconds`.
pub uptime_millis-Agrees :
    (ticks : ℕ)
    → ticks * pit_divisor * 1000 < 2 ^ 64
    → (uptime_millis ticks ≡ some (pos (millis_of ticks)))
      × (uptime_seconds ticks ≡ some (millis_of ticks / 1000))
unfolding uptime_millis
uptime_millis-Agrees ticks h =
    let agree : seconds_of ticks ≡ millis_of ticks / 1000 = omega arith in
    (
      rw (checked-eq_some (ticks * pit_divisor) (omega arith)) (
          rw (checked-eq_some (ticks * pit_divisor * 1000) h)
            (rw (lt→ltb (millis_of ticks) (2 ^ 63) (omega arith)) refl)),
      rw agree at (seconds-eq ticks (omega arith)),
    )
