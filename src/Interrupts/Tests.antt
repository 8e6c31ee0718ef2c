-- ===== src/Interrupts/Tests.antt =====
-- The clock after a day's ticks.
use crab_os.Prelude.{◌/◌, ◌≡◌, refl, some, arith, pos}
use crab_os.Interrupts.{uptime_seconds, uptime_millis}
use crab_os.Interrupts.Clock.{Runs, millis_of, uptime_seconds-Runs, uptime_millis-Agrees}

a_day : uptime_seconds 8640000 ≡ some 86401
unfolding uptime_seconds
a_day = refl

uptime_seconds-Runs_example : Runs 8640000
uptime_seconds-Runs_example = uptime_seconds-Runs 8640000 (omega arith)

uptime_millis-Agrees_example :
    (uptime_millis 8640000 ≡ some (pos (millis_of 8640000)))
    × (uptime_seconds 8640000 ≡ some (millis_of 8640000 / 1000))
uptime_millis-Agrees_example = uptime_millis-Agrees 8640000 (omega arith)
