-- ===== src/Task/Tests.antt =====
-- Tasks that count down: one is done at zero, and wakes itself before.
use crab_os.Prelude.{
  ℕ, ◌+◌, ◌<◌, ◌≡◌, refl, ◌⊎◌, true, false, none, some, [], ◌∷◌, length, arith, ◌==◌, if◌then◌else◌,
  ◌-◌, Bool, leb,
}
use crab_os.Task.Simple
use crab_os.Task.Simple.Rounds.{run-ends, rounds-eq, done_within}
use crab_os.Task.Maps.{lookup}
use crab_os.Task.{Executor, Polled, queue_size, run_popped}
use crab_os.Task.Run.{IsValid, Runs, run_popped-cases}

abbrev count_down : ℕ → Polled ℕ
count_down n =
    if n == 0
    then record { task = 0; ready = true; woken = [] }
    else record { task = n - 1; ready = false; woken = 7 ∷ [] }

abbrev executor : Executor ℕ
executor = record { tasks = (7, 2) ∷ []; task_queue = 7 ∷ []; waker_cache = [] }

executor-IsValid : IsValid ℕ executor
executor-IsValid = record { bound = omega arith; cached = λ j m. absurd cc }

run_popped-cases_example :
    ((lookup 7 executor.tasks ≡ none)
      × (run_popped ℕ count_down executor 7 [] ≡ some (record executor { task_queue = [] })))
    ⊎ ((task : ℕ) × (lookup 7 executor.tasks ≡ some task)
        × (((queue_size < length {A = ℕ} [] + length (count_down task).woken)
              × (run_popped ℕ count_down executor 7 [] ≡ none))
            ⊎ Runs ℕ count_down executor 7 [] task (run_popped ℕ count_down executor 7 [])))
run_popped-cases_example = run_popped-cases ℕ count_down executor 7 [] executor-IsValid refl

-- A task of the simple executor that needs so many more polls.
abbrev countdown : ℕ → ℕ × Bool
countdown n = (n - 1, leb n 1)

run-ends_example : Simple.run ℕ countdown 5 (2 ∷ 1 ∷ 2 ∷ []) ≡ some []
unfolding done_within
run-ends_example =
    run-ends ℕ countdown ((2, 2) ∷ (1, 1) ∷ (2, 2) ∷ []) 5 (refl, (refl, (refl, tt))) (omega arith)

rounds-eq_example : Simple.rounds ℕ countdown 3 (2 ∷ 1 ∷ 3 ∷ []) ≡ 1 ∷ 2 ∷ []
rounds-eq_example = rounds-eq ℕ countdown (2 ∷ 1 ∷ 3 ∷ [])
