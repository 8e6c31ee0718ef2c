-- ===== src/Task/Simple.antt =====
-- The simple executor of src/task/simple_executor.rs, a round robin without wakers. Polling a task is a
-- parameter: it gives the task's new state, and whether it is done.
pub mod Rounds
use crab_os.Prelude.{
  ℕ, zero, suc, Bool, true, false, Option, none, some, List, [], ◌∷◌, ◌++◌, if◌then◌else◌,
}

module _ (Task : Type 0) where
  -- `task_queue`
  abbrev pub new : List Task
  new = []

  unfoldable pub spawn : List Task → Task → List Task
  spawn queue task = queue ++ task ∷ []

  module _ (poll : Task → Task × Bool) where
    -- A round of the loop, for the task that was popped.
    unfoldable pub run_popped : Task → List Task → List Task
    run_popped task rest =
        let (task', ready) = poll task in if ready then rest else rest ++ task' ∷ []

    -- `run`, on fuel: `none` is a loop that has not ended.
    unfoldable pub run : ℕ → List Task → Option (List Task)
    run fuel [] = some []
    run zero (task ∷ rest) = none
    run (suc fuel) (task ∷ rest) = run fuel (run_popped task rest)

    -- So many rounds of the loop, or fewer where the queue runs empty.
    unfoldable pub rounds : ℕ → List Task → List Task
    rounds zero queue = queue
    rounds (suc count) [] = []
    rounds (suc count) (task ∷ rest) = rounds count (run_popped task rest)
