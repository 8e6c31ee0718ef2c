-- ===== src/Task.antt =====
-- The executor of src/task/executor.rs. Polling a task is a parameter: it gives the task's new state,
-- whether it is done, and the tasks that it wakes. `none` is a panic.
pub mod Maps
pub mod Run
pub mod Simple
mod Tests
use crab_os.Prelude.{
  ℕ, zero, suc, Bool, true, false, Option, none, some, List, [], ◌∷◌, ◌++◌, length, ltb, ◌==◌,
  if◌then◌else◌, ◌>>=◌,
}
use crab_os.Task.Maps.{lookup, put, remove, member, remove_id, add_id}

abbrev pub queue_size : ℕ
queue_size = 100

-- The task map, the ready queue, and the ids that have a waker in the cache.
pub record Executor (Task : Type 0) : Type 0 where
  pub tasks : List (ℕ × Task)
  pub task_queue : List ℕ
  pub waker_cache : List ℕ

pub record Polled (Task : Type 0) : Type 0 where
  pub task : Task
  pub ready : Bool
  pub woken : List ℕ

module _ (Task : Type 0) where
  abbrev pub new : Executor Task
  new = record { tasks = []; task_queue = []; waker_cache = [] }

  -- `ArrayQueue::push` with its `expect`.
  unfoldable pub push : Executor Task → ℕ → Option (Executor Task)
  push e id =
      if ltb (length e.task_queue) queue_size
      then some (record e { task_queue = e.task_queue ++ id ∷ [] })
      else none

  abbrev pub spawn_new : Executor Task → ℕ → Task → Option Task → Option (Executor Task)
  spawn_new e id task (some old) = none
  spawn_new e id task none = push (record e { tasks = put id task e.tasks }) id

  unfoldable pub spawn : Executor Task → ℕ → Task → Option (Executor Task)
  spawn e id task = spawn_new e id task (lookup id e.tasks)

  -- The wakers that a poll calls, each with `wake_task`.
  unfoldable pub wake_all : Executor Task → List ℕ → Option (Executor Task)
  wake_all e [] = some e
  wake_all e (id ∷ woken) = push e id >>= λ e'. wake_all e' woken

  module _ (poll : Task → Polled Task) where
    -- A task that is done goes with its waker.
    abbrev pub settle : ℕ → Polled Task → Executor Task → Executor Task
    settle id p e =
        if p.ready
        then record e { tasks = remove id e.tasks; waker_cache = remove_id id e.waker_cache }
        else record e { tasks = put id p.task e.tasks }

    abbrev pub run_task : Executor Task → ℕ → Option Task → Option (Executor Task)
    run_task e id none = some e
    run_task e id (some task) =
        wake_all (record e { waker_cache = add_id id e.waker_cache }) (poll task).woken >>= λ e'.
        some (settle id (poll task) e')

    -- A round of `run_ready_tasks`, for the id that was popped.
    unfoldable pub run_popped : Executor Task → ℕ → List ℕ → Option (Executor Task)
    run_popped e id rest = run_task (record e { task_queue = rest }) id (lookup id e.tasks)

    -- So many rounds, or fewer where the queue runs empty.
    unfoldable pub run_ready_tasks : ℕ → Executor Task → Option (Executor Task)
    run_ready_tasks zero e = some e
    run_ready_tasks (suc rounds) e = elim e.task_queue [
      | [] ↦ some e
      | id ∷ rest ↦ run_popped e id rest >>= run_ready_tasks rounds
    ]
