-- ===== src/Task/Run.antt =====
-- A round of the executor: the task is polled, and the rest of the tasks are as they were.
use mathlib.Core.List.{append-nil, append_assoc}
use crab_os.Prelude.{
  ℕ, ◌+◌, ◌≤◌, ◌<◌, ◌≡◌, ◌≢◌, refl, sym, ◌∙◌, ap, ◌⊎◌, inl, inr, true, false, Bool-cases, Option,
  Option-cases, none, some, List, [], ◌∷◌, ◌++◌, length, length-append, ltb, ◌==◌, ==_iff, arith,
}
use crab_os.Task.Maps.{
  lookup, put, remove, member, remove_id, add_id, lookup-put_self, lookup-put_ne,
  lookup-remove_self, lookup-remove_ne, member-remove_id, member-add_id,
}
use crab_os.Task.{Executor, Polled, queue_size, push, wake_all, settle, run_popped}

module _ (Task : Type 0) where
  -- The queue keeps its bound, and every waker in the cache is of a task that is there.
  pub record IsValid (e : Executor Task) : Type 0 where
    pub bound : length e.task_queue ≤ queue_size
    pub cached : (j : ℕ) → member j e.waker_cache ≡ true → (t : Task) × (lookup j e.tasks ≡ some t)

  -- Waking puts the ids behind the queue, in order, or panics where there is no room.
  wake_all-cases :
      (e : Executor Task) (woken : List ℕ)
      → ((wake_all Task e woken ≡ some (record e { task_queue = e.task_queue ++ woken }))
          × (length woken ≡ 0 ⊎ (length e.task_queue + length woken ≤ queue_size)))
        ⊎ ((wake_all Task e woken ≡ none) × (queue_size < length e.task_queue + length woken))
  unfolding wake_all push
  wake_all-cases e [] = inl (
    ap (λ (q : List ℕ). some (record e { task_queue = q })) (sym (append-nil e.task_queue)),
    inl refl,
  )
  wake_all-cases e (id ∷ woken) = elim (Bool-cases (ltb (length e.task_queue) queue_size)) [
    | inr f ↦ inr (rw f refl, ground arith)
    | inl t ↦
        let longer = length-append e.task_queue (id ∷ []) in
        elim (wake_all-cases (record e { task_queue = e.task_queue ++ id ∷ [] }) woken) [
          | inl (r, b) ↦ inl (
            rw t (
                r
                ∙ ap (λ (q : List ℕ). some (record e { task_queue = q }))
                    (append_assoc e.task_queue (id ∷ []) woken)),
            inr (ground arith),
          )
          | inr (r, b) ↦ inr (rw t r, omega arith)
        ]
  ]

  module _ (poll : Task → Polled Task) where
    -- A round for an id that was popped, with the rest of the queue.
    pub record Runs (e : Executor Task) (id : ℕ) (rest : List ℕ) (task : Task)
        (result : Option (Executor Task)) : Type 0 where
      pub after : Executor Task
      pub returns : result ≡ some after
      pub queue : after.task_queue ≡ rest ++ (poll task).woken
      pub done : (poll task).ready ≡ true → lookup id after.tasks ≡ none
      pub pending : (poll task).ready ≡ false → lookup id after.tasks ≡ some (poll task).task
      pub others : (j : ℕ) → j ≢ id → lookup j after.tasks ≡ lookup j e.tasks
      pub valid : IsValid after

    settle-Runs :
        (e : Executor Task) (id : ℕ) (rest : List ℕ) (task : Task)
        → IsValid e
        → lookup id e.tasks ≡ some task
        → length (rest ++ (poll task).woken) ≤ queue_size
        → Runs e id rest task (
            some (
              settle Task poll id (poll task) (record e {
                task_queue = rest ++ (poll task).woken;
                waker_cache = add_id id e.waker_cache;
              })))
    settle-Runs e id rest task v here fits = elim (Bool-cases (poll task).ready) [
      | inl t ↦ record {
        after = record e {
          tasks = remove id e.tasks;
          task_queue = rest ++ (poll task).woken;
          waker_cache = remove_id id (add_id id e.waker_cache);
        };
        returns = rw t refl;
        queue = refl;
        done = λ _. lookup-remove_self id e.tasks;
        pending = λ f. absurd (let q : true ≡ false = sym t ∙ f in cc);
        others = λ j n. lookup-remove_ne id j e.tasks n;
        valid = record {
          bound = fits;
          cached = λ j m.
              let (m', n) = member-remove_id id j (add_id id e.waker_cache) m in
              let (task', l) = v.cached j (member-add_id id j e.waker_cache m' n) in
              (task', lookup-remove_ne id j e.tasks n ∙ l);
        };
      }
      | inr f ↦ record {
        after = record e {
          tasks = put id (poll task).task e.tasks;
          task_queue = rest ++ (poll task).woken;
          waker_cache = add_id id e.waker_cache;
        };
        returns = rw f refl;
        queue = refl;
        done = λ t. absurd (let q : true ≡ false = sym t ∙ f in cc);
        pending = λ _. lookup-put_self id (poll task).task e.tasks;
        others = λ j n. lookup-put_ne id j (poll task).task e.tasks n;
        valid = record {
          bound = fits;
          cached = λ j m. elim (Bool-cases (j == id)) [
            | inl s ↦
                rw ((==_iff j id).0 s)
                  ((poll task).task, lookup-put_self id (poll task).task e.tasks)
            | inr s ↦
                let n : j ≢ id = λ q. absurd (ground arith) in
                let (task', l) = v.cached j (member-add_id id j e.waker_cache m n) in
                (task', lookup-put_ne id j (poll task).task e.tasks n ∙ l)
          ];
        };
      }
    ]

    -- A round of a valid executor, for the id at the front of the queue. An id without a task is
    -- dropped. Otherwise the task is polled: the tasks that it wakes are put behind the queue, it stays
    -- with its new state, or goes with its waker if it is done, all other tasks are as they were, and
    -- the executor stays valid. It panics exactly where the queue has no room for the woken ones.
    pub run_popped-cases :
        (e : Executor Task) (id : ℕ) (rest : List ℕ)
        → IsValid e
        → e.task_queue ≡ id ∷ rest
        → ((lookup id e.tasks ≡ none)
            × (run_popped Task poll e id rest ≡ some (record e { task_queue = rest })))
          ⊎ ((task : Task) × (lookup id e.tasks ≡ some task)
              × (((queue_size < length rest + length (poll task).woken)
                    × (run_popped Task poll e id rest ≡ none))
                  ⊎ Runs e id rest task (run_popped Task poll e id rest)))
    unfolding run_popped
    run_popped-cases e id rest v front = elim (Option-cases (lookup id e.tasks)) [
      | inl n ↦ inl (n, rw n refl)
      | inr (task, here) ↦
          let woken = (poll task).woken in
          let polled : Executor Task = record e {
            task_queue = rest;
            waker_cache = add_id id e.waker_cache;
          } in
          let shorter : length rest ≤ queue_size =
            let b = v.bound in let l = ap (λ (q : List ℕ). length q) front in omega arith in
          let sum = length-append rest woken in
          inr (
            task,
            here,
            elim (wake_all-cases polled woken) [
              | inl (r, b) ↦
                  inr (rw here (rw r (settle-Runs e id rest task v here (fits b shorter sum))))
              | inr (r, b) ↦ inl (b, rw here (rw r refl))
            ],
          )
    ]
      where
        fits :
            {n k m : ℕ}
            → (k ≡ 0) ⊎ (n + k ≤ queue_size)
            → n ≤ queue_size
            → m ≡ n + k
            → m ≤ queue_size
        fits (inl z) s q = omega arith
        fits (inr z) s q = omega arith
