-- ===== src/Task/Simple/Rounds.antt =====
-- The loop of `run` ends, and takes the tasks in turn.
use mathlib.Core.List.{append-nil, append_assoc}
use crab_os.Prelude.{
  ℕ, zero, suc, ◌+◌, ◌≤◌, ◌≡◌, refl, ap, ◌∙◌, sym, Bool, true, false, some, List, [], ◌∷◌, ◌++◌,
  length, if◌then◌else◌, arith, map, All, Bool-cases, inl, inr,
}
use crab_os.Task.Simple.{run_popped, run, rounds}

module _ (Task : Type 0) (poll : Task → Task × Bool) where
  -- The task is done at one of its next polls.
  unfoldable pub done_within : ℕ → Task → Bool
  done_within zero task = false
  done_within (suc polls) task =
      let (task', ready) = poll task in
      let later = done_within polls task' in if ready then true else later

  abbrev pub polls_of : List (ℕ × Task) → ℕ
  polls_of [] = 0
  polls_of (p ∷ ps) = p.0 + polls_of ps

  abbrev pub tasks_of : List (ℕ × Task) → List Task
  tasks_of ps = map (λ p. p.1) ps

  abbrev pub Done : ℕ × Task → Type 0
  Done p = done_within p.0 p.1 ≡ true

  polls-append : (ps qs : List (ℕ × Task)) → polls_of (ps ++ qs) ≡ polls_of ps + polls_of qs
  polls-append [] qs = omega arith
  polls-append (p ∷ ps) qs = let e = polls-append ps qs in omega arith

  tasks-append : (ps qs : List (ℕ × Task)) → tasks_of (ps ++ qs) ≡ tasks_of ps ++ tasks_of qs
  tasks-append [] qs = refl
  tasks-append (p ∷ ps) qs = ap (p.1 ∷◌) (tasks-append ps qs)

  All-append : (ps qs : List (ℕ × Task)) → All Done ps → All Done qs → All Done (ps ++ qs)
  All-append [] qs h k = k
  All-append (p ∷ ps) qs h k = (h.0, All-append ps qs h.1 k)

  popped_done :
      (task : Task) (rest : List Task)
      → (poll task).1 ≡ true
      → run_popped Task poll task rest ≡ rest
  unfolding run_popped
  popped_done task rest e = rw e refl

  popped_pending :
      (task : Task) (rest : List Task)
      → (poll task).1 ≡ false
      → run_popped Task poll task rest ≡ rest ++ (poll task).0 ∷ []
  unfolding run_popped
  popped_pending task rest e = rw e refl

  never_done : (task : Task) → done_within 0 task ≡ false
  unfolding done_within
  never_done task = refl

  later_done :
      (polls : ℕ) (task : Task)
      → (poll task).1 ≡ false
      → done_within (suc polls) task ≡ true
      → done_within polls (poll task).0 ≡ true
  unfolding done_within
  later_done polls task e h = rw e at h

  -- For tasks each of which is done after some number of polls, that many rounds in all are enough:
  -- `run` ends, with an empty queue.
  pub run-ends :
      (ps : List (ℕ × Task)) (fuel : ℕ)
      → All Done ps
      → polls_of ps ≤ fuel
      → run Task poll fuel (tasks_of ps) ≡ some []
  unfolding run
  run-ends [] zero h k = refl
  run-ends [] (suc fuel) h k = refl
  run-ends ((zero, task) ∷ ps) fuel h k = absurd (let e = h.0 in let f = never_done task in cc)
  run-ends ((suc n, task) ∷ ps) zero h k = absurd (omega arith)
  run-ends ((suc n, task) ∷ ps) (suc fuel) h k = elim (Bool-cases (poll task).1) [
    | inl e ↦
        ap (run Task poll fuel) (popped_done task (tasks_of ps) e)
        ∙ run-ends ps fuel h.1 (omega arith)
    | inr e ↦
        let last : List (ℕ × Task) = (n, (poll task).0) ∷ [] in
        let count = polls-append ps last in
        ap (run Task poll fuel) (popped_pending task (tasks_of ps) e ∙ sym (tasks-append ps last))
        ∙ run-ends (ps ++ last) fuel (All-append ps last h.1 (later_done n task e h.0, tt))
            (omega arith)
  ]

  -- The tasks of a queue, each polled once, without those that are done.
  abbrev pub polled_once : List Task → List Task
  polled_once [] = []
  polled_once (task ∷ rest) =
      let later = polled_once rest in if (poll task).1 then later else (poll task).0 ∷ later

  rounds-append :
      (xs ys : List Task) → rounds Task poll (length xs) (xs ++ ys) ≡ ys ++ polled_once xs
  unfolding rounds
  rounds-append [] ys = sym (append-nil ys)
  rounds-append (x ∷ xs) ys = elim (Bool-cases (poll x).1) [
    | inl e ↦
        rw e (ap (rounds Task poll (length xs)) (popped_done x (xs ++ ys) e) ∙ rounds-append xs ys)
    | inr e ↦
        let x' = (poll x).0 in
        rw e (
          ap (rounds Task poll (length xs))
            (popped_pending x (xs ++ ys) e ∙ append_assoc xs ys (x' ∷ []))
          ∙ rounds-append xs (ys ++ x' ∷ [])
          ∙ append_assoc ys (x' ∷ []) (polled_once xs))
  ]

  -- As many rounds as there are tasks in the queue poll each of them once, in order: those that are not
  -- done are in the queue again, with their new states and in the same order.
  pub rounds-eq : (queue : List Task) → rounds Task poll (length queue) queue ≡ polled_once queue
  rounds-eq queue =
      ap (rounds Task poll (length queue)) (sym (append-nil queue)) ∙ rounds-append queue []
