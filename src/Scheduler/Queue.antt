-- ===== src/Scheduler/Queue.antt =====
-- The choice of a task by a thread.
use co_kv.Prelude.{
  ℕ, ◌≡◌, refl, Bool, true, false, not, ◌&&◌, Option, none, some, List, [], ◌∷◌, All, All-append,
  Bool-cases, inl, inr,
}
use co_kv.Prelude.Run.{Run, done, fault, out_of_fuel}
use co_kv.Scheduler.{Task, is_task, add_task_no_lock, Pick, pass_run, is_foreign, is_running, pick}

-- Nothing but tasks is queued.
abbrev pub AllTasks : List Task → Type 0
AllTasks ts = All (λ t. is_task t ≡ true) ts

pub add_task_no_lock-AllTasks :
    (t : Task) (ts : List Task) → AllTasks ts → AllTasks (add_task_no_lock t ts).1
unfolding add_task_no_lock
add_task_no_lock-AllTasks t ts h = elim (Bool-cases (is_task t)) [
  | inl e ↦ rw e (All-append (λ t. is_task t ≡ true) ts (t ∷ []) h (e, tt))
  | inr e ↦ rw e h
]

module _ (exec : ℕ → Bool) (thread : ℕ) where
  -- The thread may run the task now.
  abbrev pub may_run : Task → Bool
  may_run t = not (is_foreign thread t.thread_num) && not (is_running exec t.selfco)

  -- The task is the first of the queue that the thread may run, and the others stay in their order.
  pub data Picked : List Task → Option Task → List Task → Type 0 where
    nothing : Picked [] none []
    hit : (t : Task) (ts : List Task) → may_run t ≡ true → Picked (t ∷ ts) (some t) ts
    skip :
        (t : Task) {ts : List Task} {o : Option Task} {left : List Task}
        → may_run t ≡ false
        → Picked ts o left
        → Picked (t ∷ ts) o (t ∷ left)

  abbrev pub Finds : List Task → Run (List Task) Pick → Type 0
  Finds ts (done p s) = Picked ts p.task p.left
  Finds ts fault = ⊥
  Finds ts out_of_fuel = ⊥

  pass_run-Finds :
      (t : Task) (b : Bool) (ts : List Task) (r : Run (List Task) Pick)
      → may_run t ≡ false
      → Finds ts r
      → Finds (t ∷ ts) (pass_run t b r)
  pass_run-Finds t b ts (done p s) e h = skip t e h
  pass_run-Finds t b ts fault e h = h
  pass_run-Finds t b ts out_of_fuel e h = h

  -- A thread that looks through a queue of nothing but tasks fails no assertion, takes the first task that it may
  -- run (one of no other thread, whose coroutine does not run), if there is one, and leaves the others
  -- in their order.
  pub pick-Picked : (ts : List Task) → AllTasks ts → Finds ts (pick exec thread ts)
  unfolding pick
  pick-Picked [] h = nothing
  pick-Picked (t ∷ ts) h = elim (Bool-cases (is_foreign thread t.thread_num)) [
    | inl e ↦ rw e (pass_run-Finds t true ts (pick exec thread ts) (rw e refl) (pick-Picked ts h.1))
    | inr e ↦ elim (Bool-cases (is_running exec t.selfco)) [
      | inl e' ↦
          rw (e, h.0, e')
            (pass_run-Finds t false ts (pick exec thread ts) (rw (e, e') refl) (pick-Picked ts h.1))
      | inr e' ↦ rw (e, h.0, e') (hit t ts (rw (e, e') refl))
    ]
  ]
