-- ===== src/Scheduler/Counts.antt =====
-- What the queue and the counts of threads become as tasks are posted and taken (scheduler/scheduler.cpp).
use co_kv.Prelude.{
  ℕ, ◌+◌, ◌≡◌, refl, ◌∙◌, Bool, true, false, Option, none, some, List, [], ◌∷◌, if◌then◌else◌,
  arith, is_some,
}
use co_kv.Prelude.Run.{Run, done, fault, out_of_fuel}
use co_kv.Scheduler.{Task, Sched, add_task, add_task_no_lock, take_task, pick, Pick, tickle_if}
use co_kv.Scheduler.Queue.{
  AllTasks, add_task_no_lock-AllTasks, Picked, nothing, hit, skip, Finds, pick-Picked,
}
use co_kv.Scheduler.Loop.{post}

-- Nothing but tasks is queued, and the counts of threads are as they were.
pub record SameCounts (s s' : Sched) : Type 0 where
  pub tasks : AllTasks s.tasks → AllTasks s'.tasks
  pub active : s'.active_threads ≡ s.active_threads
  pub idle : s'.idle_threads ≡ s.idle_threads

SameCounts-trans : {s s' s'' : Sched} → SameCounts s s' → SameCounts s' s'' → SameCounts s s''
SameCounts-trans p q = record {
  tasks = λ h. q.tasks (p.tasks h);
  active = q.active ∙ p.active;
  idle = q.idle ∙ p.idle;
}

tickle_if-SameCounts : (b : Bool) (s : Sched) → SameCounts s (tickle_if b s)
tickle_if-SameCounts true s = record { tasks = λ h. h; active = refl; idle = refl }
tickle_if-SameCounts false s = record { tasks = λ h. h; active = refl; idle = refl }

add_task-SameCounts : (t : Task) (s : Sched) → SameCounts s (add_task t s)
unfolding add_task
add_task-SameCounts t s =
    SameCounts-trans
      (let r = add_task_no_lock t s.tasks in
        let k : SameCounts s (record s { tasks = r.1 }) = record {
          tasks = λ h. add_task_no_lock-AllTasks t s.tasks h;
          active = refl;
          idle = refl;
        } in
        k)
      (tickle_if-SameCounts _ _)

pub post-SameCounts : (ts : List Task) (s : Sched) → SameCounts s (post ts s)
unfolding post
post-SameCounts [] s = record { tasks = λ h. h; active = refl; idle = refl }
post-SameCounts (t ∷ ts) s =
    SameCounts-trans (add_task-SameCounts t s) (post-SameCounts ts (add_task t s))

abbrev pub taken : Option Task → ℕ
taken none = 0
taken (some t) = 1

-- A task that is taken is counted.
pub record Takes (s : Sched) (o : Option Task) (s' : Sched) : Type 0 where
  pub tasks : AllTasks s'.tasks
  pub active : s'.active_threads ≡ s.active_threads + taken o
  pub idle : s'.idle_threads ≡ s.idle_threads

abbrev pub Taking : Sched → Run Sched (Option Task) → Type 0
Taking s (done o s') = Takes s o s'
Taking s fault = ⊥
Taking s out_of_fuel = ⊥

module _ (is_exec : ℕ → Bool) (thread : ℕ) where
  Picked-AllTasks :
      {ts : List Task} {o : Option Task} {left : List Task}
      → Picked is_exec thread ts o left
      → AllTasks ts
      → AllTasks left
  Picked-AllTasks nothing h = h
  Picked-AllTasks (hit t ts e) h = h.1
  Picked-AllTasks (skip t e p) h = (h.0, Picked-AllTasks p h.1)

  pub take_task-Taking : (s : Sched) → AllTasks s.tasks → Taking s (take_task is_exec thread s)
  unfolding take_task
  take_task-Taking s h =
      by_pick (pick is_exec thread s.tasks) refl (pick-Picked is_exec thread s.tasks h)
    where
      by_pick :
          (r : Run (List Task) Pick)
          → pick is_exec thread s.tasks ≡ r
          → Finds is_exec thread s.tasks r
          → Taking s (take_task is_exec thread s)
      by_pick (done p _) e f =
          rw (e, take_task) (counted p.task p.tickle_me p.left (Picked-AllTasks f h))
        where
          counted :
              (o : Option Task) (b : Bool) (left : List Task)
              → AllTasks left
              → Takes s o (
                  tickle_if b (record s {
                    tasks = left;
                    active_threads = if is_some o then s.active_threads + 1 else s.active_threads;
                  }))
          counted none true left k = record { tasks = k; active = omega arith; idle = refl }
          counted none false left k = record { tasks = k; active = omega arith; idle = refl }
          counted (some t) true left k = record { tasks = k; active = refl; idle = refl }
          counted (some t) false left k = record { tasks = k; active = refl; idle = refl }
      by_pick fault e f = absurd f
      by_pick out_of_fuel e f = absurd f
