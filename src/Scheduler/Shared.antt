-- ===== src/Scheduler/Shared.antt =====
-- The queue of scheduler/scheduler.h between the threads that take tasks from it and those that add some.
use mathlib.Core.List.{Perm, perm_middle}
use mathlib.Core.List.Perm
use co_kv.Prelude.{
  ℕ, ◌+◌, ◌≡◌, refl, sym, ◌∙◌, ap, subst, true, false, Bool, Option, none, some, List, [], ◌∷◌,
  ◌++◌, arith, append_nil, append_assoc, All, All-append, if◌then◌else◌, is_some, Bool-cases, inl,
  inr,
}
use co_kv.Prelude.Run.{Run, done, fault, out_of_fuel}
use co_kv.Scheduler.{
  Task, Sched, Pick, is_task, is_foreign, add_task, add_task_no_lock, add_range, add_tasks, pick,
  take_task, tickle_if,
}
use co_kv.Scheduler.Queue.{AllTasks, Picked, nothing, hit, skip, Finds, pick-Picked}
use co_kv.Scheduler.Taken.{queued, tickle_if-tasks, add_task-queued}

-- The queue, the tasks that have been taken, each with its thread (the last first), and those that have been added.
pub record Shared : Type 0 where
  pub sched : Sched
  pub taken : List (ℕ × Task)
  pub added : List Task

-- One critical section of some thread; which coroutines run meanwhile is as it may be.
pub data Section (s : Shared) : Shared → Type 0 where
  adds :
      (t : Task)
      → Section s (record s { sched = add_task t s.sched; added = s.added ++ queued (t ∷ []) })
  adds_range :
      (ts : List Task)
      → Section s (record s { sched = add_tasks ts s.sched; added = s.added ++ queued ts })
  takes :
      (exec : ℕ → Bool) (thread : ℕ) (t : Task) (q : Sched)
      → take_task exec thread s.sched ≡ done (some t) q
      → Section s (record s { sched = q; taken = (thread, t) ∷ s.taken })
  finds_none :
      (exec : ℕ → Bool) (thread : ℕ) (q : Sched)
      → take_task exec thread s.sched ≡ done none q
      → Section s (record s { sched = q })

pub data Sections (s : Shared) : Shared → Type 0 where
  here : Sections s s
  next : {t u : Shared} → Sections s t → Section t u → Sections s u

abbrev pub tasks_of : List (ℕ × Task) → List Task
tasks_of [] = []
tasks_of ((n, t) ∷ ts) = t ∷ tasks_of ts

-- The task may run on the thread that has taken it.
abbrev pub Own : List (ℕ × Task) → Type 0
Own = All (λ nt. is_foreign nt.0 nt.1.thread_num ≡ false)

-- The tasks that were there and those added are those taken and those left, each once.
pub record Conserves (initial : List Task) (s : Shared) : Type 0 where
  pub same : Perm (tasks_of s.taken ++ s.sched.tasks) (initial ++ s.added)
  pub tasks : AllTasks s.sched.tasks
  pub own : Own s.taken

queued-AllTasks : (ts : List Task) → AllTasks (queued ts)
queued-AllTasks [] = tt
queued-AllTasks (t ∷ ts) = elim (Bool-cases (is_task t)) [
  | inl e ↦ rw e (e, queued-AllTasks ts)
  | inr e ↦ rw e (queued-AllTasks ts)
]

add_range-queued :
    (ts : List Task) (b : Bool) (tasks : List Task) → (add_range ts b tasks).1 ≡ tasks ++ queued ts
unfolding add_range add_task_no_lock
add_range-queued [] b tasks = sym (append_nil tasks)
add_range-queued (t ∷ ts) b tasks = elim (Bool-cases (is_task t)) [
  | inl e ↦
      rw (add_range, e)
        (add_range-queued ts _ (tasks ++ t ∷ []) ∙ append_assoc tasks (t ∷ []) (queued ts))
  | inr e ↦ rw (add_range, e) (add_range-queued ts _ tasks)
]

add_tasks-queued : (ts : List Task) (s : Sched) → (add_tasks ts s).tasks ≡ s.tasks ++ queued ts
unfolding add_tasks
add_tasks-queued ts s =
    tickle_if-tasks _ (record s { tasks = (add_range ts false s.tasks).1 })
    ∙ add_range-queued ts false s.tasks

module _ (exec : ℕ → Bool) (thread : ℕ) where
  Picked-Perm :
      {ts left : List Task} {o : Option Task} (t : Task)
      → Picked exec thread ts o left
      → o ≡ some t
      → Perm (t ∷ left) ts × (is_foreign thread t.thread_num ≡ false)
  Picked-Perm t nothing e = cc
  Picked-Perm t (hit u ts h) e =
      let f : u ≡ t = cc in
      subst (λ x. Perm (x ∷ ts) (u ∷ ts) × (is_foreign thread x.thread_num ≡ false)) f
        (Perm.refl (u ∷ ts), ground (arith, h))
  Picked-Perm t (skip u {ts} {o} {left} h p) e =
      let (perm, own) = Picked-Perm t p e in
      (Perm.trans (Perm.swap u t left) (Perm.cons u perm), own)

  Picked-AllTasks :
      {ts left : List Task} {o : Option Task}
      → Picked exec thread ts o left
      → AllTasks ts
      → AllTasks left
  Picked-AllTasks nothing h = h
  Picked-AllTasks (hit u ts m) h = h.1
  Picked-AllTasks (skip u m p) h = (h.0, Picked-AllTasks p h.1)

  Picked-none :
      {ts left : List Task} {o : Option Task} → Picked exec thread ts o left → o ≡ none → left ≡ ts
  Picked-none nothing e = refl
  Picked-none (hit u ts m) e = cc
  Picked-none (skip u m p) e = ap (λ (xs : List Task). u ∷ xs) (Picked-none p e)

  -- A look for a task comes to its end, with what `pick` finds.
  take_task-Picked :
      (s : Sched)
      → AllTasks s.tasks
      → (o : Option Task) × (q : Sched) × (take_task exec thread s ≡ done o q)
        × Picked exec thread s.tasks o q.tasks
  unfolding take_task
  take_task-Picked s h = by_pick (pick exec thread s.tasks) refl (pick-Picked exec thread s.tasks h)
    where
      by_pick :
          (r : Run (List Task) Pick)
          → pick exec thread s.tasks ≡ r
          → Finds exec thread s.tasks r
          → (o : Option Task) × (q : Sched) × (take_task exec thread s ≡ done o q)
            × Picked exec thread s.tasks o q.tasks
      by_pick (done p l) e f =
          let n = if is_some p.task then s.active_threads + 1 else s.active_threads in
          let q = record s { tasks = p.left; active_threads = n } in
          (
            p.task,
            tickle_if p.tickle_me q,
            rw (take_task, e) refl,
            rw (tickle_if-tasks p.tickle_me q) f,
          )
      by_pick fault e f = absurd f
      by_pick out_of_fuel e f = absurd f

  taken-Picked :
      (s q : Sched) (o : Option Task)
      → AllTasks s.tasks
      → take_task exec thread s ≡ done o q
      → Picked exec thread s.tasks o q.tasks
  taken-Picked s q o h e =
      let (o', q', e', p) = take_task-Picked s h in
      let same_o : o' ≡ o = cc (e, e') in
      let same_q : q' ≡ q = cc (e, e') in
      subst (λ x. Picked exec thread s.tasks x q.tasks) same_o
        (subst (λ x. Picked exec thread s.tasks o' x.tasks) same_q p)

grow-Perm :
    (ts qs rs us xs : List Task)
    → Perm (ts ++ qs) (rs ++ us)
    → Perm (ts ++ (qs ++ xs)) (rs ++ (us ++ xs))
grow-Perm ts qs rs us xs h =
    subst (λ l. Perm l (rs ++ (us ++ xs))) (append_assoc ts qs xs)
      (subst (λ l. Perm ((ts ++ qs) ++ xs) l) (append_assoc rs us xs) (Perm.append_right xs h))

-- Tasks are added behind the others.
added-Conserves :
    (initial : List Task) (s : Shared) (q : Sched) (xs : List Task)
    → Conserves initial s
    → q.tasks ≡ s.sched.tasks ++ queued xs
    → Conserves initial (record s { sched = q; added = s.added ++ queued xs })
added-Conserves initial s q xs c e = record {
  same =
      subst (λ qs. Perm (tasks_of s.taken ++ qs) (initial ++ (s.added ++ queued xs))) (sym e)
        (grow-Perm (tasks_of s.taken) s.sched.tasks initial s.added (queued xs) c.same);
  tasks =
      subst AllTasks (sym e)
        (All-append (λ t. is_task t ≡ true) s.sched.tasks (queued xs) c.tasks (queued-AllTasks xs));
  own = c.own;
}

Section-Conserves :
    (initial : List Task) {s u : Shared} → Section s u → Conserves initial s → Conserves initial u
Section-Conserves initial {s} (adds t) c =
    added-Conserves initial s (add_task t s.sched) (t ∷ []) c (add_task-queued t s.sched)
Section-Conserves initial {s} (adds_range ts) c =
    added-Conserves initial s (add_tasks ts s.sched) ts c (add_tasks-queued ts s.sched)
Section-Conserves initial {s} (takes exec thread t q e) c =
    let picked = taken-Picked exec thread s.sched q (some t) c.tasks e in
    let (perm, own) = Picked-Perm exec thread t picked refl in
    record {
      same =
          Perm.trans (Perm.symm (perm_middle (tasks_of s.taken) q.tasks))
            (Perm.trans (Perm.append_left (tasks_of s.taken) perm) c.same);
      tasks = Picked-AllTasks exec thread picked c.tasks;
      own = (own, c.own);
    }
Section-Conserves initial {s} (finds_none exec thread q e) c =
    let left = Picked-none exec thread (taken-Picked exec thread s.sched q none c.tasks e) refl in
    record {
      same = subst (λ qs. Perm (tasks_of s.taken ++ qs) (initial ++ s.added)) (sym left) c.same;
      tasks = subst AllTasks (sym left) c.tasks;
      own = c.own;
    }

Sections-Conserves :
    (initial : List Task) {s u : Shared} → Conserves initial s → Sections s u → Conserves initial u
Sections-Conserves initial c here = c
Sections-Conserves initial c (next r st) =
    Section-Conserves initial st (Sections-Conserves initial c r)

-- In whatever order threads add tasks and look for some, from a queue of nothing but tasks: the tasks that
-- were there and those added are those taken and those left, each as often, so that none is lost or taken
-- twice; each has been taken by a thread that may run it; and every look comes to its end.
pub Sections-conserve :
    (q : Sched) {s : Shared}
    → AllTasks q.tasks
    → Sections (record { sched = q; taken = []; added = [] }) s
    → Perm (tasks_of s.taken ++ s.sched.tasks) (q.tasks ++ s.added)
      × Own s.taken
      × ((exec : ℕ → Bool) (thread : ℕ)
          → (o : Option Task) × (q' : Sched) × (take_task exec thread s.sched ≡ done o q')
            × Picked exec thread s.sched.tasks o q'.tasks)
Sections-conserve q {s} h steps =
    let c =
      Sections-Conserves q.tasks
        (record {
          same = subst (λ l. Perm q.tasks l) (sym (append_nil q.tasks)) (Perm.refl q.tasks);
          tasks = h;
          own = tt;
        })
        steps in
    (c.same, c.own, λ exec thread. take_task-Picked exec thread s.sched c.tasks)
