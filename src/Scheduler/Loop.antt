-- ===== src/Scheduler/Loop.antt =====
-- The loop of `Scheduler::run` (scheduler/scheduler.cpp) on one thread, with the coroutines that it
-- resumes. What callbacks do and the addresses of new coroutines are arguments; the tasks that
-- other threads add between two rounds are those that the queue holds.
use co_kv.Prelude.{
  Bool, false, not, ◌&&◌, ◌||◌, ◌==◌, ℕ, ◌+◌, ◌-◌, Option, none, some, List, [], ◌∷◌, if◌then◌else◌,
}
use co_kv.Prelude.Run.{Run, done, fault, out_of_fuel}
use co_kv.Selfco.{
  Script, ends, yields, Context, entry, inside, behind, outside, hold, exec, Local, Switch, back,
  thread_exit, no_context, is_exec, is_term, is_ready, set_state, set_this, construct, get_this,
  reset, run_script, resuem, destroy, is_behind,
}
use co_kv.Scheduler.{Task, Sched, add_task, take_task, stopping}

-- The scheduler, the thread's coroutines, and the locals `idle_co` and `cb_co` of `run`.
pub record World : Type 0 where
  pub sched : Sched
  pub local : Local Task
  pub idle_co : ℕ
  pub cb_co : Option ℕ

-- How a round ends: by the next round, by the `break`, with the end of the thread, which leaves a scheduler, or
-- not at all.
pub data Round : Type 0 where
  again : World → Round
  leaves : World → Round
  exits : Sched → Round
  lost : Round
  failed : Round

-- The calls of `addTask` by a callback.
unfoldable pub post : List Task → Sched → Sched
post [] s = s
post (t ∷ ts) s = post ts (add_task t s)

abbrev pub co_task : ℕ → Task
co_task c = record { cb = none; selfco = some c; thread_num = none }

abbrev pub less_active : Sched → Sched
less_active s = record s { active_threads = s.active_threads - 1 }

abbrev pub points_to : ℕ → Option ℕ → Bool
points_to c none = false
points_to c (some p) = p == c

-- A task of the queue holds the coroutine.
unfoldable pub queue_holds : ℕ → List Task → Bool
queue_holds c [] = false
queue_holds c (t ∷ ts) = points_to c t.selfco || queue_holds c ts

-- The callback of the coroutine has ended, so that `MainFunc` has let go of it, and neither the queue nor
-- `idle_co` or `cb_co` holds it. The contexts of events hold only coroutines inside their callbacks.
abbrev pub unused_co : ℕ → World → Bool
unused_co c w =
    is_behind (w.local.object c).ctx
    && not (queue_holds c w.sched.tasks || ((w.idle_co == c) || points_to c w.cb_co))

-- `reset()` of a pointer to a coroutine, which destroys it if nothing else holds it. It does not end inside its
-- callback, where `MainFunc` holds it.
unfoldable pub release_co : ℕ → World → World
unfolding destroy
release_co c w = if unused_co c w then record w { local = destroy c w.local } else w

abbrev state_of_task : ℕ → World → World
state_of_task c w =
    if is_ready (w.local.object c).state
    then record w { sched = add_task (co_task c) w.sched }
    else if is_term (w.local.object c).state
    then w
    else record w { local = set_state c hold w.local }

-- Behind `task.selfco->resuem()`, up to `task.reset()`.
abbrev pub settle_task : ℕ → World → World
settle_task c w = release_co c (state_of_task c w)

abbrev state_of_cb : ℕ → World → World
state_of_cb p w =
    if is_ready (w.local.object p).state
    then record w { sched = add_task (co_task p) w.sched; cb_co = none }
    else if is_term (w.local.object p).state
    then record w { local = reset p none w.local; cb_co = some p }
    else record w { local = set_state p hold w.local; cb_co = none }

-- Behind `cb_co->resuem()`.
abbrev pub settle_cb : ℕ → World → World
settle_cb p w = release_co p (state_of_cb p w)

-- Behind `idle_co->resuem()`.
abbrev pub settle_idle : World → World
settle_idle w =
    if is_term (w.local.object w.idle_co).state
    then w
    else record w { local = set_state w.idle_co hold w.local }

-- A switch, and what the loop does when it comes back.
abbrev pub after_switch : Switch Task → World → (Sched → Sched) → (World → World) → Round
after_switch (back ts l) w count settle =
    again (settle (record w { sched = count (post ts w.sched); local = l }))
after_switch thread_exit w count settle = exits w.sched
after_switch no_context w count settle = lost

-- `idle`, from where it stands: `while(!stopping()) yieldtohold();`. What it does behind a `yieldtohold`
-- is decided at the next resumption.
abbrev pub idle_script : Sched → Script Task
idle_script s = if stopping s then ends [] else yields [] (ends [])

abbrev pub go_idle : ℕ → Sched → Context Task → Local Task → Switch Task
go_idle p s entry l = run_script p (idle_script s) l
go_idle p s (inside _) l = run_script p (idle_script s) l
go_idle p s behind l = thread_exit
go_idle p s outside l = no_context

-- `idle_co->resuem()`
unfoldable pub resume_idle : ℕ → Sched → Local Task → Switch Task
unfolding set_this run_script
resume_idle p s l = go_idle p s (l.object p).ctx (set_state p exec (set_this p l))

-- `cb_co` for a callback: the one that is kept, reset, or a new one.
abbrev pub with_cb : ℕ → Option ℕ → ℕ → Local Task → ℕ × Local Task
with_cb fresh none f l = (fresh, construct fresh (some f) 0 l)
with_cb fresh (some p) f l = (p, reset p (some f) l)

-- The last branch, for a round that has taken no task.
unfoldable pub run_idle : World → Round
unfolding resume_idle
run_idle w =
    let s = record w.sched { idle_threads = w.sched.idle_threads + 1 } in
    if is_term (w.local.object w.idle_co).state
    then leaves w
    else after_switch (resume_idle w.idle_co s w.local) (record w { sched = s })
        (λ s. record s { idle_threads = s.idle_threads - 1 }) settle_idle

-- `task.selfco && (task.selfco->getState() != Selfco::TERM)`
abbrev pub live : Option ℕ → Local Task → Option ℕ
live none l = none
live (some c) l = if is_term (l.object c).state then none else some c

abbrev pub next_round : Round → (World → Round) → Round
next_round (again w) f = f w
next_round (leaves w) f = leaves w
next_round (exits s) f = exits s
next_round lost f = lost
next_round failed f = failed

module _ (program : ℕ → Script Task) where
  unfoldable pub run_co : ℕ → World → Round
  unfolding resuem
  run_co c w = after_switch (resuem program c w.local) w less_active (settle_task c)

  unfoldable pub run_in : ℕ × Local Task → World → Round
  unfolding resuem
  run_in (p, l) w =
      after_switch (resuem program p l) (record w { local = l }) less_active (settle_cb p)

  unfoldable pub run_cb : ℕ → ℕ → World → Round
  unfolding run_in construct reset
  run_cb fresh f w = run_in (with_cb fresh w.cb_co f w.local) w

  -- The three branches, for the coroutine that is live and the callback of the task that was taken.
  abbrev pub run_parts : ℕ → Option ℕ → Option ℕ → World → Round
  run_parts fresh (some c) cb w = run_co c w
  run_parts fresh none (some f) w = run_cb fresh f w
  run_parts fresh none none w = again (record w { sched = less_active w.sched })

  abbrev pub run_task : ℕ → Option Task → World → Round
  run_task fresh none w = run_idle w
  run_task fresh (some t) w = run_parts fresh (live t.selfco w.local) t.cb w

  abbrev pub run_taken : ℕ → World → Run Sched (Option Task) → Round
  run_taken fresh w (done task s) = run_task fresh task (record w { sched = s })
  run_taken fresh w fault = failed
  run_taken fresh w out_of_fuel = failed

  -- One round of the loop on the thread, for the address of a new coroutine.
  unfoldable pub run_round : ℕ → ℕ → World → Round
  unfolding take_task run_co run_cb run_idle
  run_round thread fresh w =
      run_taken fresh w (take_task (λ c. is_exec (w.local.object c).state) thread w.sched)

  -- The loop, for the addresses of its rounds.
  unfoldable pub run_rounds : ℕ → List ℕ → World → Round
  unfolding run_round
  run_rounds thread [] w = again w
  run_rounds thread (fresh ∷ rest) w =
      next_round (run_round thread fresh w) (run_rounds thread rest)

-- The part of `run` before its loop, for the addresses of a main coroutine and of `idle_co`. The
-- callback of `idle_co` has no number, since it is run by `resume_idle`.
unfoldable pub run_start : ℕ → ℕ → Sched → Local Task → World
unfolding get_this construct
run_start main idle s l =
    let l' = (get_this main l).1 in
    record { sched = s; local = construct idle none 0 l'; idle_co = idle; cb_co = none }
