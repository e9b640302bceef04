-- ===== src/Scheduler.antt =====
-- scheduler/scheduler.h and scheduler/scheduler.cpp: the queue of tasks and its users. Whether a
-- coroutine runs at the moment, and the number of the calling thread, are arguments. The lock is left
-- out: each operation is one step.
pub mod Queue
pub mod Loop
pub mod Counts
pub mod Rounds
pub mod Stop
pub mod Stopped
pub mod Control
pub mod Taken
pub mod Fifo
pub mod Shared
use co_kv.Prelude.{
  ℕ, zero, suc, ◌+◌, ◌-◌, Bool, true, false, not, ◌&&◌, ◌||◌, Option, none, some, List, [], ◌∷◌,
  ◌++◌, ◌==◌, if◌then◌else◌, is_some,
}
use co_kv.Prelude.Run.{Run, done, fault, out_of_fuel, Cmd, bind_run}

-- Functions and coroutines are known by numbers; a thread number `none` is -1.
pub record Task : Type 0 where
  pub cb : Option ℕ
  pub selfco : Option ℕ
  pub thread_num : Option ℕ

-- The queue and the members that the operations use, with how often `tickle` has been called. The
-- threads of the pool are their numbers.
pub record Sched : Type 0 where
  pub tasks : List Task
  pub threadpoll : List ℕ
  pub thread_ids : List ℕ
  pub thread_count : ℕ
  pub stopping_flag : Bool
  pub autostop : Bool
  pub active_threads : ℕ
  pub idle_threads : ℕ
  pub tickles : ℕ

abbrev pub is_empty : List Task → Bool
is_empty [] = true
is_empty (_ ∷ _) = false

-- `task.selfco || task.cb`
abbrev pub is_task : Task → Bool
is_task t = is_some t.selfco || is_some t.cb

-- `addTaskNoLock`, with its result `need_tickle`.
unfoldable pub add_task_no_lock : Task → List Task → Bool × List Task
add_task_no_lock t tasks = (is_empty tasks, if is_task t then tasks ++ t ∷ [] else tasks)

abbrev pub tickle_if : Bool → Sched → Sched
tickle_if b s = if b then record s { tickles = s.tickles + 1 } else s

-- `addTask(T fc, int thread_num)`
unfoldable pub add_task : Task → Sched → Sched
unfolding add_task_no_lock
add_task t s =
    let (need_tickle, tasks) = add_task_no_lock t s.tasks in
    tickle_if need_tickle (record s { tasks = tasks })

-- The loop of `addTask(T begin, T end)` over the tasks of a range.
unfoldable pub add_range : List Task → Bool → List Task → Bool × List Task
add_range [] need_tickle tasks = (need_tickle, tasks)
add_range (t ∷ ts) need_tickle tasks =
    let (b, tasks') = add_task_no_lock t tasks in add_range ts (b || need_tickle) tasks'

-- `addTask(T begin, T end)`
unfoldable pub add_tasks : List Task → Sched → Sched
add_tasks ts s =
    let (need_tickle, tasks) = add_range ts false s.tasks in
    tickle_if need_tickle (record s { tasks = tasks })

-- What the loop of `run` over the queue ends with: the task taken, the queue, and `tickle_me`.
pub record Pick : Type 0 where
  pub task : Option Task
  pub left : List Task
  pub tickle_me : Bool

abbrev pub pass : Task → Bool → Pick → Pick
pass t b p = record p { left = t ∷ p.left; tickle_me = b || p.tickle_me }

-- `it->thread_num != -1 && it->thread_num != getThreadId()`
abbrev pub is_foreign : ℕ → Option ℕ → Bool
is_foreign thread none = false
is_foreign thread (some n) = not (n == thread)

-- `it->selfco && it->selfco->getState() == Selfco::EXEC`
abbrev pub is_running : (ℕ → Bool) → Option ℕ → Bool
is_running exec none = false
is_running exec (some c) = exec c

abbrev pub pass_run : Task → Bool → Run (List Task) Pick → Run (List Task) Pick
pass_run t b r = bind_run r λ p s. done (pass t b p) s

-- The loop of `run` that looks for a task for the thread; a task that is neither fails the assertion.
-- `tickle_me |= (it != m_tasks.end())` stands where a task is taken: the iterator has moved on.
unfoldable pub pick : (ℕ → Bool) → ℕ → List Task → Run (List Task) Pick
pick exec thread [] = done (record { task = none; left = []; tickle_me = false }) []
pick exec thread (t ∷ ts) =
    let rest = pick exec thread ts in
    if is_foreign thread t.thread_num
    then pass_run t true rest
    else if not (is_task t)
    then fault
    else if is_running exec t.selfco
    then pass_run t false rest
    else done (record { task = some t; left = ts; tickle_me = not (is_empty ts) }) ts

-- The part of a round of `run` before the task is run.
unfoldable pub take_task : (ℕ → Bool) → ℕ → Cmd Sched (Option Task)
take_task exec thread s = elim (pick exec thread s.tasks) [
  | fault ↦ fault
  | out_of_fuel ↦ fault
  | done p _ ↦
      let n = if is_some p.task then s.active_threads + 1 else s.active_threads in
      done p.task (tickle_if p.tickle_me (record s { tasks = p.left; active_threads = n }))
]

-- `stopping`
unfoldable pub stopping : Sched → Bool
stopping s = s.autostop && s.stopping_flag && is_empty s.tasks && (s.active_threads == 0)

-- `start`, for the numbers of the threads that are made; a pool that is not empty fails the assertion.
unfoldable pub start : List ℕ → Cmd Sched (Unit {0})
start made s =
    let s' = record s {
      stopping_flag = false;
      threadpoll = made;
      thread_ids = s.thread_ids ++ made;
    } in
    if not s.stopping_flag then done tt s else elim s.threadpoll [ [] ↦ done tt s' | _ ∷ _ ↦ fault ]
