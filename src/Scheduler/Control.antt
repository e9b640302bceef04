-- ===== src/Scheduler/Control.antt =====
-- The constructor, the destructor and `stop` of class Scheduler (scheduler/scheduler.cpp). Whether
-- `GetThis() == this`, the number of the calling thread, and what a thread does until it ends, are arguments.
use co_kv.Prelude.{
  ℕ, zero, suc, ◌+◌, ◌-◌, Bool, true, false, not, ◌&&◌, Option, none, some, List, [], ◌∷◌, ◌++◌,
  ◌==◌, if◌then◌else◌, is_some,
}
use co_kv.Prelude.Run.{Run, done, fault, out_of_fuel, Cmd, require}
use co_kv.Selfco.{CoState, init, exec, term}
use co_kv.Scheduler.{Sched, stopping}

-- The scheduler with the state of `m_schedulerco` (none if it is null), `m_rootthread` (none for -1),
-- whether `m_schedulerco` has been resumed, and the threads that have been joined.
pub record Owner : Type 0 where
  pub sched : Sched
  pub scheduler_co : Option CoState
  pub root_thread : Option ℕ
  pub resumed : Bool
  pub joined : List ℕ

abbrev pub new_sched : List ℕ → ℕ → Sched
new_sched ids count = record {
  tasks = [];
  threadpoll = [];
  thread_ids = ids;
  thread_count = count;
  stopping_flag = true;
  autostop = false;
  active_threads = 0;
  idle_threads = 0;
  tickles = 0;
}

-- `Scheduler(threadcount, use_caller)`, for at least one thread where the caller is used.
unfoldable pub construct : ℕ → ℕ → Bool → Owner
construct caller threadcount true = record {
  sched = new_sched (caller ∷ []) (threadcount - 1);
  scheduler_co = some init;
  root_thread = some caller;
  resumed = false;
  joined = [];
}
construct caller threadcount false = record {
  sched = new_sched [] threadcount;
  scheduler_co = none;
  root_thread = none;
  resumed = false;
  joined = [];
}

-- The assertion of `~Scheduler`.
unfoldable pub destroy : Cmd Owner (Unit {0})
destroy s = require s.sched.stopping_flag s

abbrev pub is_idle_state : CoState → Bool
is_idle_state term = true
is_idle_state init = true
is_idle_state _ = false

abbrev pub rests : Option CoState → Bool
rests none = false
rests (some st) = is_idle_state st

-- The `for` loop over `tickle()`.
unfoldable pub tickle_times : ℕ → Sched → Sched
tickle_times zero s = s
tickle_times (suc n) s = tickle_times n (record s { tickles = s.tickles + 1 })

-- `m_schedulerco->resuem()`, called from the thread on which `sched_co` is `m_schedulerco`: the switch saves to the
-- context that it goes on with, and so comes straight back.
unfoldable pub resume_self : Owner → Owner
resume_self s = elim s.scheduler_co [
  | none ↦ s
  | some _ ↦ record s { scheduler_co = some exec; resumed = true }
]

-- What a thread makes of the scheduler until it ends; `none` is a thread that does not end.
abbrev pub Joins : Type 0
Joins = ℕ → Sched → Option Sched

abbrev pub after_join : ℕ → Owner → Cmd Owner (Unit {0}) → Option Sched → Run Owner (Unit {0})
after_join t s k none = out_of_fuel
after_join t s k (some m) = k (record s { sched = m; joined = s.joined ++ t ∷ [] })

-- The `join`s of the threads, one after the other: `out_of_fuel` where one waits for ever.
unfoldable pub join_all : Joins → List ℕ → Cmd Owner (Unit {0})
join_all join [] s = done tt s
join_all join (t ∷ ts) s = after_join t s (join_all join ts) (join t s.sched)

-- `stop` behind its assertions.
unfoldable pub halt : Joins → Cmd Owner (Unit {0})
unfolding tickle_times resume_self join_all
halt join s =
    let m = record s.sched { autostop = true; stopping_flag = true } in
    let m' =
      tickle_times (if is_some s.scheduler_co then 1 else 0) (tickle_times m.thread_count m) in
    let s' = resume_self (record s { sched = m' }) in
    join_all join m'.threadpoll (record s' { sched = record m' { threadpoll = [] } })

unfoldable pub stop : Joins → Bool → Cmd Owner (Unit {0})
unfolding halt
stop join is_this s =
    let s' = record s { sched = record s.sched { autostop = true } } in
    if rests s.scheduler_co && (s.sched.thread_count == 0) && stopping s'.sched
    then done tt s'
    else if (if is_some s.root_thread then is_this else not is_this)
    then halt join s'
    else fault
