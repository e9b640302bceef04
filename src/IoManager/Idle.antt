-- ===== src/IoManager/Idle.antt =====
-- The loop of `IOManager::idle`, with the constructor, the destructor, `stopping` and `tickle`
-- (iomananger/iomanager.cpp): what a Scheduler, a TimerManager and the contexts of descriptors do together.
-- What `epoll_wait` returns, the current time, and the address of the timer made for a search are
-- arguments. Which of the two members of `event.data` was set is taken as known.
use co_kv.Prelude.{
  ℕ, ◌+◌, ◌-◌, ◌^◌, ◌%◌, Bool, true, false, not, ◌&&◌, Option, none, some, List, [], ◌∷◌, ◌==◌, ltb,
  is_some, if◌then◌else◌, ℤ, pos, negsuc,
}
use co_kv.Prelude.Run.{Run, done, fault, out_of_fuel, bind_run}
use co_kv.Scheduler.{Task, Sched, add_tasks, stopping, start}
use co_kv.Scheduler.Control.{Owner, Joins, construct, halt, rests, destroy}
use co_kv.Timer.{Manager, get_next_timer, list_expired_cb}
use co_kv.IoManager.{Events, Io, context_resize, handle_ready}

-- The parts of an IOManager, and how often it has written to `m_eventfd`.
pub record Poller : Type 0 where
  pub owner : Owner
  pub timers : Manager
  pub io : Io
  pub written : ℕ
  pub closed : ℕ

-- An event that `epoll_wait` returns: that of `m_eventfd`, or one of a descriptor, with the bits
-- EPOLLIN and EPOLLOUT, and whether EPOLLERR or EPOLLHUP is set.
pub data Ready : Type 0 where
  woken : Ready
  ready : ℕ → Events → Bool → Ready

-- How often so many calls of `tickle` write to `m_eventfd`; `hasIdlethreads()` is
-- `m_idlethreadcount > 0`.
abbrev pub writes : Poller → ℕ → ℕ
writes p calls = if p.owner.sched.idle_threads == 0 then 0 else calls

-- `tickle`, and `onTimerInsertedAtFront`, which calls it.
unfoldable pub tickle : Poller → Poller
tickle p = record p { written = p.written + writes p 1 }

-- What the scheduler or the timers become, with what their calls of `tickle` write.
abbrev pub with_owner : Owner → Poller → Poller
with_owner o p = record p {
  owner = o;
  written = p.written + writes p (o.sched.tickles - p.owner.sched.tickles);
}

abbrev pub with_sched : Sched → Poller → Poller
with_sched s p = with_owner (record p.owner { sched = s }) p

abbrev pub with_timers : Manager → Poller → Poller
with_timers m p = record p {
  timers = m;
  written = p.written + writes p (m.notified - p.timers.notified);
}

-- `stopping`
unfoldable pub is_stopping : Poller → Bool
is_stopping p = stopping p.owner.sched && (p.io.pending_event_count == 0)

-- `~0ull`
abbrev pub never : ℕ
never = 2 ^ 64 - 1

-- `(int) n` of a uint64_t
unfoldable pub as_int : ℕ → ℤ
as_int n = let k = n % 2 ^ 32 in if ltb k (2 ^ 31) then pos k else negsuc (2 ^ 32 - 1 - k)

abbrev pub exceeds : ℤ → ℕ → Bool
exceeds (pos k) bound = ltb bound k
exceeds (negsuc k) bound = false

-- `next_timeout` cut at MAX_TIMEOUT.
unfoldable pub clamp : ℕ → ℕ
unfolding as_int
clamp n = if n == never then 5000 else if exceeds (as_int n) 5000 then 5000 else n

-- The loop over `epoll_wait`: each time the timeout is cut and handed over; `none` is a failure. The
-- result has the timeouts and the events.
unfoldable pub wait_ready : ℕ → List (Option (List Ready)) → Run Unit (List ℤ × List Ready)
unfolding clamp as_int
wait_ready timeout [] = out_of_fuel
wait_ready timeout (some events ∷ rest) = done (as_int (clamp timeout) ∷ [], events) tt
wait_ready timeout (none ∷ rest) =
    bind_run (wait_ready (clamp timeout) rest) λ r _. done (as_int (clamp timeout) ∷ r.0, r.1) tt

-- The callbacks as tasks.
abbrev pub cb_task : Option ℕ → Task
cb_task cb = record { cb = cb; selfco = none; thread_num = none }

abbrev pub cb_tasks : List (Option ℕ) → List Task
cb_tasks [] = []
cb_tasks (cb ∷ cbs) = cb_task cb ∷ cb_tasks cbs

-- `listExpiredCb(cbs); if(!cbs.empty()) addTask(cbs.begin(),cbs.end());`
unfoldable pub move_expired : ℕ → ℕ → Poller → Poller
unfolding list_expired_cb add_tasks
move_expired now probe p =
    let (cbs, timers) = list_expired_cb now probe p.timers in
    let p' = with_timers timers p in
    elim cbs [
      | [] ↦ p'
      | cb ∷ rest ↦ with_sched (add_tasks (cb_tasks (cb ∷ rest)) p.owner.sched) p'
    ]

-- The loop over the events.
unfoldable pub handle_all : List Ready → Io → Run Io (Unit {0})
unfolding handle_ready
handle_all [] m = done tt m
handle_all (woken ∷ rest) m = handle_all rest m
handle_all (ready fd events failed ∷ rest) m =
    bind_run (handle_ready fd events failed m) λ _ m'. handle_all rest m'

-- `next_timeout` before the wait; `none` is the `break`.
unfoldable pub next_timeout : ℕ → Poller → Option ℕ
unfolding is_stopping get_next_timer
next_timeout now p =
    let n = get_next_timer now p.timers in
    if is_stopping p then (if n == never then none else some n) else some 0

-- A round of the loop up to its `yieldtohold`, for the times of `getNextTimer` and of `listExpiredCb`.
-- The result says whether it goes on, and with which timeouts it has waited.
unfoldable pub idle_round :
    ℕ → ℕ → ℕ → List (Option (List Ready)) → Poller → Run Poller (Option (List ℤ))
unfolding next_timeout wait_ready move_expired handle_all
idle_round asked now probe answers p = elim (next_timeout asked p) [
  | none ↦ done none p
  | some n ↦ elim (wait_ready n answers) [
    | fault ↦ fault
    | out_of_fuel ↦ out_of_fuel
    | done r _ ↦
        let p' = move_expired now probe p in
        elim (handle_all r.1 p'.io) [
          | fault ↦ fault
          | out_of_fuel ↦ out_of_fuel
          | done _ m ↦ done (some r.0) (record p' { io = m })
        ]
  ]
]

abbrev pub on_owner : {A : Type 0} → Run Owner A → Poller → Run Poller A
on_owner (done a o) p = done a (record p { owner = o })
on_owner fault p = fault
on_owner out_of_fuel p = out_of_fuel

abbrev pub on_sched : {A : Type 0} → Run Sched A → Owner → Run Owner A
on_sched (done a s) o = done a (record o { sched = s })
on_sched fault o = fault
on_sched out_of_fuel o = out_of_fuel

-- `IOManager(threads, use_caller)`, for the calling thread, the numbers of the threads that `start` makes,
-- and the empty TimerManager.
unfoldable pub construct_poller : ℕ → ℕ → Bool → List ℕ → Manager → Run Poller (Unit {0})
unfolding construct start context_resize
construct_poller caller threads use_caller made timers =
    let o = construct caller threads use_caller in
    let io : Io = record {
      contexts = context_resize 32 [];
      pending_event_count = 0;
      ctl = [];
      tasks = [];
    } in
    on_owner (on_sched (start made o.sched) o)
      (record { owner = o; timers = timers; io = io; written = 0; closed = 0 })

abbrev halted : Run Owner (Unit {0}) → Poller → Run Poller (Unit {0})
halted (done _ o) p = done tt (with_owner o p)
halted fault p = fault
halted out_of_fuel p = out_of_fuel

-- `stop` of an IOManager, which asks its own `stopping`.
unfoldable pub stop_poller : Joins → Bool → Poller → Run Poller (Unit {0})
unfolding is_stopping halt
stop_poller join is_this p =
    let s = p.owner.sched in
    let p' = with_sched (record s { autostop = true }) p in
    if rests p.owner.scheduler_co && (s.thread_count == 0) && is_stopping p'
    then done tt p'
    else if (if is_some p.owner.root_thread then is_this else not is_this)
    then halted (halt join p'.owner) p'
    else fault

-- `~IOManager`, and `~Scheduler` behind it.
unfoldable pub destroy_poller : Joins → Bool → Poller → Run Poller (Unit {0})
unfolding stop_poller destroy
destroy_poller join is_this p = bind_run (stop_poller join is_this p) λ _ p.
    on_owner (destroy p.owner)
      (record p { io = record p.io { contexts = [] }; closed = p.closed + 1 + 1 })
