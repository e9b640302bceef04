-- ===== src/IoManager.antt =====
-- iomananger/iomanager.h and iomananger/iomanager.cpp: what an IOManager keeps for each descriptor,
-- and the operations on it. The result of `epoll_ctl`, where it is read, the running scheduler and
-- the running coroutine are arguments. The locks are left out: each operation is one step.
-- Descriptors are not negative.
pub mod Contexts
pub mod Balance
pub mod Trigger
pub mod Told
pub mod Reports
pub mod Refused
pub mod Idle
pub mod Wait
pub mod Served
pub mod Runs
use co_kv.Prelude.{
  ℕ, zero, suc, ◌+◌, ◌-◌, ◌*◌, ◌/◌, ◌^◌, Bool, true, false, not, ◌&&◌, ◌||◌, Option, none, some,
  List, [], ◌∷◌, ◌++◌, ltb, ◌==◌, if◌then◌else◌, is_some, length, get_elem?, set,
}
use co_kv.Prelude.Run.{Run, done, fault, Cmd, bind_run}

-- The events that the operations are called with.
pub data Event : Type 0 where
  on_read : Event
  on_write : Event

-- A set of events, for the bits READ and WRITE.
pub record Events : Type 0 where
  pub has_read : Bool
  pub has_write : Bool

pub record EventContext : Type 0 where
  pub scheduler : Option ℕ
  pub co : Option ℕ
  pub cb : Option ℕ

abbrev pub blank : EventContext
blank = record { scheduler = none; co = none; cb = none }

pub record FdContext : Type 0 where
  pub read : EventContext
  pub write : EventContext
  pub fd : ℕ
  pub events : Events

abbrev pub new_context : FdContext
new_context = record {
  read = blank;
  write = blank;
  fd = 0;
  events = record { has_read = false; has_write = false };
}

pub data Task : Type 0 where
  calls : ℕ → Task
  resumes : ℕ → Task

pub data Op : Type 0 where
  ctl_add : Op
  ctl_mod : Op
  ctl_del : Op

-- The contexts by descriptor, `m_pendingEventCount`, the calls of `epoll_ctl`, and the tasks given
-- to schedulers.
pub record Io : Type 0 where
  pub contexts : List FdContext
  pub pending_event_count : ℕ
  pub ctl : List (Op × (ℕ × Events))
  pub tasks : List (ℕ × Task)

-- `++` and `--` on a size_t
abbrev pub inc : ℕ → ℕ
inc n = if n == 2 ^ 64 - 1 then 0 else n + 1

abbrev pub dec : ℕ → ℕ
dec n = if n == 0 then 2 ^ 64 - 1 else n - 1

-- `events & ev`
abbrev pub has : Events → Event → Bool
has es on_read = es.has_read
has es on_write = es.has_write

-- `events | ev` for true, `events & ~ev` for false
abbrev pub with_bit : Event → Bool → Events → Events
with_bit on_read b es = record es { has_read = b }
with_bit on_write b es = record es { has_write = b }

-- A set of events as a condition.
abbrev pub some_event : Events → Bool
some_event es = es.has_read || es.has_write

abbrev pub get_event_context : Event → FdContext → EventContext
get_event_context on_read c = c.read
get_event_context on_write c = c.write

abbrev pub put_event_context : Event → EventContext → FdContext → FdContext
put_event_context on_read x c = record c { read = x }
put_event_context on_write x c = record c { write = x }

-- The task that `trigerEvent` makes: `Task` takes what it is given by a swap, and a task that holds
-- neither a function nor a coroutine is not queued.
abbrev pub posted : ℕ → Option ℕ → Option ℕ → List (ℕ × Task)
posted s none none = []
posted s none (some c) = (s, resumes c) ∷ []
posted s (some f) co = (s, calls f) ∷ []

abbrev pub fired : EventContext → EventContext
fired x =
    if is_some x.cb
    then record x { scheduler = none; cb = none }
    else record x { scheduler = none; co = none }

-- `FdContext::trigerEvent`: a fault where the scheduler is null.
unfoldable pub triger_event : Event → FdContext → Option (FdContext × List (ℕ × Task))
triger_event ev c =
    let x = get_event_context ev c in
    let c' = put_event_context ev (fired x) (record c { events = with_bit ev false c.events }) in
    elim x.scheduler [ none ↦ none | some s ↦ some (c', posted s x.cb x.co) ]

-- `contextResize`
unfoldable pub context_resize : ℕ → List FdContext → List FdContext
context_resize zero cs = []
context_resize (suc n) [] = new_context ∷ context_resize n []
context_resize (suc n) (c ∷ cs) = c ∷ context_resize n cs

-- The first lines of each operation: `fd * 1.5` contexts where there are not enough.
unfoldable pub grown : ℕ → List FdContext → List FdContext
grown fd cs = if ltb fd (length cs) then cs else context_resize (fd * 3 / 2) cs

abbrev pub fetch : {A : Type 0} → Option FdContext → (FdContext → Run Io A) → Run Io A
fetch none k = fault
fetch (some c) k = k c

abbrev pub ctl_of : Events → Op
ctl_of es = if some_event es then ctl_mod else ctl_del

-- `trigerEvent(ev)` and `--m_pendingEventCount` for the context of `fd`.
unfoldable pub triger_at : ℕ → Event → Cmd Io (Unit {0})
triger_at fd ev m = fetch (get_elem? m.contexts fd) λ c. elim (triger_event ev c) [
  | none ↦ fault
  | some (c', ts) ↦ done tt (record m {
    contexts = set m.contexts fd c';
    tasks = m.tasks ++ ts;
    pending_event_count = dec m.pending_event_count;
  })
]

-- `addEvent`; `true` stands for the result 0 and `false` for -1.
unfoldable pub add_event : Bool → ℕ → ℕ → ℕ → Event → Option ℕ → Cmd Io Bool
add_event ok this co fd ev cb m =
    let cs = grown fd m.contexts in
    fetch (get_elem? cs fd) λ c.
      let x = get_event_context ev c in
      let events = with_bit ev true c.events in
      let x' : EventContext = record {
        scheduler = some this;
        cb = cb;
        co = if is_some cb then none else some co;
      } in
      let c' = put_event_context ev x' (record c { fd = fd; events = events }) in
      let op = if some_event c.events then ctl_mod else ctl_add in
      let m' = record m { contexts = set cs fd c'; ctl = m.ctl ++ (op, (fd, events)) ∷ [] } in
      if has c.events ev || (is_some x.scheduler || (is_some x.cb || is_some x.co))
      then fault
      else if ok
      then done true (record m' { pending_event_count = inc m'.pending_event_count })
      else done false m'

-- `delEvent`
unfoldable pub del_event : ℕ → Event → Cmd Io Bool
del_event fd ev m =
    let cs = grown fd m.contexts in
    fetch (get_elem? cs fd) λ c.
      let events = with_bit ev false c.events in
      let c' = put_event_context ev blank (record c { events = events }) in
      if not (has c.events ev)
      then done false (record m { contexts = cs })
      else done true (record m {
        contexts = set cs fd c';
        ctl = m.ctl ++ (ctl_of events, (fd, events)) ∷ [];
        pending_event_count = dec m.pending_event_count;
      })

-- `!ctx->events & ev`, which C++ reads as `(!ctx->events) & ev`.
abbrev pub cancel_guard : Events → Event → Bool
cancel_guard es on_read = not (some_event es)
cancel_guard es on_write = false

-- `cancelEvent`
unfoldable pub cancel_event : ℕ → Event → Cmd Io Bool
cancel_event fd ev m =
    let cs = grown fd m.contexts in
    fetch (get_elem? cs fd) λ c.
      let op = ctl_of (with_bit ev false c.events) in
      let m' = record m { contexts = cs; ctl = m.ctl ++ (op, (fd, c.events)) ∷ [] } in
      if cancel_guard c.events ev
      then done false (record m { contexts = cs })
      else bind_run (triger_at fd ev m') λ _ m''. done true m''

-- `if(events & ev) { trigerEvent(ev); --m_pendingEventCount; }` for the context of `fd`.
unfoldable pub triger_if : Bool → ℕ → Event → Cmd Io (Unit {0})
triger_if true fd ev m = triger_at fd ev m
triger_if false fd ev m = done tt m

-- `cancelAll`; `trigerEvent(READ)` leaves the bit of WRITE alone.
unfoldable pub cancel_all : ℕ → Cmd Io Bool
cancel_all fd m =
    let cs = grown fd m.contexts in
    fetch (get_elem? cs fd) λ c.
      let no_events : Events = record { has_read = false; has_write = false } in
      let m' = record m { contexts = cs; ctl = m.ctl ++ (ctl_del, (fd, no_events)) ∷ [] } in
      if not (some_event c.events)
      then done false (record m { contexts = cs })
      else bind_run (triger_if c.events.has_read fd on_read m')
          λ _ m₁. bind_run (triger_if c.events.has_write fd on_write m₁) λ _ m₂. done true m₂

-- One round of the loop over the ready events in `idle`, for an event of the descriptor `fd` with
-- the bits EPOLLIN and EPOLLOUT, and `failed` for EPOLLERR or EPOLLHUP.
unfoldable pub handle_ready : ℕ → Events → Bool → Cmd Io (Unit {0})
handle_ready fd ready failed m = fetch (get_elem? m.contexts fd) λ c.
    let real : Events = record {
      has_read = ready.has_read || (failed && c.events.has_read);
      has_write = ready.has_write;
    } in
    let left : Events = record {
      has_read = c.events.has_read && not real.has_read;
      has_write = c.events.has_write && not real.has_write;
    } in
    let hit = (c.events.has_read && real.has_read) || (c.events.has_write && real.has_write) in
    let m' = record m { ctl = m.ctl ++ (ctl_of left, (c.fd, left)) ∷ [] } in
    if not hit
    then done tt m
    else bind_run (triger_if real.has_read fd on_read m')
        λ _ m₁. triger_if real.has_write fd on_write m₁
