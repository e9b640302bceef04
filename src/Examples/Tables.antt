-- ===== src/Examples/Tables.antt =====
-- A table of descriptors (fd_manager/fd_manager.cpp), timers (time/time.cpp), and the contexts of an
-- IOManager (iomananger/iomanager.cpp).
use co_kv.Prelude.{
  ℕ, ◌≡◌, ◌≢◌, ◌≤◌, ◌*◌, refl, Bool, true, false, Option, none, some, [], ◌∷◌, arith, pos,
  get_elem?,
}
use co_kv.Prelude.Run.{done, fault}
use co_kv.Prelude.Vector.{slot}
use co_kv.FdManager.{FdCtx, FdTable, new_table, init, get}
use co_kv.FdManager.Table.{IsTable, SameBut, new_table-IsTable, get-auto_create}
use co_kv.Timer.{Timer, Manager, add_timer}
use co_kv.Timer.Order.{Sorted}
use co_kv.Timer.Notify.{Steps, adds, here, next, Told, notified_once}
use co_kv.IoManager.{
  ctl_add, on_read, on_write, FdContext, Io, new_context, grown, context_resize, add_event,
  cancel_event,
}
use co_kv.IoManager.Contexts.{Balanced, off, with_co}
use co_kv.IoManager.Balance.{cancel_event-fault}
use co_kv.Timer.{before, split_expired}
use co_kv.Timer.Order.{Due, Later}
use co_kv.Timer.Expiry.{split_expired-Due}
use co_kv.IoManager.Refused.{add_event-refused}
use co_kv.Prelude.{All, ◌++◌}

-- Every descriptor is a socket.
abbrev pub sockets : ℕ → Option Bool
sockets fd = some true

abbrev pub table : FdTable
table = new_table (λ _. false)

pub table-IsTable : IsTable table
table-IsTable = new_table-IsTable (λ _. false)

hundred_ne_one : ◌≢◌ {A = ℕ} 100 1
hundred_ne_one = ground arith

get-auto_create_example :
    (ctx : FdCtx) × (t' : FdTable) × (get sockets (pos 100) true table ≡ done (some ctx) t')
    × (slot t'.datas 100 ≡ some ctx)
    × SameBut 100 table t'
    × IsTable t'
    × ((c : FdCtx) → slot table.datas 100 ≡ some c → (ctx ≡ c) × (t' ≡ table))
    × (slot table.datas 100 ≡ none → ctx ≡ (init sockets 100 table.nonblock).0)
get-auto_create_example = get-auto_create sockets 100 table hundred_ne_one table-IsTable

abbrev pub idle_timer : Timer
idle_timer = record { recurring = false; ms = 0; next = 0; cb = none }

abbrev pub no_timers : Manager
no_timers = record {
  object = λ _. idle_timer;
  timers = [];
  tickled = false;
  previouse_time = 0;
  notified = 0;
}

abbrev pub two_timers : Manager
two_timers = add_timer 100 2 5 (some 1) true (add_timer 100 1 50 (some 0) false no_timers)

pub two_timers-Steps : Steps no_timers two_timers
two_timers-Steps = next (next here (adds 100 1 50 (some 0) false _)) (adds 100 2 5 (some 1) true _)

notified_once_example :
    (no_timers.tickled ≡ true
      → (two_timers.tickled ≡ true) × (two_timers.notified ≡ no_timers.notified))
    × (Told no_timers → two_timers.notified ≤ 1)
notified_once_example = notified_once two_timers-Steps

abbrev due : ℕ → Timer
due a = record idle_timer { next = 10 * a }

abbrev no_events : Io
no_events = record {
  contexts = new_context ∷ new_context ∷ [];
  pending_event_count = 0;
  ctl = [];
  tasks = [];
}

no_events-Balanced : Balanced no_events
no_events-Balanced = record {
  each = (record { read = off; write = off }, (record { read = off; write = off }, tt));
  count = refl;
}

fifth : get_elem? (grown 5 no_events.contexts) 5 ≡ some new_context
unfolding grown context_resize
fifth = refl

cancel_event-fault_example : cancel_event 5 on_write no_events ≡ fault
cancel_event-fault_example =
    cancel_event-fault 5 on_write no_events new_context no_events-Balanced fifth refl refl

-- Descriptor 0 waits to read.
abbrev pub waiting : FdContext
waiting = record new_context {
  read = record { scheduler = some 1; co = some 9; cb = none };
  events = record { has_read = true; has_write = false };
}

abbrev pub one_event : Io
one_event = record {
  contexts = waiting ∷ [];
  pending_event_count = 1;
  ctl = (ctl_add, (0, waiting.events)) ∷ [];
  tasks = [];
}

pub one_event-Balanced : Balanced one_event
one_event-Balanced = record {
  each = (record { read = with_co 1 9; write = off }, tt);
  count = refl;
}

pub zeroth : get_elem? (grown 0 one_event.contexts) 0 ≡ some waiting
unfolding grown
zeroth = refl

due_order : Sorted due (1 ∷ 2 ∷ 3 ∷ [])
due_order = unfold before in ((refl, (refl, tt)), ((refl, tt), (tt, tt)))

-- At time 20 two of three timers are due.
split_expired-Due_example :
    ((split_expired due 20 9 (1 ∷ 2 ∷ 3 ∷ [])).0 ++ (split_expired due 20 9 (1 ∷ 2 ∷ 3 ∷ [])).1
      ≡ 1 ∷ 2 ∷ 3 ∷ [])
    × All (Due due 20) (split_expired due 20 9 (1 ∷ 2 ∷ 3 ∷ [])).0
    × All (Later due 20) (split_expired due 20 9 (1 ∷ 2 ∷ 3 ∷ [])).1
split_expired-Due_example = split_expired-Due due 20 9 (1 ∷ 2 ∷ 3 ∷ []) due_order

add_event-refused_example :
    (m' : Io) × (add_event false 1 9 5 on_read none no_events ≡ done false m')
    × (m'.pending_event_count ≡ no_events.pending_event_count)
    × ((ok : Bool) (this co : ℕ) (cb : Option ℕ) → add_event ok this co 5 on_read cb m' ≡ fault)
add_event-refused_example =
    add_event-refused 1 9 5 on_read none no_events new_context no_events-Balanced fifth refl
