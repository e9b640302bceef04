-- ===== src/Examples/Waits.antt =====
-- Waits of hook/hook.cpp on an IOManager (iomananger/iomanager.cpp), and a run of operations on its events.
use co_kv.Prelude.{◌≡◌, refl, true, false, none, some, List, [], ◌∷◌, arith, get_elem?}
use co_kv.Prelude.Run.{Run, done, fault, out_of_fuel}
use co_kv.IoManager.{
  on_read, on_write, FdContext, Io, new_context, grown, handle_ready, ctl_add, ctl_del, resumes,
  cancel_event,
}
use co_kv.IoManager.Contexts.{Balanced, off, with_co}
use co_kv.IoManager.Runs.{Call, adds, cancels}
use co_kv.IoManager.Told.{told, both, cancel_event-stale}
use co_kv.IoManager.Idle.{with_timers, Poller, move_expired}
use co_kv.Hook.Suspend.{WaitCall, make_timer, begin_wait, timer_callback, end_wait}
use co_kv.Hook.Ready.{Waits, WakesOnce, only}
use co_kv.Hook.Woken.{begin_wait-WakesOnce, late_callback-fault}
use co_kv.FdManager.{FdCtx, made}
use co_kv.Hook.Wrappers.{Meanwhile}
use co_kv.Timer.{add_timer}
use co_kv.Hook.Expired.{member, end_wait-fault}
use co_kv.Examples.Polling.{poller}
use co_kv.Examples.Tables.{waiting, one_event, one_event-Balanced, zeroth, idle_timer, no_timers}

-- Descriptor 0 is cancelled, and then waited for again.
abbrev two_calls : List Call
two_calls = cancels 0 on_read ∷ adds 1 9 0 on_read none ∷ []

abbrev cancelled : Io
cancelled = record {
  contexts = new_context ∷ [];
  pending_event_count = 0;
  ctl = (ctl_add, (0, waiting.events)) ∷ (ctl_del, (0, waiting.events)) ∷ [];
  tasks = (1, resumes 9) ∷ [];
}

-- Descriptor 0 is waited for in both ways.
abbrev in_both_ways : FdContext
in_both_ways = record waiting {
  write = record { scheduler = some 1; co = some 4; cb = none };
  events = both;
}

abbrev two_events : Io
two_events = record one_event { contexts = in_both_ways ∷ []; pending_event_count = 2 }

two_events-Balanced : Balanced two_events
two_events-Balanced = record {
  each = (record { read = with_co 1 9; write = with_co 1 4 }, tt);
  count = refl;
}

both_ways : get_elem? (grown 0 two_events.contexts) 0 ≡ some in_both_ways
unfolding grown
both_ways = refl

cancel_event-stale_example :
    (m' : Io) × (cancel_event 0 on_read two_events ≡ done true m')
    × (told 0 m' ≡ both)
    × (handle_ready 0 both false m' ≡ fault)
cancel_event-stale_example =
    cancel_event-stale 0 on_read two_events in_both_ways two_events-Balanced both_ways refl

-- A coroutine that waits for three seconds to write to descriptor 0.
abbrev writes : WaitCall
writes = record {
  fd = 0;
  event = on_write;
  to = some 3;
  timer = 3;
  callback = 7;
  co = 9;
  scheduler = 1;
}

begin_wait-WakesOnce_example :
    (p' : Poller) × (begin_wait 10 true writes poller ≡ done none p')
    × Balanced p'.io
    × WakesOnce writes p'.io
    × (p'.io.tasks ≡ [])
    × (q : Poller) × (make_timer 10 writes (some 3) poller ≡ done tt q)
    × (p'.timers ≡ q.timers)
begin_wait-WakesOnce_example =
    begin_wait-WakesOnce 10 writes poller waiting one_event-Balanced zeroth refl (omega arith) refl

abbrev writing : FdContext
writing = record new_context {
  write = record { scheduler = some 1; co = some 9; cb = none };
  events = record { has_read = false; has_write = true };
}

abbrev suspended : Poller
suspended = record poller {
  io = record { contexts = writing ∷ []; pending_event_count = 1; ctl = []; tasks = [] };
  timers = record no_timers {
    object = λ _. record idle_timer { next = 10; cb = some 7 };
    timers = 3 ∷ [];
  };
}

suspended-Balanced : Balanced suspended.io
suspended-Balanced = record {
  each = (record { read = off; write = with_co 1 9 }, tt);
  count = refl;
}

suspended-Waits : Waits writes suspended.io
suspended-Waits = record { ctx = writing; here = refl; registered = refl; who = refl }

late_callback-fault_example :
    (m' : Io) × (handle_ready 0 (only on_write) false suspended.io ≡ done tt m')
    × (timer_callback writes (record suspended { io = m' }) ≡ fault)
late_callback-fault_example =
    late_callback-fault writes suspended suspended-Balanced suspended-Waits refl

third : member 3 (3 ∷ []) ≡ true
unfolding member
third = refl

end_wait-fault_example : end_wait writes true (move_expired 11 1 suspended) ≡ fault
end_wait-fault_example =
    end_wait-fault 11 1 3 writes true suspended refl (tt, tt) third (omega arith) refl

abbrev socket_ctx : FdCtx
socket_ctx = record (made 0 true true) { send_timeout = 3 }

abbrev with_contexts : Run Io (Unit {0}) → Poller → Poller
with_contexts (done _ m) p = record p { io = m }
with_contexts fault p = p
with_contexts out_of_fuel p = p

-- The others handle a report of the event.
abbrev undisturbed : Meanwhile
undisturbed = record {
  now = 10;
  ok = true;
  others = λ p. with_contexts (handle_ready 0 (only on_write) false p.io) p;
  cancelled = false;
}

abbrev with_timer : Poller
with_timer = with_timers (add_timer 10 3 3000 (some 7) false poller.timers) poller
