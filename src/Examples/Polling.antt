-- ===== src/Examples/Polling.antt =====
-- A round of an IOManager (iomananger/iomanager.cpp) with a timer that is due, one that is not, and a
-- descriptor that can be read.
use co_kv.Prelude.{ℕ, ◌+◌, zero, suc, true, false, none, some, [], ◌∷◌}
use co_kv.Scheduler.{Sched}
use co_kv.Scheduler.Control.{new_sched}
use co_kv.Timer.{Timer, Manager}
use co_kv.IoManager.{Events}
use co_kv.IoManager.Idle.{Poller}
use co_kv.IoManager.Served.{Served}
use co_kv.Examples.Tables.{one_event}

-- Timer 1 is due at 11, timer 2 at 12, and timer 1 recurs.
abbrev clocks : ℕ → Timer
clocks zero = record { recurring = false; ms = 0; next = 0; cb = none }
clocks (suc n) = record { recurring = true; ms = 6; next = 11 + n; cb = some n }

abbrev two_clocks : Manager
two_clocks = record {
  object = clocks;
  timers = 1 ∷ 2 ∷ [];
  tickled = true;
  previouse_time = 0;
  notified = 1;
}

abbrev pub poller : Poller
poller = record {
  owner = record {
    sched = record (new_sched (8 ∷ []) 1) { stopping_flag = false };
    scheduler_co = none;
    root_thread = none;
    resumed = false;
    joined = [];
  };
  timers = two_clocks;
  io = one_event;
  written = 0;
  closed = 0;
}

abbrev readable : Events
readable = record { has_read = true; has_write = false }
