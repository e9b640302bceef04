-- ===== src/Examples/Coroutines.antt =====
-- A coroutine that yields once (selfco/selfco.cpp), and the loop that resumes it
-- (scheduler/scheduler.cpp).
use co_kv.Prelude.{ℕ, ◌≡◌, ◌≢◌, arith, refl, false, none, some, [], ◌∷◌, zero, suc}
use co_kv.Prelude.Run.{done}
use co_kv.Selfco.{Script, ends, yields, Context, entry, outside, exec, init, Co, Local, is_term}
use co_kv.Selfco.Held.{Drains, remaining, resuem-Drains}
use co_kv.Scheduler.{Task}
use co_kv.Scheduler.Loop.{World, run_round, run_rounds}
use co_kv.Scheduler.Control.{Owner, new_sched, stop}
use co_kv.Scheduler.Rounds.{NoTerm, Fine, run_round-Fine}
use co_kv.Scheduler.Stopped.{Worker, Loops, run_out, Stopped, stop-Stopped}
use co_kv.Scheduler.Fifo.{callback, Served, run_rounds-Served}
use co_kv.Scheduler.Loop.{again}

-- Callback 0 posts 7, waits, and posts 8 and 9; the others post nothing.
abbrev letters : ℕ → Script ℕ
letters zero = yields (7 ∷ []) (ends (8 ∷ 9 ∷ []))
letters (suc _) = ends []

-- Coroutine 1 is the main one.
abbrev machine : {A : Type 0} → ℕ → Co A
machine (suc zero) = record { ctx = outside; stack_size = 0; cb = none; state = exec }
machine zero = record { ctx = entry; stack_size = 1048576; cb = some 0; state = init }
machine (suc (suc _)) = record { ctx = entry; stack_size = 1048576; cb = some 0; state = init }

abbrev pair : {A : Type 0} → Local A
pair = record { co = 1; main_co = 1; count = 2; object = machine; freed = λ q. false }

entry_ne_outside : {A : Type 0} → ◌≢◌ {A = Context A} entry outside
entry_ne_outside h = cc

resuem-Drains_example : Drains letters 2 (pair {A = ℕ}) (remaining letters entry (some 0))
resuem-Drains_example = resuem-Drains letters 2 (pair {A = ℕ}) entry_ne_outside

-- Callback 0 adds a task before it yields.
abbrev added : Task
added = record { cb = some 5; selfco = none; thread_num = none }

abbrev tasks : ℕ → Script Task
tasks zero = yields (added ∷ []) (ends [])
tasks (suc _) = ends []

-- A coroutine and a function wait for a thread.
abbrev busy : World
busy = record {
  sched = record (new_sched [] 1) {
    tasks = record { cb = none; selfco = some 2; thread_num = none } ∷ added ∷ [];
  };
  local = pair;
  idle_co = 3;
  cb_co = none;
}

no_term : (q : ℕ) → is_term (machine {A = Task} q).state ≡ false
no_term zero = refl
no_term (suc zero) = refl
no_term (suc (suc q)) = refl

busy-NoTerm : NoTerm busy
busy-NoTerm = record { tasks = (refl, (refl, tt)); states = no_term; cb = refl }

run_round-Fine_example : Fine busy.sched (run_round tasks 3 4 busy)
run_round-Fine_example = run_round-Fine tasks 3 4 busy busy-NoTerm

-- A scheduler of two threads that has nothing to do.
abbrev owner : Owner
owner = record {
  sched = record (new_sched (8 ∷ 9 ∷ []) 2) { threadpoll = 8 ∷ 9 ∷ []; stopping_flag = false };
  scheduler_co = none;
  root_thread = none;
  resumed = false;
  joined = [];
}

-- Its threads are before their first round.
abbrev threads : ℕ → Worker
threads t = record { world = busy; fresh = 4 ∷ 5 ∷ [] }

threads-Loops : (t : ℕ) → Loops (threads t)
threads-Loops t = record {
  first = 4;
  second = 5;
  rest = [];
  fresh = refl;
  states = no_term;
  cb = refl;
  made = entry_ne_outside;
}

stop-Stopped_example :
    (s' : Owner) × (stop (run_out tasks threads) false owner ≡ done tt s') × Stopped (8 ∷ 9 ∷ []) s'
stop-Stopped_example =
    stop-Stopped tasks threads false owner refl refl refl refl
      (threads-Loops 8, (threads-Loops 9, tt))

three_ne_four : ◌≢◌ {A = ℕ} 3 4
three_ne_four = ground arith

three_ne_five : ◌≢◌ {A = ℕ} 3 5
three_ne_five = ground arith

-- Two callbacks are queued before it.
abbrev crowded : World
crowded = record busy {
  sched = record (new_sched [] 1) { tasks = callback 0 ∷ callback 1 ∷ added ∷ [] };
}

four_ne_five : ◌≢◌ {A = ℕ} 4 5
four_ne_five = ground arith

run_rounds-Served_example :
    (w' : World) × (run_rounds tasks 3 (4 ∷ 5 ∷ []) crowded ≡ again w')
    × Served tasks crowded w' ((0, 4) ∷ (1, 5) ∷ []) (added ∷ [])
run_rounds-Served_example =
    run_rounds-Served tasks 3 ((0, 4) ∷ (1, 5) ∷ []) (added ∷ []) crowded refl refl
      ((four_ne_five, tt), (tt, tt)) (three_ne_four, (three_ne_five, tt))
