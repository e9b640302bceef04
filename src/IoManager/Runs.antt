-- ===== src/IoManager/Runs.antt =====
-- Any run of the operations of iomananger/iomanager.cpp on the events of descriptors.
use co_kv.Prelude.{ℕ, ◌+◌, ◌^◌, ◌<◌, ◌≡◌, Bool, true, false, Option, some, List, [], ◌∷◌, get_elem?}
use co_kv.Prelude.Run.{Run, done, fault, out_of_fuel, Cmd, bind_run}
use co_kv.IoManager.{
  Event, Events, FdContext, Io, has, grown, some_event, add_event, del_event, cancel_event,
  cancel_all, handle_ready,
}
use co_kv.IoManager.Contexts.{Balanced}
use co_kv.IoManager.Balance.{Ends}
use co_kv.IoManager.Told.{told, Among}

-- A call of an operation, or a report of `epoll_wait`. The scheduler, the coroutine and the function come
-- with `addEvent`.
pub data Call : Type 0 where
  adds : ℕ → ℕ → ℕ → Event → Option ℕ → Call
  dels cancels : ℕ → Event → Call
  cancels_all : ℕ → Call
  reports : ℕ → Events → Bool → Call

abbrev report : Run Io (Unit {0}) → Run Io Bool
report r = bind_run r (λ _ m. done true m)

unfoldable pub run_call : Call → Cmd Io Bool
run_call (adds this co fd ev cb) m = add_event true this co fd ev cb m
run_call (dels fd ev) m = del_event fd ev m
run_call (cancels fd ev) m = cancel_event fd ev m
run_call (cancels_all fd) m = cancel_all fd m
run_call (reports fd ready failed) m = report (handle_ready fd ready failed m)

-- The calls one after the other, with what they report.
unfoldable pub run_calls : List Call → Cmd Io (List Bool)
run_calls [] m = done [] m
run_calls (c ∷ cs) m =
    bind_run (run_call c m) λ b m. bind_run (run_calls cs m) λ bs m. done (b ∷ bs) m

-- The descriptor has a context, with what is asked of it.
abbrev At : ℕ → List FdContext → (FdContext → Type 0) → Type 0
At fd cs P = (c : FdContext) × (get_elem? cs fd ≡ some c) × P c

-- What a call takes for granted: `addEvent` of an event that is not registered, while the count has room,
-- `cancelEvent` of one that is, and reports of events that epoll has been told of, where that is what is
-- registered: `cancelEvent` of one of two events breaks the last until epoll is told again.
unfoldable pub Permits : Call → Io → Type 0
Permits (adds this co fd ev cb) m =
    At fd (grown fd m.contexts)
      (λ c. (has c.events ev ≡ false) × (m.pending_event_count + 1 < 2 ^ 64))
Permits (dels fd ev) m = At fd (grown fd m.contexts) (λ c. Unit)
Permits (cancels fd ev) m = At fd (grown fd m.contexts) (λ c. has c.events ev ≡ true)
Permits (cancels_all fd) m = At fd (grown fd m.contexts) (λ c. Unit)
Permits (reports fd ready failed) m =
    At fd m.contexts (λ c. Among ready (told fd m) × (told fd m ≡ c.events))

-- Each call is permitted when it is its turn.
unfoldable pub Permitted : List Call → Io → Type 0
Permitted [] m = Unit
Permitted (c ∷ cs) m =
    Permits c m × ((b : Bool) (m' : Io) → run_call c m ≡ done b m' → Permitted cs m')

-- What a call reports: whether the event, or for `cancelAll` some event, was registered, and else success.
abbrev pub Report : Call → Io → Bool → Type 0
Report (adds this co fd ev cb) m b = b ≡ true
Report (dels fd ev) m b = At fd (grown fd m.contexts) (λ c. b ≡ has c.events ev)
Report (cancels fd ev) m b = b ≡ true
Report (cancels_all fd) m b = At fd (grown fd m.contexts) (λ c. b ≡ some_event c.events)
Report (reports fd ready failed) m b = b ≡ true

ended : (a : Bool) (r : Run Io Bool) → Ends a r → (m' : Io) × (r ≡ done a m') × Balanced m'
ended a (done b m') (e, h) = (m', (λ i. done (e i) m'), h)
ended a fault h = absurd h
ended a out_of_fuel h = absurd h

-- The reports of the calls are right, each for the contexts that the calls before it have left.
unfoldable pub Reports : List Call → Io → List Bool → Type 0
Reports [] m [] = Unit
Reports [] m (b ∷ bs) = ⊥
Reports (c ∷ cs) m [] = ⊥
Reports (c ∷ cs) m (b ∷ bs) =
    Report c m b × ((m' : Io) × (run_call c m ≡ done b m') × Reports cs m' bs)
