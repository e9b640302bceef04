-- ===== src/IoManager/Served.antt =====
-- What a round of `IOManager::idle` serves (iomananger/iomanager.cpp): the timers that are due, and the
-- descriptors that are ready.
use co_kv.Prelude.{ℕ, ◌≡◌, Option, none, some, List, [], ◌∷◌, ◌++◌, All}
use co_kv.Scheduler.{Task}
use co_kv.Timer.{split_expired}
use co_kv.Timer.Order.{Due, Later}
use co_kv.IoManager.Contexts.{Balanced}
use co_kv.IoManager.Reports.{fired_by}
use co_kv.IoManager.Idle.{Poller, Ready, cb_task}
use co_kv.Timer.Collect.{callbacks}

-- The tasks of the callbacks that are not empty.
abbrev pub called : List (Option ℕ) → List Task
called [] = []
called (none ∷ cbs) = called cbs
called (some f ∷ cbs) = cb_task (some f) ∷ called cbs

-- The queue with the callbacks of the timers that are due.
abbrev due_tasks : ℕ → ℕ → Poller → List Task
due_tasks now probe p =
    p.owner.sched.tasks
    ++ called
        (callbacks p.timers.object (split_expired p.timers.object now probe p.timers.timers).0)

-- What a round leaves: the timers that were due by `now` are those whose callbacks are queued, in their
-- order, and the count of pending events is right.
pub record Served (now : ℕ) (events : List Ready) (p p' : Poller) : Type 0 where
  pub due : List ℕ
  pub later : List ℕ
  pub parted : due ++ later ≡ p.timers.timers
  pub is_due : All (Due p.timers.object now) due
  pub is_later : All (Later p.timers.object now) later
  pub queued : p'.owner.sched.tasks ≡ p.owner.sched.tasks ++ called (callbacks p.timers.object due)
  pub triggered : p'.io.tasks ≡ p.io.tasks ++ fired_by events p.io
  pub balanced : Balanced p'.io
