-- ===== src/Examples/Tasks.antt =====
-- A queue of tasks (scheduler/scheduler.cpp).
use mathlib.Core.List.{Perm}
use co_kv.Prelude.Run.{done}
use co_kv.Scheduler.Control.{new_sched}
use co_kv.Scheduler.Shared.{
  Shared, Sections, here, next, takes, adds, tasks_of, Own, Sections-conserve,
}
use co_kv.Prelude.{ℕ, ◌≡◌, Option, ◌++◌, refl, Bool, none, some, List, [], ◌∷◌, ◌==◌}
use co_kv.Scheduler.{Task, Sched, add_task, take_task, pick}
use co_kv.Scheduler.Queue.{AllTasks, Picked, Finds, pick-Picked}

-- A task of thread 7, a coroutine that runs, and a function.
abbrev queue : List Task
queue =
    record { cb = some 1; selfco = none; thread_num = some 7 }
    ∷ record { cb = none; selfco = some 4; thread_num = none }
    ∷ record { cb = some 2; selfco = none; thread_num = none }
    ∷ []

abbrev runs : ℕ → Bool
runs c = c == 4

queue-AllTasks : AllTasks queue
queue-AllTasks = (refl, (refl, (refl, tt)))

pick-Picked_example : Finds runs 3 queue (pick runs 3 queue)
pick-Picked_example = pick-Picked runs 3 queue queue-AllTasks

-- Thread 3 takes the function, and a callback is added.
abbrev quiet : Sched
quiet = record (new_sched [] 1) { tasks = queue }

abbrev extra : Task
extra = record { cb = some 9; selfco = none; thread_num = none }

abbrev two_left : Sched
two_left = record (new_sched [] 1) {
  tasks =
      record { cb = some 1; selfco = none; thread_num = some 7 }
      ∷ record { cb = none; selfco = some 4; thread_num = none }
      ∷ [];
  active_threads = 1;
  tickles = 1;
}

abbrev shared : Shared
shared = record {
  sched = add_task extra two_left;
  taken = (3, record { cb = some 2; selfco = none; thread_num = none }) ∷ [];
  added = extra ∷ [];
}

take_and_add : Sections (record { sched = quiet; taken = []; added = [] }) shared
unfolding take_task pick
take_and_add =
    next
      (next here
        (takes runs 3 (record { cb = some 2; selfco = none; thread_num = none }) two_left refl))
      (adds extra)

Sections-conserve_example :
    Perm (tasks_of shared.taken ++ shared.sched.tasks) (queue ++ extra ∷ [])
    × Own shared.taken
    × ((exec : ℕ → Bool) (thread : ℕ)
        → (o : Option Task) × (q' : Sched) × (take_task exec thread shared.sched ≡ done o q')
          × Picked exec thread shared.sched.tasks o q'.tasks)
Sections-conserve_example = Sections-conserve quiet queue-AllTasks take_and_add
