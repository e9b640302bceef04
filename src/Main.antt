-- ===== src/Main.antt =====
-- main.cpp: the program, which makes an IOManager of two threads and gives it the callback that starts a server.
-- What the system calls return, the numbers of callbacks and threads, and what the threads have made of
-- the IOManager when `main` returns, are arguments.
use co_kv.Prelude.{
  ℕ, ◌≡◌, refl, Bool, true, false, Option, none, some, List, [], ◌∷◌, ◌++◌, ℤ, ◌==◌, ==_refl,
}
use co_kv.Prelude.Run.{Run, done, bind_run}
use co_kv.Scheduler.{Sched, add_task, add_task_no_lock, start}
use co_kv.Scheduler.Taken.{tickle_if-tasks}
use co_kv.Scheduler.Control.{Joins, construct}
use co_kv.Timer.{Manager}
use co_kv.IoManager.{context_resize}
use co_kv.IoManager.Idle.{Poller, with_sched, construct_poller, destroy_poller}
use co_kv.TcpServer.{TcpServer, cb_task, add_to}
use co_kv.TcpServer

-- `run()`: the server is made on the running IOManager and started, whatever `bind` reports. `none` is a
-- `bind` that goes on for ever.
unfoldable pub run : ℤ → List ℤ → Bool → ℕ → ℕ → (ℕ → Sched) → Option TcpServer
unfolding TcpServer.construct TcpServer.bind TcpServer.start
run fd binds listening this handle pool = elim (TcpServer.bind binds listening) [
  | none ↦ none
  | some _ ↦ some (TcpServer.start handle (TcpServer.construct fd this this pool))
]

-- `main()` up to its `return`.
unfoldable pub begin_main : ℕ → List ℕ → Manager → ℕ → Run Poller (Unit {0})
unfolding construct_poller add_task
begin_main caller made timers f =
    bind_run (construct_poller caller 2 false made timers)
      λ _ p. done tt (with_sched (add_task (cb_task f) p.owner.sched) p)

-- `main()`, whose `return` destroys the IOManager.
unfoldable pub main : ℕ → List ℕ → Manager → ℕ → (Poller → Poller) → Joins → Run Poller (Unit {0})
unfolding begin_main destroy_poller
main caller made timers f others join =
    bind_run (begin_main caller made timers f) λ _ p. destroy_poller join false (others p)

-- The task of a callback, queued.
add_to-tasks :
    (f this : ℕ) (t : TcpServer)
    → ((add_to this f t).pool this).tasks ≡ (t.pool this).tasks ++ cb_task f ∷ []
unfolding add_task add_task_no_lock
add_to-tasks f this t = let e : (this == this) ≡ true = ==_refl this in rw e (tickle_if-tasks _ _)

-- The IOManager of the program begins with the threads that were made, no descriptor waited for, and the
-- callback of the server as its only task; that callback leaves the acceptance of clients as the task
-- behind those in the queue, once the address is bound.
pub begin_main-run :
    (caller f handle this : ℕ) (made : List ℕ) (timers : Manager) (fd : ℤ) (pool : ℕ → Sched)
    (binds : List ℤ) (listening b : Bool)
    → TcpServer.bind binds listening ≡ some b
    → ((p : Poller) × (begin_main caller made timers f ≡ done tt p)
        × (p.owner.sched.tasks ≡ cb_task f ∷ [])
        × (p.owner.sched.threadpoll ≡ made)
        × (p.io.pending_event_count ≡ 0))
      × ((t : TcpServer) × (run fd binds listening this handle pool ≡ some t)
          × (t.is_stop ≡ false)
          × ((t.pool this).tasks ≡ (pool this).tasks ++ cb_task handle ∷ []))
unfolding begin_main construct_poller construct start context_resize add_task run
    TcpServer.construct TcpServer.start
begin_main-run caller f handle this made timers fd pool binds listening b e = (
  (_, refl, refl, refl, refl),
  (
    add_to this handle (record (TcpServer.construct fd this this pool) { is_stop = false }),
    rw (run, e) refl,
    refl,
    add_to-tasks handle this (record (TcpServer.construct fd this this pool) { is_stop = false }),
  ),
)
