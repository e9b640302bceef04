-- ===== src/Hook/Steady.antt =====
-- `io_func` of hook/hook.cpp on the parts of a real IOManager, where each wait is ended by its event.
use co_kv.Prelude.{
  ℕ, ◌+◌, ◌^◌, ◌<◌, ◌≡◌, true, false, none, some, List, [], ◌∷◌, ◌++◌, get_elem?, is_some,
}
use co_kv.Prelude.Run.{done}
use co_kv.IoManager.{FdContext, Io, Task, grown, has, handle_ready}
use co_kv.IoManager.Contexts.{Balanced}
use co_kv.IoManager.Idle.{Poller}
use co_kv.Hook.{Result, interrupted, again, overflows}
use co_kv.Hook.Suspend.{WaitCall, begin_wait}
use co_kv.Hook.Ready.{only}
use co_kv.Hook.Wrappers.{Meanwhile, wait_for}

-- The event can be waited for and the timeout does not overflow; before the timer has expired, the others
-- handle a report of the event, and go on as they like, but take no task back.
pub record Undisturbed (w : WaitCall) (x : Meanwhile) (p : Poller) : Type 0 where
  pub ctx : FdContext
  pub balanced : Balanced p.io
  pub here : get_elem? (grown w.fd p.io.contexts) w.fd ≡ some ctx
  pub unregistered : has ctx.events w.event ≡ false
  pub room : p.io.pending_event_count + 1 < 2 ^ 64
  pub fits : overflows w.to ≡ false
  pub ok : x.ok ≡ true
  pub not_cancelled : x.cancelled ≡ false
  pub later : Poller → Poller
  pub reported :
      (p' : Poller) (m' : Io)
      → begin_wait x.now true w p ≡ done none p'
      → handle_ready w.fd (only w.event) false p'.io ≡ done tt m'
      → x.others p' ≡ later (record p' { io = m' })
  pub adds : (q : Poller) → (ts : List (ℕ × Task)) × ((later q).io.tasks ≡ q.io.tasks ++ ts)
  pub pending :
      (p' : Poller) (s : ℕ)
      → w.to ≡ some s
      → begin_wait x.now true w p ≡ done none p'
      → is_some ((x.others p').timers.object w.timer).cb ≡ true

-- Results that are retried, with their waits, each of which is undisturbed when it is its turn.
pub data Steady (w : WaitCall) : List Result → List Meanwhile → Poller → Type 0 where
  none_left : {p : Poller} → Steady w [] [] p
  by_signal :
      {rs : List Result} {xs : List Meanwhile} {p : Poller}
      → Steady w rs xs p
      → Steady w (interrupted ∷ rs) xs p
  by_wait :
      {rs : List Result} {xs : List Meanwhile} {p : Poller} (x : Meanwhile)
      → Undisturbed w x p
      → ((p' : Poller) → wait_for w x p ≡ done none p' → Steady w rs xs p')
      → Steady w (again ∷ rs) (x ∷ xs) p
