-- ===== src/Hook/Wrappers.antt =====
-- The whole of `io_func` in hook/hook.cpp on the parts of a real IOManager, and the hooks of `read`, `recv`,
-- `write` and `send`, which call it; with the flag that turns the hooks on. What the other coroutines do while
-- one waits is an argument.
use co_kv.Prelude.{
  ℕ, Bool, false, not, Option, none, some, List, [], ◌∷◌, if◌then◌else◌, pos, ◌+◌, ◌==◌, ltb,
}
use co_kv.Prelude.Run.{done, fault, out_of_fuel, Cmd, bind_run}
use co_kv.FdManager.{FdCtx, FdTable, get}
use co_kv.IoManager.{on_read, on_write, Task, calls, resumes}
use co_kv.IoManager.Idle.{Poller}
use co_kv.Hook.{
  Result, value, interrupted, again, failed, Reply, returns, fails, bad_descriptor, timeout_of,
}
use co_kv.Hook.Suspend.{WaitCall, begin_wait, end_wait}

-- `is_hook_enable` and `set_hook_enable`, on the flag of the thread.
unfoldable pub is_hook_enable : Cmd Bool Bool
is_hook_enable enabled = done enabled enabled

unfoldable pub set_hook_enable : Bool → Cmd Bool (Unit {0})
set_hook_enable flag enabled = done tt flag

-- A wait: the time at which it begins, whether `epoll_ctl` succeeds, what the others make of the IOManager
-- until the coroutine goes on, and the variable `cancel` then.
pub record Meanwhile : Type 0 where
  pub now : ℕ
  pub ok : Bool
  pub others : Poller → Poller
  pub cancelled : Bool

-- A reply ends the call, and `none` is `goto Retry`.
abbrev pub or_else : Option Reply → Cmd Poller Reply → Cmd Poller Reply
or_else none k p = k p
or_else (some r) k p = done r p

-- How often the tasks resume a coroutine.
abbrev pub resumes_co : ℕ → Task → ℕ
resumes_co co (calls f) = 0
resumes_co co (resumes c) = if c == co then 1 else 0

unfoldable pub resumptions : ℕ → List (ℕ × Task) → ℕ
resumptions co [] = 0
resumptions co ((s, t) ∷ ts) = resumes_co co t + resumptions co ts

-- Between the two states the coroutine has been given to its scheduler.
abbrev pub given_back : WaitCall → Poller → Poller → Bool
given_back w p p' = ltb (resumptions w.co p.io.tasks) (resumptions w.co p'.io.tasks)

-- What comes behind `begin_wait`: what the others do, and `end_wait`. A coroutine that nobody gives to its
-- scheduler does not go on.
abbrev pub resume_wait : WaitCall → Meanwhile → Option Reply → Cmd Poller (Option Reply)
resume_wait w x none p =
    let p' = x.others p in if given_back w p p' then end_wait w x.cancelled p' else out_of_fuel
resume_wait w x (some r) p = done (some r) p

unfoldable pub wait_for : WaitCall → Meanwhile → Cmd Poller (Option Reply)
unfolding begin_wait
wait_for w x p = bind_run (begin_wait x.now x.ok w p) (resume_wait w x)

-- The part behind `Retry:`, for the results of the system and the waits.
unfoldable pub attempt : WaitCall → List Result → List Meanwhile → Cmd Poller Reply
attempt w [] xs p = out_of_fuel
attempt w (value n ∷ rs) xs p = done (returns n) p
attempt w (failed e ∷ rs) xs p = done (fails e) p
attempt w (interrupted ∷ rs) xs p = attempt w rs xs p
attempt w (again ∷ rs) [] p = out_of_fuel
attempt w (again ∷ rs) (x ∷ xs) p = bind_run (wait_for w x p) λ r p. or_else r (attempt w rs xs) p

-- `return fun(fd, …)`
unfoldable pub straight : List Result → Cmd Poller Reply
straight [] p = out_of_fuel
straight (value n ∷ rs) p = done (returns n) p
straight (failed e ∷ rs) p = done (fails e) p
straight (interrupted ∷ rs) p = done (fails 4) p
straight (again ∷ rs) p = done (fails 11) p

abbrev pub timed : WaitCall → Option ℕ → WaitCall
timed w to = record w { to = to }

-- `io_func` for the context of the descriptor.
unfoldable pub io_call :
    Bool → Option FdCtx → WaitCall → List Result → List Meanwhile → Cmd Poller Reply
io_call enabled none w rs xs p = straight rs p
io_call enabled (some c) w rs xs p =
    if not enabled
    then straight rs p
    else if c.is_closed
    then done bad_descriptor p
    else if not c.is_socket
    then straight rs p
    else attempt (timed w (timeout_of c)) rs xs p

module _ (fstat : ℕ → Option Bool) (table : FdTable) where
  -- `io_func`, which looks the descriptor up.
  unfoldable pub io_hook : Bool → WaitCall → List Result → List Meanwhile → Cmd Poller Reply
  unfolding get
  io_hook enabled w rs xs p = elim (get fstat (pos w.fd) false table) [
    | done ctx _ ↦ io_call enabled ctx w rs xs p
    | fault ↦ fault
    | out_of_fuel ↦ out_of_fuel
  ]

  -- `read`
  unfoldable pub read_hook : Bool → WaitCall → List Result → List Meanwhile → Cmd Poller Reply
  unfolding io_hook
  read_hook enabled w rs xs p = io_hook enabled (record w { event = on_read }) rs xs p

  -- `recv`
  unfoldable pub recv_hook : Bool → WaitCall → List Result → List Meanwhile → Cmd Poller Reply
  unfolding io_hook
  recv_hook enabled w rs xs p = io_hook enabled (record w { event = on_read }) rs xs p

  -- `write`
  unfoldable pub write_hook : Bool → WaitCall → List Result → List Meanwhile → Cmd Poller Reply
  unfolding io_hook
  write_hook enabled w rs xs p = io_hook enabled (record w { event = on_write }) rs xs p

  -- `send`
  unfoldable pub send_hook : Bool → WaitCall → List Result → List Meanwhile → Cmd Poller Reply
  unfolding io_hook
  send_hook enabled w rs xs p = io_hook enabled (record w { event = on_write }) rs xs p
