-- ===== src/Hook.antt =====
-- hook/hook.cpp: `io_func`, which the hooked system calls run, as its retries alone. What the successive calls of
-- the system return, and how the successive waits for an event end, are lists; the descriptor's context is an
-- argument.
pub mod Retry
pub mod Descriptors
pub mod Close
pub mod Suspend
pub mod Ready
pub mod Woken
pub mod Expired
pub mod Wrappers
pub mod Follows
pub mod Steady
pub mod Originals
use co_kv.Prelude.{
  ℕ, zero, suc, ◌+◌, ◌*◌, ◌-◌, ◌^◌, Bool, true, false, not, Option, none, some, List, [], ◌∷◌, ◌++◌,
  ◌==◌, if◌then◌else◌, ◌%◌, ltb, leb, is_some,
}
use co_kv.Prelude.Run.{Run, done, fault, out_of_fuel, Cmd}
use co_kv.FdManager.{FdCtx, TimeoutKind, other, get_timeout}

-- A result of the system: a number, -1 with EINTR, -1 with EAGAIN, or -1 with another `errno`.
pub data Result : Type 0 where
  value : ℕ → Result
  interrupted again : Result
  failed : ℕ → Result

-- How a wait goes: `addEvent` fails, the event comes, or the timer cancels it.
pub data Wait : Type 0 where
  refused woken timed_out : Wait

-- What `io_func` returns: a number, or -1 with its cause.
pub data Reply : Type 0 where
  returns : ℕ → Reply
  fails : ℕ → Reply
  bad_descriptor not_added timeout : Reply

-- What has been done: calls of the system, timers made (with their times) and timers cancelled.
pub record Trace : Type 0 where
  pub calls : ℕ
  pub timers : List ℕ
  pub cancelled : ℕ

abbrev pub called : Trace → Trace
called t = record t { calls = t.calls + 1 }

-- `to*1000` as the `uint64_t` that `addTimer` takes, for the 32 bits of the int `to`; `none` where the product
-- overflows an int, which is undefined.
abbrev pub millis : ℕ → Option ℕ
millis to =
    let below = (2 ^ 32 - to) * 1000 in
    if ltb to (2 ^ 31)
    then (if ltb (to * 1000) (2 ^ 31) then some (to * 1000) else none)
    else (if leb below (2 ^ 31) then some (2 ^ 64 - below) else none)

-- There is a timeout, and its product overflows.
abbrev pub overflows : Option ℕ → Bool
overflows none = false
overflows (some to) = not (is_some (millis to))

abbrev pub timer_of : Option ℕ → Trace → Trace
timer_of none t = t
timer_of (some ms) t = record t { timers = t.timers ++ ms ∷ []; cancelled = t.cancelled + 1 }

-- The timer of a wait is made before it, if there is a timeout, and cancelled behind it.
abbrev pub waited : Option ℕ → Trace → Trace
waited none t = t
waited (some to) t = timer_of (millis to) t

-- The part behind `Retry:`. The lists bound the rounds: it is out of fuel where they end too early.
unfoldable pub retry : Option ℕ → List Result → List Wait → Cmd Trace Reply
retry to [] ws t = out_of_fuel
retry to (value n ∷ rs) ws t = done (returns n) (called t)
retry to (failed e ∷ rs) ws t = done (fails e) (called t)
retry to (interrupted ∷ rs) ws t = retry to rs ws (called t)
retry to (again ∷ rs) [] t = out_of_fuel
retry to (again ∷ rs) (refused ∷ ws) t =
    if overflows to then fault else done not_added (waited to (called t))
retry to (again ∷ rs) (timed_out ∷ ws) t =
    if overflows to then fault else done timeout (waited to (called t))
retry to (again ∷ rs) (woken ∷ ws) t =
    let rest = retry to rs ws (waited to (called t)) in if overflows to then fault else rest

-- `return fun(fd, …)`; EINTR is 4 and EAGAIN is 11 on Linux.
unfoldable pub raw : List Result → Cmd Trace Reply
raw [] t = out_of_fuel
raw (value n ∷ rs) t = done (returns n) (called t)
raw (failed e ∷ rs) t = done (fails e) (called t)
raw (interrupted ∷ rs) t = done (fails 4) (called t)
raw (again ∷ rs) t = done (fails 11) (called t)

-- `int to = ctx->getTimeout(type)`: the callers pass RECV and SEND, 0 and 1, and neither is
-- SO_RCVTIMEO. The int has the low 32 bits of the `uint64_t`; -1 is no timeout.
abbrev pub timeout_of : FdCtx → Option ℕ
timeout_of c = let to = get_timeout other c % 2 ^ 32 in if to == 2 ^ 32 - 1 then none else some to

unfoldable pub io_func : Bool → Option FdCtx → List Result → List Wait → Cmd Trace Reply
io_func enabled none rs ws t = raw rs t
io_func enabled (some c) rs ws t =
    if not enabled
    then raw rs t
    else if c.is_closed
    then done bad_descriptor t
    else if not c.is_socket
    then raw rs t
    else retry (timeout_of c) rs ws t
