-- ===== src/Hook/Retry.antt =====
-- The retries and the timers of `io_func` in hook/hook.cpp.
use co_kv.Prelude.{
  ℕ, ◌+◌, ◌≡◌, refl, true, false, Option, none, some, List, [], ◌∷◌, ◌++◌, arith, length,
  length-append,
}
use co_kv.Prelude.Run.{Run, done, fault, out_of_fuel}
use co_kv.FdManager.{FdCtx, get_timeout}
use co_kv.Hook.{
  Result, value, interrupted, again, Wait, woken, Reply, returns, Trace, called, waited, retry,
  io_func, timeout_of, millis, overflows, timer_of,
}

-- Results that are retried, with the waits between them, all of which the event ends.
pub data Transient : List Result → List Wait → Type 0 where
  none_left : Transient [] []
  by_signal :
      {rs : List Result} {ws : List Wait} → Transient rs ws → Transient (interrupted ∷ rs) ws
  by_wait :
      {rs : List Result} {ws : List Wait} → Transient rs ws → Transient (again ∷ rs) (woken ∷ ws)

-- As many timers are made as are cancelled.
abbrev pub NoTimerLeft : Trace → Type 0
NoTimerLeft t = length t.timers ≡ t.cancelled

waited-NoTimerLeft :
    (to : Option ℕ) (t : Trace) → NoTimerLeft t → NoTimerLeft (waited to (called t))
waited-NoTimerLeft none t h = h
waited-NoTimerLeft (some to) t h = by_time (millis to)
  where
    by_time : (o : Option ℕ) → NoTimerLeft (timer_of o (called t))
    by_time none = h
    by_time (some ms) = omega (arith, length-append t.timers (ms ∷ []), h)

-- The run returns this number behind this many calls, with no timer left.
abbrev pub Settles : ℕ → ℕ → Run Trace Reply → Type 0
Settles n k (done r t) = (r ≡ returns n) × (t.calls ≡ k) × NoTimerLeft t
Settles n k fault = ⊥
Settles n k out_of_fuel = ⊥

calls-waited : (to : Option ℕ) (t : Trace) → (waited to (called t)).calls ≡ t.calls + 1
calls-waited none t = refl
calls-waited (some to) t = by_time (millis to)
  where
    by_time : (o : Option ℕ) → (timer_of o (called t)).calls ≡ t.calls + 1
    by_time none = refl
    by_time (some ms) = refl

retry-Settles :
    (to : Option ℕ) (n k : ℕ) (rs rest : List Result) (ws more : List Wait) (t : Trace)
    → overflows to ≡ false
    → Transient rs ws
    → NoTimerLeft t
    → k ≡ t.calls + length rs + 1
    → Settles n k (retry to (rs ++ value n ∷ rest) (ws ++ more) t)
unfolding retry
retry-Settles to n k _ rest _ more t fits none_left h e = (refl, omega (arith, e), h)
retry-Settles to n k _ rest _ more t fits (by_signal {rs} {ws} p) h e =
    retry-Settles to n k rs rest ws more (called t) fits p h (omega (arith, e))
retry-Settles to n k _ rest _ more t fits (by_wait {rs} {ws} p) h e = rw fits (
    retry-Settles to n k rs rest ws more (waited to (called t)) fits p (waited-NoTimerLeft to t h)
      (omega (arith, e, calls-waited to t)))

-- For an open socket under the hooks, whose timeout does not overflow, `io_func` retries interrupted calls and, behind each wait that
-- the event ends, calls that would block, and returns the first number that a call returns; it calls
-- the system once for each, and every timer that it makes is cancelled.
pub io_func-Settles :
    (c : FdCtx) (n : ℕ) (rs rest : List Result) (ws more : List Wait) (t : Trace)
    → c.is_closed ≡ false
    → c.is_socket ≡ true
    → overflows (timeout_of c) ≡ false
    → Transient rs ws
    → NoTimerLeft t
    → Settles n
        (t.calls + length rs + 1)
        (io_func true (some c) (rs ++ value n ∷ rest) (ws ++ more) t)
unfolding io_func get_timeout
io_func-Settles c n rs rest ws more t opened sock fits p h =
    rw (opened, sock) (retry-Settles (timeout_of c) n _ rs rest ws more t fits p h refl)
