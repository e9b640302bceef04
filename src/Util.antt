-- ===== src/Util.antt =====
-- util/util.h and util/util.cpp: the time in milliseconds. What `gettimeofday` says is an argument.
use co_kv.Prelude.{ℕ, ◌+◌, ◌*◌, ◌/◌, ◌%◌, ◌^◌, ◌≤◌, ◌<◌, arith}

-- A timeval; `tv_usec` is below a million.
pub record TimeVal : Type 0 where
  pub tv_sec : ℕ
  pub tv_usec : ℕ

-- `GetCurrentMS`, with the wrap-around of a uint64_t.
unfoldable pub get_current_ms : TimeVal → ℕ
get_current_ms t = (t.tv_sec * 1000 % 2 ^ 64 + t.tv_usec / 1000) % 2 ^ 64

-- Below 2 ^ 64 milliseconds nothing wraps around, and what is left out is less than a millisecond.
pub get_current_ms-bounds :
    (t : TimeVal)
    → t.tv_sec * 1000 + t.tv_usec / 1000 < 2 ^ 64
    → (get_current_ms t * 1000 ≤ t.tv_sec * 1000000 + t.tv_usec)
      × (t.tv_sec * 1000000 + t.tv_usec < get_current_ms t * 1000 + 1000)
unfolding get_current_ms
get_current_ms-bounds t h = (omega arith, omega arith)

-- Time that does not go back is not read as going back.
pub get_current_ms_mono :
    (t u : TimeVal)
    → u.tv_sec * 1000 + u.tv_usec / 1000 < 2 ^ 64
    → t.tv_usec < 1000000
    → u.tv_usec < 1000000
    → t.tv_sec * 1000000 + t.tv_usec ≤ u.tv_sec * 1000000 + u.tv_usec
    → get_current_ms t ≤ get_current_ms u
unfolding get_current_ms
get_current_ms_mono t u h a b k = omega arith
