-- ===== src/Thread.antt =====
-- thread/thread.h and thread/thread.cpp, with SemaphoreLock of lock/lock.h: a thread that is made, and
-- the one that makes it. Each of them goes on step by step; the kernel chooses whose step is next.
pub mod Handshake
use co_kv.Prelude.{
  ℕ, zero, suc, ◌+◌, ◌-◌, Bool, true, false, Option, none, some, List, [], ◌∷◌, ◌++◌,
}

-- A sem_t as its count: `wait` needs a count above 0, `notify` adds one.
unfoldable pub wait : ℕ → Option ℕ
wait zero = none
wait (suc n) = some n

unfoldable pub notify : ℕ → ℕ
notify n = n + 1

-- `SemaphoreLock(count)`, for whether `sem_init` succeeds; `none` is the exception.
unfoldable pub construct_semaphore : Bool → ℕ → Option ℕ
construct_semaphore true count = some count
construct_semaphore false count = none

-- Where the maker stands: before `pthread_create`, before `m_semaphore.wait()`, behind the constructor,
-- or behind a `join`.
pub data Maker : Type 0 where
  creating waiting made joined : Maker

-- Where `run` stands: not begun, before `m_id = ...`, before the swap of `m_cb`, before the `notify`,
-- before the call of the callback, behind it.
pub data Runner : Type 0 where
  unborn begun named swapped notified finished : Runner

-- The members of the Thread that the two share, the local `cb` of `run`, and the callbacks called.
pub record Pair : Type 0 where
  pub maker : Maker
  pub runner : Runner
  pub semaphore : ℕ
  pub id : Option ℕ
  pub cb : Option ℕ
  pub local_cb : Option ℕ
  pub called : List ℕ

-- `Thread(cb)` at its start, behind the initialisation of the members.
unfoldable pub construct : ℕ → Pair
construct f = record {
  maker = creating;
  runner = unborn;
  semaphore = 0;
  id = none;
  cb = some f;
  local_cb = none;
  called = [];
}

abbrev pub waited : Option ℕ → Pair → Option Pair
waited none t = none
waited (some n) t = some (record t { maker = made; semaphore = n })

-- `pthread_join`, which comes back when `run` has returned.
unfoldable pub join : Runner → Pair → Option Pair
join finished t = some (record t { maker = joined })
join _ t = none

-- The next step of the maker, `none` where it has to wait or has nothing left.
unfoldable pub maker_step : Maker → Pair → Option Pair
unfolding wait join
maker_step creating t = some (record t { maker = waiting; runner = begun })
maker_step waiting t = waited (wait t.semaphore) t
maker_step made t = join t.runner t
maker_step joined t = none

abbrev pub call : Option ℕ → List ℕ → List ℕ
call none fs = fs
call (some f) fs = fs ++ f ∷ []

-- The next step of `run`, for the number of its thread.
unfoldable pub runner_step : ℕ → Runner → Pair → Option Pair
unfolding notify
runner_step me unborn t = none
runner_step me begun t = some (record t { runner = named; id = some me })
runner_step me named t = some (record t { runner = swapped; cb = t.local_cb; local_cb = t.cb })
runner_step me swapped t = some (record t { runner = notified; semaphore = notify t.semaphore })
runner_step me notified t = some (record t { runner = finished; called = call t.local_cb t.called })
runner_step me finished t = none
