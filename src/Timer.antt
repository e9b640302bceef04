-- ===== src/Timer.antt =====
-- time/timer.h and time/time.cpp: timers, and the manager that keeps them in a std::set by the time
-- at which they are due. A timer is known by its address; the current time is an argument. The
-- read and write locks are left out: each operation is one step.
pub mod Order
pub mod Expiry
pub mod Notify
pub mod Collect
pub mod Moved
pub mod Ordered
use co_kv.Prelude.{
  ℕ, zero, suc, ◌+◌, ◌-◌, ◌*◌, ◌%◌, ◌^◌, Bool, true, false, not, ◌&&◌, ◌||◌, Option, none, some,
  List, [], ◌∷◌, ◌++◌, ltb, leb, ◌==◌, if◌then◌else◌, is_some,
}
use co_kv.Prelude.Run.{Run, done, fault, Cmd, bind_run}

-- A callback is known by a number; `none` is an empty std::function.
pub record Timer : Type 0 where
  pub recurring : Bool
  pub ms : ℕ
  pub next : ℕ
  pub cb : Option ℕ

abbrev pub u64 : ℕ → ℕ
u64 n = n % 2 ^ 64

-- The timers in memory, the set `m_timers` in its order, `m_tickled`, `m_previouseTime`, and how
-- often `onTimerInsertedAtFront` has been called.
pub record Manager : Type 0 where
  pub object : ℕ → Timer
  pub timers : List ℕ
  pub tickled : Bool
  pub previouse_time : ℕ
  pub notified : ℕ

abbrev pub write : (ℕ → Timer) → ℕ → Timer → ℕ → Timer
write f p t q = if q == p then t else f q

-- `Timer::Comperator` on two timers that are not null: by the due time, then by the address.
unfoldable pub before : (ℕ → Timer) → ℕ → ℕ → Bool
before f a b =
    if ltb (f a).next (f b).next then true else if ltb (f b).next (f a).next then false else ltb a b

-- `m_timers.insert`: nothing happens if an equivalent timer is there.
unfoldable pub insert : (ℕ → Timer) → ℕ → List ℕ → List ℕ
insert f a [] = a ∷ []
insert f a (x ∷ xs) =
    let rest = x ∷ insert f a xs in
    if before f a x then a ∷ x ∷ xs else if before f x a then rest else x ∷ xs

-- `m_timers.find`, up to the order's equivalence.
unfoldable pub contains : (ℕ → Timer) → ℕ → List ℕ → Bool
contains f a [] = false
contains f a (x ∷ xs) = (not (before f a x) && not (before f x a)) || contains f a xs

-- `m_timers.erase(it)` for the place that `find` gives.
unfoldable pub erase : (ℕ → Timer) → ℕ → List ℕ → List ℕ
erase f a [] = []
erase f a (x ∷ xs) =
    let rest = x ∷ erase f a xs in if not (before f a x) && not (before f x a) then xs else rest

abbrev pub is_front : ℕ → List ℕ → Bool
is_front a [] = false
is_front a (x ∷ xs) = a == x

-- `TimerManager::addTimer(Timer::ptr, WriteLock&)`
unfoldable pub add : ℕ → Manager → Manager
add a m =
    let timers = insert m.object a m.timers in
    let at_front = is_front a timers && not m.tickled in
    if at_front
    then record m { timers = timers; tickled = true; notified = m.notified + 1 }
    else record m { timers = timers }

-- `TimerManager::addTimer(ms, cb, recurring)`, for the address `a` of the new timer.
unfoldable pub add_timer : ℕ → ℕ → ℕ → Option ℕ → Bool → Manager → Manager
add_timer now a ms cb recurring m =
    let t : Timer = record { recurring = recurring; ms = ms; next = u64 (now + ms); cb = cb } in
    add a (record m { object = write m.object a t })

abbrev pub clear_cb : Timer → Timer
clear_cb t = record t { cb = none }

-- `Timer::cancel`. For a timer without callback the function ends without a `return`.
unfoldable pub cancel : ℕ → Cmd Manager Bool
cancel a m =
    let cleared = record m { object = write m.object a (clear_cb (m.object a)) } in
    if is_some (m.object a).cb
    then (if contains cleared.object a m.timers
        then done true (record cleared { timers = erase cleared.object a m.timers })
        else done false cleared)
    else fault

-- `Timer::refresh`
unfoldable pub refresh : ℕ → ℕ → Manager → Bool × Manager
refresh now a m =
    let t = m.object a in
    if not (is_some t.cb)
    then (false, m)
    else if not (contains m.object a m.timers)
    then (false, m)
    else (
      true,
      add a (record m {
        object = write m.object a (record t { next = u64 (now + t.ms) });
        timers = erase m.object a m.timers;
      }),
    )

-- `Timer::reset`
unfoldable pub reset : ℕ → ℕ → ℕ → Bool → Manager → Bool × Manager
reset now a ms from_now m =
    let t = m.object a in
    let start = if from_now then now else u64 (t.next + 2 ^ 64 - t.ms) in
    if (ms == t.ms) && not from_now
    then (true, m)
    else if not (is_some t.cb)
    then (false, m)
    else if not (contains m.object a m.timers)
    then (false, m)
    else (
      true,
      add a (record m {
        object = write m.object a (record t { ms = ms; next = u64 (start + ms) });
        timers = erase m.object a m.timers;
      }),
    )

-- `TimerManager::getNextTimer`; `~0ull` if there is no timer.
unfoldable pub get_next_timer : ℕ → Manager → ℕ
get_next_timer now m = elim m.timers [
  | [] ↦ 2 ^ 64 - 1
  | x ∷ xs ↦ if leb (m.object x).next now then 0 else (m.object x).next - now
]

-- The front of a list as far as a test holds, and the rest.
unfoldable pub span : (ℕ → Bool) → List ℕ → List ℕ × List ℕ
span p [] = ([], [])
span p (x ∷ xs) = let (front, rest) = span p xs in if p x then (x ∷ front, rest) else ([], x ∷ xs)

-- Up to `lower_bound(now_timer)`, where `probe` is the address of the timer made for the search;
-- then on over the timers that are due at this very time.
unfoldable pub split_expired : (ℕ → Timer) → ℕ → ℕ → List ℕ → List ℕ × List ℕ
split_expired f now probe timers =
    let (earlier, others) =
      span (λ x. ltb (f x).next now || (((f x).next == now) && ltb x probe)) timers in
    let (equal, later) = span (λ x. (f x).next == now) others in (earlier ++ equal, later)

-- The body of the loop over the expired timers: a recurring one is added anew.
unfoldable pub renew : ℕ → ℕ → Manager → Manager
renew now a m =
    let t = m.object a in
    let again =
      add a (record m { object = write m.object a (record t { next = u64 (now + t.ms) }) }) in
    if t.recurring then again else record m { object = write m.object a (clear_cb t) }

-- The loop: the callbacks, and the manager behind it.
unfoldable pub collect : ℕ → List ℕ → Manager → List (Option ℕ) × Manager
collect now [] m = ([], m)
collect now (a ∷ rest) m =
    let (cbs, m') = collect now rest (renew now a m) in ((m.object a).cb ∷ cbs, m')

-- `TimerManager::listExpiredCb` for the timers in their order.
unfoldable pub expire_from : ℕ → ℕ → List ℕ → Manager → List (Option ℕ) × Manager
expire_from now probe [] m = ([], m)
expire_from now probe (x ∷ xs) m =
    let (expired, left) = split_expired m.object now probe (x ∷ xs) in
    collect now expired (record m { timers = left })

-- `TimerManager::listExpiredCb`
unfoldable pub list_expired_cb : ℕ → ℕ → Manager → List (Option ℕ) × Manager
list_expired_cb now probe m = expire_from now probe m.timers m

-- `TimerManager::detectClockRollover`, with its unsigned subtraction.
unfoldable pub detect_clock_rollover : ℕ → Manager → Bool × Manager
detect_clock_rollover now m = (
  ltb now m.previouse_time && ltb now (u64 (m.previouse_time + 2 ^ 64 - 60 * 60 * 1000)),
  record m { previouse_time = now },
)
