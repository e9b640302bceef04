-- ===== src/Timer/Notify.antt =====
-- How often the manager of time/time.cpp calls `onTimerInsertedAtFront`.
use co_kv.Prelude.{ℕ, ◌+◌, ◌≤◌, ◌≡◌, refl, Bool, true, List, [], ◌∷◌, Option, arith, if◌then◌else◌}
use co_kv.Prelude.Run.{done}
use co_kv.Timer.{
  Timer, Manager, add, add_timer, cancel, refresh, reset, renew, collect, expire_from,
  list_expired_cb, split_expired, detect_clock_rollover, u64, write,
}

-- The operations of timers and of their manager.
pub data Step : Manager → Manager → Type 0 where
  adds :
      (now a ms : ℕ) (cb : Option ℕ) (r : Bool) (m : Manager) → Step m (add_timer now a ms cb r m)
  cancels : (a : ℕ) (b : Bool) (m m' : Manager) → cancel a m ≡ done b m' → Step m m'
  refreshes : (now a : ℕ) (m : Manager) → Step m (refresh now a m).1
  resets : (now a ms : ℕ) (f : Bool) (m : Manager) → Step m (reset now a ms f m).1
  expires : (now probe : ℕ) (m : Manager) → Step m (list_expired_cb now probe m).1
  rolls : (now : ℕ) (m : Manager) → Step m (detect_clock_rollover now m).1

pub data Steps (m : Manager) : Manager → Type 0 where
  here : Steps m m
  next : {m' m'' : Manager} → Steps m m' → Step m' m'' → Steps m m''

-- The flag and the count go together.
abbrev pub Told : Manager → Type 0
Told m = m.notified ≡ (if m.tickled then 1 else 0)

-- From the first manager to the second nothing is told once the flag is set.
pub record Quiet (m m' : Manager) : Type 0 where
  pub stays : m.tickled ≡ true → (m'.tickled ≡ true) × (m'.notified ≡ m.notified)
  pub told : Told m → Told m'

Quiet-trans : {m m' m'' : Manager} → Quiet m m' → Quiet m' m'' → Quiet m m''
Quiet-trans p q = record {
  stays = λ h. ground (arith, p.stays h, q.stays (p.stays h).0);
  told = λ h. q.told (p.told h);
}

-- A change of the timers alone.
Quiet-edit :
    (m : Manager) (f : ℕ → Timer) (ts : List ℕ) (p : ℕ)
    → Quiet m (record m { object = f; timers = ts; previouse_time = p })
Quiet-edit m f ts p = record { stays = λ h. (h, refl); told = λ h. h }

add-Quiet : (a : ℕ) (m : Manager) → Quiet m (add a m)
unfolding add
add-Quiet a m = record { stays = λ h. ground (arith, h); told = λ h. ground (arith, h) }

renew-Quiet : (now a : ℕ) (m : Manager) → Quiet m (renew now a m)
unfolding renew add
renew-Quiet now a m = record { stays = λ h. ground (arith, h); told = λ h. ground (arith, h) }

collect-Quiet : (now : ℕ) (es : List ℕ) (m : Manager) → Quiet m (collect now es m).1
unfolding collect
collect-Quiet now [] m = Quiet-edit m m.object m.timers m.previouse_time
collect-Quiet now (a ∷ es) m =
    Quiet-trans (renew-Quiet now a m) (collect-Quiet now es (renew now a m))

cancel-Quiet : (a : ℕ) (b : Bool) (m m' : Manager) → cancel a m ≡ done b m' → Quiet m m'
unfolding cancel
cancel-Quiet a b m m' e = record {
  stays = λ h. ground (arith, e, h);
  told = λ h. ground (arith, e, h);
}

refresh-Quiet : (now a : ℕ) (m : Manager) → Quiet m (refresh now a m).1
unfolding refresh add
refresh-Quiet now a m = record { stays = λ h. ground (arith, h); told = λ h. ground (arith, h) }

reset-Quiet : (now a ms : ℕ) (f : Bool) (m : Manager) → Quiet m (reset now a ms f m).1
unfolding reset add
reset-Quiet now a ms f m = record { stays = λ h. ground (arith, h); told = λ h. ground (arith, h) }

expire_from-Quiet :
    (now probe : ℕ) (ts : List ℕ) (m : Manager) → Quiet m (expire_from now probe ts m).1
unfolding expire_from
expire_from-Quiet now probe [] m = Quiet-edit m m.object m.timers m.previouse_time
expire_from-Quiet now probe (t ∷ ts) m =
    let (expired, left) = split_expired m.object now probe (t ∷ ts) in
    Quiet-trans (Quiet-edit m m.object left m.previouse_time) (collect-Quiet now expired _)

expires-Quiet : (now probe : ℕ) (m : Manager) → Quiet m (list_expired_cb now probe m).1
unfolding list_expired_cb
expires-Quiet now probe m = expire_from-Quiet now probe m.timers m

Step-Quiet : {m m' : Manager} → Step m m' → Quiet m m'
unfolding add_timer detect_clock_rollover
Step-Quiet (adds now a ms cb r m) =
    Quiet-trans
      (Quiet-edit m
        (write m.object a (record { recurring = r; ms = ms; next = u64 (now + ms); cb = cb }))
        m.timers m.previouse_time)
      (add-Quiet a _)
Step-Quiet (cancels a b m m' e) = cancel-Quiet a b m m' e
Step-Quiet (refreshes now a m) = refresh-Quiet now a m
Step-Quiet (resets now a ms f m) = reset-Quiet now a ms f m
Step-Quiet (expires now probe m) = expires-Quiet now probe m
Step-Quiet (rolls now m) = Quiet-edit m m.object m.timers now

Steps-Quiet : {m m' : Manager} → Steps m m' → Quiet m m'
Steps-Quiet {m} here = Quiet-edit m m.object m.timers m.previouse_time
Steps-Quiet (next r s) = Quiet-trans (Steps-Quiet r) (Step-Quiet s)

-- Once `m_tickled` is set, no sequence of operations calls `onTimerInsertedAtFront` again, whatever
-- timers it puts first; and from a manager that has called it at most once it is called at most once.
pub notified_once :
    {m m' : Manager}
    → Steps m m'
    → (m.tickled ≡ true → (m'.tickled ≡ true) × (m'.notified ≡ m.notified))
      × (Told m → m'.notified ≤ 1)
notified_once r = ((Steps-Quiet r).stays, λ h. ground (arith, (Steps-Quiet r).told h))
