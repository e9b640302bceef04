-- ===== src/Lock/Mutual.antt =====
-- The scoped locks over a mutex, a spinlock or the atomic lock of lock/lock.h (ScopedLockImpl), used by any
-- threads. The locks of pthread are an interface; the atomic lock fills it.
use co_kv.Prelude.{
  ℕ, ◌+◌, ◌≤◌, ◌≡◌, refl, sym, ◌∙◌, ap, Bool, true, false, Option, none, some, List, [], ◌∷◌, ◌++◌,
  subst, arith,
}
use co_kv.Lock.{
  Lockable, cas_lock, RwLock, writer, scoped_lock, scoped_unlock, construct, construct_scoped,
  impl_lock, impl_unlock, destroy_scoped, destroy,
}
use co_kv.Lock.Exclusion
use co_kv.Lock.Exclusion.{System, Guards, bit, writes, total, Reach, Reach-exclusive}

-- A lock that one holder takes at a time: pthread_mutex_t and pthread_spinlock_t.
pub record Exclusive (S : Type 0) : Type 0 where
  pub lock : S → Option S
  pub unlock : S → S
  pub held : S → Bool
  pub lock_lem : (s s' : S) → lock s ≡ some s' → (held s ≡ false) × (held s' ≡ true)
  pub unlock_lem : (s : S) → held s ≡ true → held (unlock s) ≡ false

-- `Mutex`, `Spinlock` and `CASLock`, with their `lock` and `unlock`.
abbrev pub lockable : {S : Type 0} → Exclusive S → Lockable S
lockable l = record { take = l.lock; release = l.unlock }

pub cas_take : (s s' : Bool) → cas_lock.take s ≡ some s' → (s ≡ false) × (s' ≡ true)
cas_take true s' e = absurd (cc)
cas_take false s' e = let f : true ≡ s' = cc in (refl, sym f)

-- `CASLock` keeps what pthread promises of the others.
abbrev pub cas : Exclusive Bool
cas = record {
  lock = cas_lock.take;
  unlock = cas_lock.release;
  held = λ b. b;
  lock_lem = cas_take;
  unlock_lem = λ s h. refl;
}

-- The lock, and the `m_locked` of the ScopedLockImpl objects that are alive.
pub record Owners (S : Type 0) : Type 0 where
  pub mutex : S
  pub locked : List Bool

abbrev pub count : List Bool → ℕ
count [] = 0
count (b ∷ bs) = bit b + count bs

module _ {S : Type 0} (l : Exclusive S) where
  -- One step of some thread. A new object finds false in `m_locked`.
  pub data Turn (s : Owners S) : Owners S → Type 0 where
    opens :
        (b : Bool) (m : S)
        → construct_scoped (lockable l) false s.mutex ≡ some (b, m)
        → Turn s (record { mutex = m; locked = b ∷ s.locked })
    locks :
        (xs ys : List Bool) (b b' : Bool) (m : S)
        → s.locked ≡ xs ++ b ∷ ys
        → impl_lock (lockable l) b s.mutex ≡ some (b', m)
        → Turn s (record { mutex = m; locked = xs ++ b' ∷ ys })
    unlocks :
        (xs ys : List Bool) (b : Bool)
        → s.locked ≡ xs ++ b ∷ ys
        → Turn s (record {
          mutex = (impl_unlock (lockable l) b s.mutex).1;
          locked = xs ++ (impl_unlock (lockable l) b s.mutex).0 ∷ ys;
        })
    closes :
        (xs ys : List Bool) (b : Bool)
        → s.locked ≡ xs ++ b ∷ ys
        → Turn s (record { mutex = destroy_scoped (lockable l) b s.mutex; locked = xs ++ ys })

  pub data Turns (s : Owners S) : Owners S → Type 0 where
    here : Turns s s
    next : {t u : Owners S} → Turns s t → Turn t u → Turns s u

  -- The lock as a read-write lock without readers.
  abbrev as_writer : RwLock S
  as_writer = record {
    rdlock = λ s. none;
    wrlock = l.lock;
    unlock = l.unlock;
    readers = λ s. 0;
    writing = l.held;
    rdlock_lem = λ s s' e. absurd (cc);
    wrlock_lem = λ s s' e. (let (a, b) = l.lock_lem s s' e in (a, refl, refl, b));
    unlock_writer = λ s h. (l.unlock_lem s h, refl);
    unlock_reader = λ s h k. absurd (omega arith);
  }

abbrev guards : List Bool → Guards
guards [] = []
guards (b ∷ bs) = (writer, b) ∷ guards bs

guards-append : (xs ys : List Bool) → guards (xs ++ ys) ≡ guards xs ++ guards ys
guards-append [] ys = refl
guards-append (x ∷ xs) ys = ap (λ (gs : Guards). (writer, x) ∷ gs) (guards-append xs ys)

total-guards : (bs : List Bool) → total writes (guards bs) ≡ count bs
total-guards [] = refl
total-guards (b ∷ bs) = ap (λ (n : ℕ). bit b + n) (total-guards bs)

abbrev lift : {S : Type 0} → Owners S → System S
lift s = record { mutex = s.mutex; guards = guards s.locked }

module _ {S : Type 0} (l : Exclusive S) where
  -- The objects as write locks, one replaced by others.
  placed :
      (s : Owners S) (m : S) (xs bs ys : List Bool)
      → Exclusion.Step
          (as_writer l)
          (lift s)
          (record { mutex = m; guards = guards xs ++ (guards (bs ++ ys)) })
      → Exclusion.Step
          (as_writer l)
          (lift s)
          (lift (record { mutex = m; locked = xs ++ (bs ++ ys) }))
  placed s m xs bs ys st =
      subst (λ gs. Exclusion.Step (as_writer l) (lift s) (record { mutex = m; guards = gs }))
        (sym (guards-append xs (bs ++ ys))) st

  Turn-Step : {s t : Owners S} → Turn l s t → Exclusion.Step (as_writer l) (lift s) (lift t)
  unfolding construct construct_scoped destroy_scoped destroy impl_lock impl_unlock scoped_lock
      scoped_unlock
  Turn-Step {s} (opens b m e) = Exclusion.opens writer b m e
  Turn-Step {s} (locks xs ys b b' m g e) = placed s m xs (b' ∷ []) ys (
      Exclusion.locks (guards xs) (guards ys) writer b b' m
        (ap guards g ∙ guards-append xs (b ∷ ys)) e)
  Turn-Step {s} (unlocks xs ys b g) =
      placed s (impl_unlock (lockable l) b s.mutex).1 xs
        ((impl_unlock (lockable l) b s.mutex).0 ∷ []) ys
        (Exclusion.unlocks (guards xs) (guards ys) writer b
          (ap guards g ∙ guards-append xs (b ∷ ys)))
  Turn-Step {s} (closes xs ys b g) =
      placed s (destroy_scoped (lockable l) b s.mutex) xs [] ys (
        Exclusion.closes (guards xs) (guards ys) writer b (ap guards g ∙ guards-append xs (b ∷ ys)))

  Turns-Reach : {s t : Owners S} → Turns l s t → Reach (as_writer l) (lift s) (lift t)
  Turns-Reach here = Exclusion.here
  Turns-Reach (next r st) = Exclusion.next (Turns-Reach r) (Turn-Step st)

  -- From a lock that nobody holds, whatever scoped locks over it the threads make, lock, unlock and
  -- destroy, in any order: at most one of them is locked, and the lock is held just where one is. The
  -- condition: each finds false in the member that its constructor leaves as it is.
  pub Turns-exclusive :
      (m : S) {t : Owners S}
      → l.held m ≡ false
      → Turns l (record { mutex = m; locked = [] }) t
      → (count t.locked ≤ 1) × (bit (l.held t.mutex) ≡ count t.locked)
  Turns-exclusive m {t} h steps =
      let (c, one, _) = Reach-exclusive (as_writer l) m refl h (Turns-Reach steps) in
      (omega (arith, one, total-guards t.locked), c.writers ∙ total-guards t.locked)
