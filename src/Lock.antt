-- ===== src/Lock.antt =====
-- lock/lock.h: the scoped locks over a mutex or a read-write lock. The locks of pthread are an
-- interface, with what their documentation says as laws.
pub mod Exclusion
pub mod Mutual
use co_kv.Prelude.{
  ℕ, zero, suc, ◌+◌, ◌<◌, ◌≡◌, Bool, true, false, Option, none, some, List, [], ◌∷◌, ◌++◌,
  if◌then◌else◌,
}

-- A lock that is taken and released: `none` where the caller would wait.
pub record Lockable (S : Type 0) : Type 0 where
  pub take : S → Option S
  pub release : S → S

-- `NullMutex`, and each side of `NullRWMutex`.
abbrev pub null_mutex : {S : Type 0} → Lockable S
null_mutex = record { take = λ s. some s; release = λ s. s }

-- `CASLock`, on its flag: one round of the loop of `lock` that sees the flag clear; the other rounds
-- change nothing.
abbrev pub cas_lock : Lockable Bool
cas_lock = record { take = λ b. if b then none else some true; release = λ b. false }

-- A pthread_rwlock_t, with the number of its readers and whether it has a writer.
pub record RwLock (S : Type 0) : Type 0 where
  pub rdlock : S → Option S
  pub wrlock : S → Option S
  pub unlock : S → S
  pub readers : S → ℕ
  pub writing : S → Bool
  pub rdlock_lem :
      (s s' : S)
      → rdlock s ≡ some s'
      → (writing s ≡ false) × (readers s' ≡ readers s + 1) × (writing s' ≡ false)
  pub wrlock_lem :
      (s s' : S)
      → wrlock s ≡ some s'
      → (writing s ≡ false) × (readers s ≡ 0) × (readers s' ≡ 0) × (writing s' ≡ true)
  pub unlock_writer :
      (s : S) → writing s ≡ true → (writing (unlock s) ≡ false) × (readers (unlock s) ≡ readers s)
  pub unlock_reader :
      (s : S)
      → writing s ≡ false
      → 0 < readers s
      → (writing (unlock s) ≡ false) × (readers (unlock s) + 1 ≡ readers s)

-- The sides of `RWMutex` that the two kinds of scoped lock use.
pub data Kind : Type 0 where
  reader writer : Kind

abbrev pub side : {S : Type 0} → RwLock S → Kind → Lockable S
side l reader = record { take = l.rdlock; release = l.unlock }
side l writer = record { take = l.wrlock; release = l.unlock }

abbrev pub mark : {S : Type 0} → Option S → Option (Bool × S)
mark none = none
mark (some s) = some (true, s)

module _ {S : Type 0} (l : Lockable S) where
  -- `lock()` of a read or a write lock, on `m_locked` and the mutex.
  unfoldable pub scoped_lock : Bool → S → Option (Bool × S)
  scoped_lock locked s = if locked then some (true, s) else mark (l.take s)

  -- `unlock()` of a read or a write lock.
  unfoldable pub scoped_unlock : Bool → S → Bool × S
  scoped_unlock locked s = if locked then (false, l.release s) else (false, s)

  -- `ScopedLockImpl::lock` and `ScopedLockImpl::unlock`
  unfoldable pub impl_lock : Bool → S → Option (Bool × S)
  impl_lock locked s = if locked then some (true, s) else mark (l.take s)

  unfoldable pub impl_unlock : Bool → S → Bool × S
  impl_unlock locked s = if locked then (false, l.release s) else (false, s)

  -- `ScopedLockImpl(mutex)`, for the value that the uninitialised `m_locked` has, and its destructor.
  unfoldable pub construct_scoped : Bool → S → Option (Bool × S)
  unfolding impl_lock
  construct_scoped found s = impl_lock found s

  unfoldable pub destroy_scoped : Bool → S → S
  unfolding impl_unlock
  destroy_scoped locked s = (impl_unlock locked s).1

  -- `ReadScopedLockImpl(mutex)` and `WriteScopedLockImpl(mutex)`, whose `m_locked` starts as false.
  unfoldable pub construct : S → Option (Bool × S)
  unfolding scoped_lock
  construct s = scoped_lock false s

  -- The destructor of a scoped lock.
  unfoldable pub destroy : Bool → S → S
  unfolding scoped_unlock
  destroy locked s = (scoped_unlock locked s).1
