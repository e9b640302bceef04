-- ===== src/Examples/Locks.antt =====
-- A read-write lock (lock/lock.h), and two threads that use it.
use co_kv.Prelude.{
  ℕ, ◌+◌, ◌-◌, ◌≤◌, ◌<◌, ◌≡◌, refl, sym, ap, zero, suc, Bool, true, false, Option, none, some, [],
  ◌∷◌, arith,
}
use co_kv.Lock.{RwLock, reader, construct, scoped_lock, scoped_unlock, destroy}
use co_kv.Lock.{construct_scoped, impl_lock, impl_unlock}
use co_kv.Lock.Mutual
use co_kv.Lock.Mutual.{Owners, Turns, cas, count, Turns-exclusive}
use co_kv.Lock.Exclusion.{
  bit, System, opens, unlocks, closes, Reach, here, next, Counts, reads, writes, total,
  Reach-exclusive,
}

data Cell : Type 0 where
  shared : ℕ → Cell
  held : Cell

abbrev take_read : Cell → Option Cell
take_read (shared n) = some (shared (n + 1))
take_read held = none

abbrev take_write : Cell → Option Cell
take_write (shared zero) = some held
take_write (shared (suc n)) = none
take_write held = none

abbrev give : Cell → Cell
give (shared n) = shared (n - 1)
give held = shared 0

abbrev sharing : Cell → ℕ
sharing (shared n) = n
sharing held = 0

abbrev busy : Cell → Bool
busy (shared n) = false
busy held = true

take_read_lem :
    (s s' : Cell)
    → take_read s ≡ some s'
    → (busy s ≡ false) × (sharing s' ≡ sharing s + 1) × (busy s' ≡ false)
take_read_lem (shared n) s' e =
    let f : shared (n + 1) ≡ s' = cc in (refl, ap sharing (sym f), ap busy (sym f))
take_read_lem held s' e = absurd (cc)

take_write_lem :
    (s s' : Cell)
    → take_write s ≡ some s'
    → (busy s ≡ false) × (sharing s ≡ 0) × (sharing s' ≡ 0) × (busy s' ≡ true)
take_write_lem (shared zero) s' e =
    let f : held ≡ s' = cc in (refl, refl, ap sharing (sym f), ap busy (sym f))
take_write_lem (shared (suc n)) s' e = absurd (cc)
take_write_lem held s' e = absurd (cc)

give_writer : (s : Cell) → busy s ≡ true → (busy (give s) ≡ false) × (sharing (give s) ≡ sharing s)
give_writer (shared n) h = absurd (cc)
give_writer held h = (refl, refl)

give_reader :
    (s : Cell)
    → busy s ≡ false
    → 0 < sharing s
    → (busy (give s) ≡ false) × (sharing (give s) + 1 ≡ sharing s)
give_reader (shared n) h k = (refl, omega arith)
give_reader held h k = absurd (cc)

abbrev plain : RwLock Cell
plain = record {
  rdlock = take_read;
  wrlock = take_write;
  unlock = give;
  readers = sharing;
  writing = busy;
  rdlock_lem = take_read_lem;
  wrlock_lem = take_write_lem;
  unlock_writer = give_writer;
  unlock_reader = give_reader;
}

abbrev quiet : System Cell
quiet = record { mutex = shared 0; guards = [] }

-- Two readers come, the first is destroyed, and the other unlocks.
abbrev one_left : System Cell
one_left = record { mutex = shared 0; guards = (reader, false) ∷ [] }

readers_come : Reach plain quiet one_left
unfolding construct scoped_lock scoped_unlock destroy
readers_come =
    next
      (next
        (next (next here (opens reader true (shared 1) refl)) (opens reader true (shared 2) refl))
        (closes ((reader, true) ∷ []) [] reader true refl))
      (unlocks [] [] reader true refl)

Reach-exclusive_example :
    Counts plain one_left
    × (total writes one_left.guards ≤ 1)
    × (total writes one_left.guards ≡ 1 → total reads one_left.guards ≡ 0)
Reach-exclusive_example = Reach-exclusive plain (shared 0) refl refl readers_come

-- One thread holds an atomic lock, unlocks it, and another takes it.
abbrev taken_over : Owners Bool
taken_over = record { mutex = true; locked = true ∷ false ∷ [] }

takes_over : Turns cas (record { mutex = false; locked = [] }) taken_over
unfolding construct_scoped impl_lock impl_unlock
takes_over =
    Mutual.next
      (Mutual.next (Mutual.next Mutual.here (Mutual.opens true true refl))
        (Mutual.unlocks [] [] true refl))
      (Mutual.opens true true refl)

Turns-exclusive_example : (count (true ∷ false ∷ []) ≤ 1) × (bit true ≡ count (true ∷ false ∷ []))
Turns-exclusive_example = Turns-exclusive cas false refl takes_over
