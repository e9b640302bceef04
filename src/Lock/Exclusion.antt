-- ===== src/Lock/Exclusion.antt =====
-- Readers and a writer exclude each other, whatever the scoped locks of lock/lock.h do.
use co_kv.Prelude.{
  ℕ, ◌+◌, ◌≤◌, ◌<◌, ◌≡◌, refl, sym, ◌∙◌, ap, subst, Bool, true, false, Option, none, some, List, [],
  ◌∷◌, ◌++◌, arith, Bool-cases, inl, inr,
}
use co_kv.Lock.{
  RwLock, Kind, reader, writer, side, mark, scoped_lock, scoped_unlock, construct, destroy,
}

-- The scoped locks that are alive, with their `m_locked`.
abbrev pub Guards : Type 0
Guards = List (Kind × Bool)

-- The lock and the scoped locks of all threads.
pub record System (S : Type 0) : Type 0 where
  pub mutex : S
  pub guards : Guards

abbrev pub bit : Bool → ℕ
bit true = 1
bit false = 0

abbrev pub reads : Kind × Bool → ℕ
reads (reader, b) = bit b
reads (writer, b) = 0

abbrev pub writes : Kind × Bool → ℕ
writes (reader, b) = 0
writes (writer, b) = bit b

abbrev pub total : (Kind × Bool → ℕ) → Guards → ℕ
total f [] = 0
total f (g ∷ gs) = f g + total f gs

total-append : (f : Kind × Bool → ℕ) (xs ys : Guards) → total f (xs ++ ys) ≡ total f xs + total f ys
total-append f [] ys = omega arith
total-append f (x ∷ xs) ys = omega (arith, total-append f xs ys)

module _ {S : Type 0} (l : RwLock S) where
  -- One step of some thread: a scoped lock is made, locked, unlocked or destroyed.
  pub data Step (s : System S) : System S → Type 0 where
    opens :
        (k : Kind) (b : Bool) (m : S)
        → construct (side l k) s.mutex ≡ some (b, m)
        → Step s (record { mutex = m; guards = (k, b) ∷ s.guards })
    locks :
        (xs ys : Guards) (k : Kind) (b b' : Bool) (m : S)
        → s.guards ≡ xs ++ (k, b) ∷ ys
        → scoped_lock (side l k) b s.mutex ≡ some (b', m)
        → Step s (record { mutex = m; guards = xs ++ (k, b') ∷ ys })
    unlocks :
        (xs ys : Guards) (k : Kind) (b : Bool)
        → s.guards ≡ xs ++ (k, b) ∷ ys
        → Step s (record {
          mutex = (scoped_unlock (side l k) b s.mutex).1;
          guards = xs ++ (k, (scoped_unlock (side l k) b s.mutex).0) ∷ ys;
        })
    closes :
        (xs ys : Guards) (k : Kind) (b : Bool)
        → s.guards ≡ xs ++ (k, b) ∷ ys
        → Step s (record { mutex = destroy (side l k) b s.mutex; guards = xs ++ ys })

  pub data Reach (s : System S) : System S → Type 0 where
    here : Reach s s
    next : {t u : System S} → Reach s t → Step t u → Reach s u

  -- The lock counts the scoped locks that are locked, and a writer is alone.
  pub record Counts (s : System S) : Type 0 where
    pub readers : l.readers s.mutex ≡ total reads s.guards
    pub writers : bit (l.writing s.mutex) ≡ total writes s.guards
    pub alone : l.writing s.mutex ≡ true → l.readers s.mutex ≡ 0

  -- What a change of one scoped lock does to the counts.
  record Moves (m m' : S) (r w r' w' : ℕ) : Type 0 where
    reads : l.readers m' + r ≡ l.readers m + r'
    writes : bit (l.writing m') + w ≡ bit (l.writing m) + w'
    alone : l.writing m' ≡ true → l.readers m' ≡ 0

  take-Moves :
      (k : Kind) (m m' : S)
      → (side l k).take m ≡ some m'
      → Moves m m' 0 0 (reads (k, true)) (writes (k, true))
  take-Moves reader m m' e =
      let (a, b, c) = l.rdlock_lem m m' e in
      record { reads = omega (arith, b); writes = rw (a, c) refl; alone = λ h. absurd (cc) }
  take-Moves writer m m' e =
      let (a, b, c, d) = l.wrlock_lem m m' e in
      record { reads = omega (arith, b, c); writes = rw (a, d) refl; alone = λ h. c }

  release-Moves :
      (k : Kind) (s : System S)
      → Counts s
      → 0 < total reads s.guards + total writes s.guards
      → (reads (k, true) ≤ total reads s.guards)
      → (writes (k, true) ≤ total writes s.guards)
      → Moves s.mutex (l.unlock s.mutex) (reads (k, true)) (writes (k, true)) 0 0
  release-Moves reader s c some_held r w = elim (Bool-cases (l.writing s.mutex)) [
    | inl h ↦ absurd (omega (arith, c.readers, c.alone h))
    | inr h ↦
        let (a, b) = l.unlock_reader s.mutex h (omega (arith, c.readers)) in
        record { reads = omega (arith, b); writes = rw (a, h) refl; alone = λ x. absurd (cc) }
  ]
  release-Moves writer s c some_held r w = elim (Bool-cases (l.writing s.mutex)) [
    | inl h ↦
        let (a, b) = l.unlock_writer s.mutex h in
        record { reads = omega (arith, b); writes = rw (a, h) refl; alone = λ x. absurd (cc) }
    | inr h ↦ absurd (omega (arith, c.writers, ap bit h))
  ]

  Moves-none : (s : System S) (r w : ℕ) → Counts s → Moves s.mutex s.mutex r w r w
  Moves-none s r w c = record { reads = refl; writes = refl; alone = c.alone }

  -- One scoped lock is replaced by others.
  Moves-Counts :
      (s : System S) (xs gs gs' ys : Guards) (m' : S)
      → Counts s
      → s.guards ≡ xs ++ (gs ++ ys)
      → Moves s.mutex m' (total reads gs) (total writes gs) (total reads gs') (total writes gs')
      → Counts (record { mutex = m'; guards = xs ++ (gs' ++ ys) })
  Moves-Counts s xs gs gs' ys m' c e v = record {
    readers =
        omega (arith, c.readers, v.reads, ap (total reads) e, parts reads gs, parts reads gs');
    writers =
        omega (arith, c.writers, v.writes, ap (total writes) e, parts writes gs, parts writes gs');
    alone = v.alone;
  }
    where
      parts :
          (f : Kind × Bool → ℕ) (hs : Guards)
          → total f (xs ++ (hs ++ ys)) ≡ total f xs + (total f hs + total f ys)
      parts f hs = omega (arith, total-append f xs (hs ++ ys), total-append f hs ys)

  -- What `lock` of a scoped lock ends with, if it does.
  abbrev Locking : Kind → S → Bool → Option (Bool × S) → Type 0
  Locking k m b none = Unit
  Locking k m b (some (b', m')) =
      Moves m m' (reads (k, b)) (writes (k, b)) (reads (k, b')) (writes (k, b'))

  mark-Locking :
      (k : Kind) (m : S) (o : Option S) → (side l k).take m ≡ o → Locking k m false (mark o)
  mark-Locking k m none e = tt
  mark-Locking reader m (some m') e = take-Moves reader m m' e
  mark-Locking writer m (some m') e = take-Moves writer m m' e

  lock-Locking :
      (k : Kind) (s : System S) (b : Bool)
      → Counts s
      → Locking k s.mutex b (scoped_lock (side l k) b s.mutex)
  unfolding scoped_lock
  lock-Locking k s true c = Moves-none s (reads (k, true)) (writes (k, true)) c
  lock-Locking k s false c = mark-Locking k s.mutex ((side l k).take s.mutex) refl

  held :
      (f : Kind × Bool → ℕ) (xs ys gs : Guards) (g : Kind × Bool)
      → gs ≡ xs ++ g ∷ ys
      → f g ≤ total f gs
  held f xs ys gs g e = omega (arith, ap (total f) e, total-append f xs (g ∷ ys))

  unlock-Moves :
      (k : Kind) (s : System S) (xs ys : Guards) (b : Bool)
      → Counts s
      → s.guards ≡ xs ++ (k, b) ∷ ys
      → Moves s.mutex (scoped_unlock (side l k) b s.mutex).1 (reads (k, b)) (writes (k, b)) 0 0
  unfolding scoped_unlock
  unlock-Moves reader s xs ys true c e =
      release-Moves reader s c (omega (arith, held reads xs ys s.guards (reader, true) e))
        (held reads xs ys s.guards (reader, true) e) (omega arith)
  unlock-Moves writer s xs ys true c e =
      release-Moves writer s c (omega (arith, held writes xs ys s.guards (writer, true) e))
        (omega arith) (held writes xs ys s.guards (writer, true) e)
  unlock-Moves reader s xs ys false c e = Moves-none s 0 0 c
  unlock-Moves writer s xs ys false c e = Moves-none s 0 0 c

  off-total :
      (k : Kind) (b : Bool) (m : S)
      → (reads (k, (scoped_unlock (side l k) b m).0) ≡ 0)
        × (writes (k, (scoped_unlock (side l k) b m).0) ≡ 0)
  unfolding scoped_unlock
  off-total reader true m = (refl, refl)
  off-total reader false m = (refl, refl)
  off-total writer true m = (refl, refl)
  off-total writer false m = (refl, refl)

  singles :
      {m m' : S} {r w r' w' a b a' b' : ℕ}
      → Moves m m' r w r' w'
      → r ≡ a
      → w ≡ b
      → r' ≡ a'
      → w' ≡ b'
      → Moves m m' a b a' b'
  singles v e f g h = record {
    reads = omega (arith, v.reads, e, g);
    writes = omega (arith, v.writes, f, h);
    alone = v.alone;
  }

  Step-Counts : {s t : System S} → Step s t → Counts s → Counts t
  unfolding construct destroy
  Step-Counts {s} (opens k b m e) c =
      let v = subst (Locking k s.mutex false) e (lock-Locking k s false c) in
      Moves-Counts s [] [] ((k, b) ∷ []) s.guards m c refl
        (singles v (off_reads k) (off_writes k) (omega arith) (omega arith))
    where
      off_reads : (k : Kind) → reads (k, false) ≡ 0
      off_reads reader = refl
      off_reads writer = refl

      off_writes : (k : Kind) → writes (k, false) ≡ 0
      off_writes reader = refl
      off_writes writer = refl
  Step-Counts {s} (locks xs ys k b b' m g e) c =
      let v = subst (Locking k s.mutex b) e (lock-Locking k s b c) in
      Moves-Counts s xs ((k, b) ∷ []) ((k, b') ∷ []) ys m c g
        (singles v (omega arith) (omega arith) (omega arith) (omega arith))
  Step-Counts {s} (unlocks xs ys k b g) c =
      let v = unlock-Moves k s xs ys b c g in
      let (r, w) = off-total k b s.mutex in
      Moves-Counts s xs ((k, b) ∷ []) ((k, (scoped_unlock (side l k) b s.mutex).0) ∷ []) ys
        (scoped_unlock (side l k) b s.mutex).1 c g
        (singles v (omega arith) (omega arith) (omega (arith, r)) (omega (arith, w)))
  Step-Counts {s} (closes xs ys k b g) c =
      let v = unlock-Moves k s xs ys b c g in
      Moves-Counts s xs ((k, b) ∷ []) [] ys (scoped_unlock (side l k) b s.mutex).1 c g
        (singles v (omega arith) (omega arith) refl refl)

  pub Reach-Counts : {s t : System S} → Counts s → Reach s t → Counts t
  Reach-Counts c here = c
  Reach-Counts c (next r st) = Step-Counts st (Reach-Counts c r)

  -- From a lock that nobody holds, whatever scoped locks the threads make, lock, unlock and destroy, in
  -- any order: the lock counts those that are locked, at most one of them is a writer's, and if one is,
  -- none is a reader's.
  pub Reach-exclusive :
      (m : S) {t : System S}
      → l.readers m ≡ 0
      → l.writing m ≡ false
      → Reach (record { mutex = m; guards = [] }) t
      → Counts t
        × (total writes t.guards ≤ 1)
        × (total writes t.guards ≡ 1 → total reads t.guards ≡ 0)
  Reach-exclusive m {t} r w steps =
      let c =
        Reach-Counts (record { readers = r; writers = rw w refl; alone = λ h. absurd (cc) })
          steps in
      (c, bounded (l.writing t.mutex) c.writers, λ e. alone (l.writing t.mutex) c refl e)
    where
      bounded : (b : Bool) {n : ℕ} → bit b ≡ n → n ≤ 1
      bounded true e = omega arith
      bounded false e = omega arith

      alone :
          (b : Bool)
          → Counts t
          → l.writing t.mutex ≡ b
          → total writes t.guards ≡ 1
          → total reads t.guards ≡ 0
      alone true c h e = sym c.readers ∙ c.alone h
      alone false c h e = absurd (omega (arith, c.writers, ap bit h))
