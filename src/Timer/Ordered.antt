-- ===== src/Timer/Ordered.antt =====
-- The set of timers keeps its order (time/time.cpp), whatever operations run, though they change the due
-- times by which the set is ordered.
use co_kv.Prelude.{
  ℕ, ◌≡◌, refl, sym, subst, Bool, true, false, not, ◌&&◌, List, [], ◌∷◌, ◌++◌, ◌==◌, if◌then◌else◌,
  arith, All, All-map, All-right, Bool-cases, inl, inr, is_some,
}
use co_kv.Prelude.Run.{Run, done, fault, out_of_fuel}
use co_kv.Timer.{
  Timer, Manager, before, insert, erase, contains, is_front, add, renew, collect, split_expired,
  expire_from, list_expired_cb, write, clear_cb, cancel, refresh, reset, add_timer,
  detect_clock_rollover,
}
use co_kv.Timer.Order.{Sorted, insert-Sorted, All-insert}
use co_kv.Timer.Expiry.{split_expired-Due}
use co_kv.Timer.Collect.{All-zip, before-ne, Sorted-left}
use co_kv.Timer.Notify.{adds, cancels, refreshes, resets, expires, rolls, Steps, here, next}
use co_kv.Timer.Moved.{Absent, write-Sorted, keep-Sorted, erase-Sorted, erase-Absent}

InOrder : Manager → Type 0
InOrder m = Sorted m.object m.timers

add-InOrder : (a : ℕ) (m : Manager) → InOrder m → InOrder (add a m)
unfolding add InOrder
add-InOrder a m h = elim (Bool-cases (is_front a (insert m.object a m.timers) && not m.tickled)) [
  | inl e ↦ rw e (insert-Sorted m.object a m.timers h)
  | inr e ↦ rw e (insert-Sorted m.object a m.timers h)
]

-- A timer that is not in the set gets a new due time and is added.
moved-InOrder :
    (a : ℕ) (t : Timer) (m : Manager)
    → Absent a m.timers
    → InOrder m
    → InOrder (add a (record m { object = write m.object a t }))
unfolding InOrder
moved-InOrder a t m h k =
    add-InOrder a (record m { object = write m.object a t })
      (write-Sorted m.object a t m.timers h k)

-- A timer of the set is taken out, gets a new due time and is added.
again-InOrder :
    (a : ℕ) (t : Timer) (m : Manager)
    → InOrder m
    → InOrder (add a (record m { object = write m.object a t; timers = erase m.object a m.timers }))
unfolding InOrder
again-InOrder a t m h =
    moved-InOrder a t (record m { timers = erase m.object a m.timers })
      (erase-Absent m.object a m.timers h) (erase-Sorted m.object a m.timers h)

-- What an operation that may fail leaves is in order.
Ends : Run Manager Bool → Type 0
Ends (done b m) = InOrder m
Ends fault = Unit
Ends out_of_fuel = Unit

cancel-Ends : (a : ℕ) (m : Manager) → InOrder m → Ends (cancel a m)
unfolding cancel InOrder Ends
cancel-Ends a m h =
    let f = write m.object a (clear_cb (m.object a)) in
    let k : Sorted f m.timers = keep-Sorted m.object a (clear_cb (m.object a)) m.timers refl h in
    elim (Bool-cases (is_some (m.object a).cb)) [
      | inl e ↦
          rw (cancel, e)
            (elim (Bool-cases (contains f a m.timers)) [
              | inl c ↦ rw c (erase-Sorted f a m.timers k)
              | inr c ↦ rw c k
            ])
      | inr e ↦ rw (cancel, e) tt
    ]

cancel-InOrder :
    (a : ℕ) (b : Bool) (m m' : Manager) → cancel a m ≡ done b m' → InOrder m → InOrder m'
unfolding Ends
cancel-InOrder a b m m' e h = subst Ends e (cancel-Ends a m h)

refresh-InOrder : (now a : ℕ) (m : Manager) → InOrder m → InOrder (refresh now a m).1
unfolding refresh
refresh-InOrder now a m h = elim (Bool-cases (is_some (m.object a).cb)) [
  | inl e ↦ rw e (elim (Bool-cases (contains m.object a m.timers)) [
    | inl k ↦ rw k (again-InOrder a _ m h)
    | inr k ↦ rw k h
  ])
  | inr e ↦ rw e h
]

reset-InOrder :
    (now a ms : ℕ) (from_now : Bool) (m : Manager)
    → InOrder m
    → InOrder (reset now a ms from_now m).1
unfolding reset
reset-InOrder now a ms from_now m h = elim (Bool-cases ((ms == (m.object a).ms) && not from_now)) [
  | inl s ↦ rw s h
  | inr s ↦ rw s (elim (Bool-cases (is_some (m.object a).cb)) [
    | inl e ↦ rw e (elim (Bool-cases (contains m.object a m.timers)) [
      | inl k ↦ rw k (again-InOrder a _ m h)
      | inr k ↦ rw k h
    ])
    | inr e ↦ rw e h
  ])
]

-- The timers of a list are apart from each other.
Apart : List ℕ → Type 0
Apart [] = Unit
Apart (x ∷ xs) = Absent x xs × Apart xs

Sorted-Apart : (f : ℕ → Timer) (xs : List ℕ) → Sorted f xs → Apart xs
unfolding Apart
Sorted-Apart f [] h = tt
Sorted-Apart f (x ∷ xs) h = (
  All-map (λ y. before f x y ≡ true) (λ y. (y == x) ≡ false) xs (λ y b. before-ne f x y b) h.0,
  Sorted-Apart f xs h.1,
)

add-Absent :
    (a b : ℕ) (m : Manager) → (a == b) ≡ false → Absent b m.timers → Absent b (add a m).timers
unfolding add
add-Absent a b m ne h =
    let k = All-insert m.object (λ y. (y == b) ≡ false) a m.timers ne h in
    elim (Bool-cases (is_front a (insert m.object a m.timers) && not m.tickled)) [
      | inl e ↦ rw e k
      | inr e ↦ rw e k
    ]

renew-Absent :
    (now a b : ℕ) (m : Manager)
    → (a == b) ≡ false
    → Absent b m.timers
    → Absent b (renew now a m).timers
unfolding renew
renew-Absent now a b m ne h = elim (Bool-cases (m.object a).recurring) [
  | inl e ↦ rw e (add-Absent a b _ ne h)
  | inr e ↦ rw e h
]

choose-InOrder :
    (b : Bool) (m m' : Manager) → InOrder m → InOrder m' → InOrder (if b then m else m')
choose-InOrder true m m' h k = h
choose-InOrder false m m' h k = k

renew-InOrder : (now a : ℕ) (m : Manager) → Absent a m.timers → InOrder m → InOrder (renew now a m)
unfolding renew InOrder
renew-InOrder now a m ab h =
    choose-InOrder (m.object a).recurring _ _ (moved-InOrder a _ m ab h)
      (keep-Sorted m.object a (clear_cb (m.object a)) m.timers refl h)

collect-InOrder :
    (now : ℕ) (es : List ℕ) (m : Manager)
    → Apart es
    → All (λ e. Absent e m.timers) es
    → InOrder m
    → InOrder (collect now es m).1
unfolding collect Apart
collect-InOrder now [] m apart absent h = h
collect-InOrder now (a ∷ rest) m (far, apart) (ab, absent) h =
    collect-InOrder now rest (renew now a m) apart
      (All-zip (λ y. (y == a) ≡ false) (λ y. Absent y m.timers)
        (λ y. Absent y (renew now a m).timers) rest
        (λ y ne k. renew-Absent now a y m (ground (arith, ne)) k) far absent)
      (renew-InOrder now a m ab h)

Sorted-right : (f : ℕ → Timer) (xs ys : List ℕ) → Sorted f (xs ++ ys) → Sorted f ys
Sorted-right f [] ys h = h
Sorted-right f (x ∷ xs) ys h = Sorted-right f xs ys h.1

Sorted-Absent : (f : ℕ → Timer) (xs ys : List ℕ) → Sorted f (xs ++ ys) → All (λ e. Absent e ys) xs
Sorted-Absent f [] ys h = tt
Sorted-Absent f (x ∷ xs) ys (h, hs) = (
  All-map (λ y. before f x y ≡ true) (λ y. (y == x) ≡ false) ys (λ y b. before-ne f x y b)
      (All-right (λ y. before f x y ≡ true) xs ys h),
  Sorted-Absent f xs ys hs,
)

expire_from-InOrder :
    (now probe : ℕ) (ts : List ℕ) (m : Manager)
    → Sorted m.object ts
    → InOrder m
    → InOrder (expire_from now probe ts m).1
unfolding expire_from InOrder
expire_from-InOrder now probe [] m h k = k
expire_from-InOrder now probe (x ∷ xs) m h k =
    let r = split_expired m.object now probe (x ∷ xs) in
    let (whole, _, _) = split_expired-Due m.object now probe (x ∷ xs) h in
    let all : Sorted m.object (r.0 ++ r.1) = subst (Sorted m.object) (sym whole) h in
    collect-InOrder now r.0 (record m { timers = r.1 })
      (Sorted-Apart m.object r.0 (Sorted-left m.object r.0 r.1 all))
      (Sorted-Absent m.object r.0 r.1 all) (Sorted-right m.object r.0 r.1 all)

module _ {m : Manager} where
  -- Each timer that is added is at an address where no timer of the set is.
  unfoldable pub Allocated : {m' : Manager} → Steps m m' → Type 0
  Allocated here = Unit
  Allocated (next r (adds now a ms cb rec m')) = Absent a m'.timers × Allocated r
  Allocated (next r _) = Allocated r

  -- Whatever operations run on the timers and their manager, the set stays in its order, though they
  -- change the due times by which it is ordered, if no timer is made at the address of one that is in
  -- the set.
  pub Steps-Sorted :
      {m' : Manager} (steps : Steps m m')
      → Allocated steps
      → Sorted m.object m.timers
      → Sorted m'.object m'.timers
  unfolding Allocated InOrder add_timer list_expired_cb detect_clock_rollover
  Steps-Sorted here ok h = h
  Steps-Sorted (next r (adds now a ms cb rec m')) (absent, ok) h =
      moved-InOrder a _ m' absent (Steps-Sorted r ok h)
  Steps-Sorted (next r (cancels a b m' m'' e)) ok h =
      cancel-InOrder a b m' m'' e (Steps-Sorted r ok h)
  Steps-Sorted (next r (refreshes now a m')) ok h = refresh-InOrder now a m' (Steps-Sorted r ok h)
  Steps-Sorted (next r (resets now a ms f m')) ok h =
      reset-InOrder now a ms f m' (Steps-Sorted r ok h)
  Steps-Sorted (next r (expires now probe m')) ok h =
      let k = Steps-Sorted r ok h in expire_from-InOrder now probe m'.timers m' k k
  Steps-Sorted (next r (rolls now m')) ok h = Steps-Sorted r ok h
