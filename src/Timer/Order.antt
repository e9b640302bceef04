-- ===== src/Timer/Order.antt =====
-- The order of the set of timers (time/time.cpp).
use co_kv.Prelude.{ℕ, ◌≤◌, ◌<◌, ◌≡◌, true, List, [], ◌∷◌, arith, Bool-cases, inl, inr, All, All-map}
use co_kv.Timer.{Timer, before, insert}

module _ (f : ℕ → Timer) where
  -- The timers rise strictly in the order of the set.
  abbrev pub Sorted : List ℕ → Type 0
  Sorted [] = Unit
  Sorted (x ∷ xs) = All (λ y. before f x y ≡ true) xs × Sorted xs

  pub before_trans : (a b c : ℕ) → before f a b ≡ true → before f b c ≡ true → before f a c ≡ true
  unfolding before
  before_trans a b c h k = ground (arith, h, k)

  pub All-insert : (P : ℕ → Type 0) (a : ℕ) (xs : List ℕ) → P a → All P xs → All P (insert f a xs)
  unfolding insert
  All-insert P a [] h k = (h, tt)
  All-insert P a (x ∷ xs) h k = elim (Bool-cases (before f a x)) [
    | inl e ↦ rw e (h, k)
    | inr e ↦ rw e (elim (Bool-cases (before f x a)) [
      | inl e' ↦ rw e' (k.0, All-insert P a xs h k.1)
      | inr e' ↦ rw e' k
    ])
  ]

  -- Inserting a timer keeps the set in its order.
  pub insert-Sorted : (a : ℕ) (xs : List ℕ) → Sorted xs → Sorted (insert f a xs)
  unfolding insert
  insert-Sorted a [] h = (tt, tt)
  insert-Sorted a (x ∷ xs) h = elim (Bool-cases (before f a x)) [
    | inl e ↦ rw e (
      (
        e,
        All-map (λ y. before f x y ≡ true) (λ y. before f a y ≡ true) xs
            (λ y k. before_trans a x y e k) h.0,
      ),
      h,
    )
    | inr e ↦ rw e (elim (Bool-cases (before f x a)) [
      | inl e' ↦ rw e' (All-insert (λ y. before f x y ≡ true) a xs e' h.0, insert-Sorted a xs h.1)
      | inr e' ↦ rw e' h
    ])
  ]

  -- Due by the time `now`.
  abbrev pub Due : ℕ → ℕ → Type 0
  Due now x = (f x).next ≤ now

  abbrev pub Later : ℕ → ℕ → Type 0
  Later now x = now < (f x).next
