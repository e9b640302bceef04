-- ===== src/Timer/Expiry.antt =====
-- The timers that `listExpiredCb` of time/time.cpp takes.
use co_kv.Prelude.{append_assoc}
use co_kv.Prelude.{
  ℕ, ◌+◌, ◌≤◌, ◌≡◌, refl, ◌∙◌, ap, Bool, true, false, ◌&&◌, ◌||◌, List, [], ◌∷◌, ◌++◌, arith,
  Bool-cases, inl, inr, All, All-map, All-append, ltb, ◌==◌,
}
use co_kv.Timer.{Timer, before, span, split_expired}
use co_kv.Timer.Order.{Sorted, Due, Later}

module _ (p : ℕ → Bool) where
  append-span : (xs : List ℕ) → (span p xs).0 ++ (span p xs).1 ≡ xs
  unfolding span
  append-span [] = refl
  append-span (x ∷ xs) = elim (Bool-cases (p x)) [
    | inl e ↦ rw e (ap (λ (ys : List ℕ). x ∷ ys) (append-span xs))
    | inr e ↦ rw e refl
  ]

  All-span : (xs : List ℕ) → All (λ y. p y ≡ true) (span p xs).0
  unfolding span
  All-span [] = tt
  All-span (x ∷ xs) = elim (Bool-cases (p x)) [ inl e ↦ rw e (e, All-span xs) | inr e ↦ rw e tt ]

module _ (f : ℕ → Timer) where
  span-Sorted : (p : ℕ → Bool) (xs : List ℕ) → Sorted f xs → Sorted f (span p xs).1
  unfolding span
  span-Sorted p [] h = tt
  span-Sorted p (x ∷ xs) h = elim (Bool-cases (p x)) [
    | inl e ↦ rw e (span-Sorted p xs h.1)
    | inr e ↦ rw e h
  ]

  -- Due at `t` or later.
  abbrev pub From : ℕ → List ℕ → Type 0
  From t xs = All (λ y. t ≤ (f y).next) xs

  From-zero : (xs : List ℕ) → From 0 xs
  From-zero [] = tt
  From-zero (x ∷ xs) = (omega arith, From-zero xs)

  before_next : (a b : ℕ) → before f a b ≡ true → (f a).next ≤ (f b).next
  unfolding before
  before_next a b h = ground (arith, h)

  -- What is behind the front is due from a later time on, if the first of it is.
  span-From :
      (p : ℕ → Bool) (low high : ℕ) (xs : List ℕ)
      → Sorted f xs
      → From low xs
      → ((y : ℕ) → low ≤ (f y).next → p y ≡ false → high ≤ (f y).next)
      → From high (span p xs).1
  unfolding span
  span-From p low high [] h k g = tt
  span-From p low high (x ∷ xs) h k g = elim (Bool-cases (p x)) [
    | inl e ↦ rw e (span-From p low high xs h.1 k.1 g)
    | inr e ↦
        let here = g x k.0 e in
        rw e (
          here,
          All-map (λ y. before f x y ≡ true) (λ y. high ≤ (f y).next) xs
              (λ y b. let le = before_next x y b in omega arith) h.0,
        )
  ]

  -- In a set of timers that is in its order, the timers that `listExpiredCb` takes and those that it
  -- leaves are together the set, in its order; those taken are due by now, and those left later.
  pub split_expired-Due :
      (now probe : ℕ) (timers : List ℕ)
      → Sorted f timers
      → ((split_expired f now probe timers).0 ++ (split_expired f now probe timers).1 ≡ timers)
        × All (Due f now) (split_expired f now probe timers).0
        × All (Later f now) (split_expired f now probe timers).1
  unfolding split_expired
  split_expired-Due now probe timers h =
      let p : ℕ → Bool = λ x. ltb (f x).next now || (((f x).next == now) && ltb x probe) in
      let q : ℕ → Bool = λ x. (f x).next == now in
      let others = (span p timers).1 in
      let from_now : From now others =
        span-From p 0 now timers h (From-zero timers) (λ y _ e. ground (arith, e)) in
      (
        append_assoc (span p timers).0 (span q others).0 (span q others).1
            ∙ ap (λ (ys : List ℕ). (span p timers).0 ++ ys) (append-span q others)
            ∙ append-span p timers,
        All-append (Due f now) (span p timers).0 (span q others).0
            (All-map (λ y. p y ≡ true) (Due f now) (span p timers).0 (λ y e. ground (arith, e))
              (All-span p timers))
            (All-map (λ y. q y ≡ true) (Due f now) (span q others).0 (λ y e. ground (arith, e))
              (All-span q others)),
        All-map (λ y. now + 1 ≤ (f y).next) (Later f now) (span q others).1
            (λ y e. omega (arith, e))
            (span-From q now (now + 1) others (span-Sorted p timers h) from_now
              (λ y le e. ground (arith, le, e))),
      )
