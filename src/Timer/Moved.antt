-- ===== src/Timer/Moved.antt =====
-- The set of timers when a timer of it, or another, gets a new due time (time/time.cpp).
use co_kv.Prelude.{
  ℕ, ◌≡◌, refl, sym, ◌∙◌, ap, true, false, not, ◌&&◌, List, [], ◌∷◌, ◌==◌, arith, All, All-map,
  Bool-cases, inl, inr,
}
use co_kv.Timer.{Timer, before, erase, write}
use co_kv.Timer.Order.{Sorted}
use co_kv.Timer.Collect.{All-zip, before-ne}

abbrev pub Absent : ℕ → List ℕ → Type 0
Absent a xs = All (λ y. (y == a) ≡ false) xs

-- The order of two timers depends on their due times alone.
before-same :
    (f g : ℕ → Timer) (a b : ℕ)
    → (g a).next ≡ (f a).next
    → (g b).next ≡ (f b).next
    → before g a b ≡ before f a b
unfolding before
before-same f g a b e h = rw (e, h) refl

Sorted-same :
    (f g : ℕ → Timer) (xs : List ℕ)
    → All (λ y. (g y).next ≡ (f y).next) xs
    → Sorted f xs
    → Sorted g xs
Sorted-same f g [] h k = tt
Sorted-same f g (x ∷ xs) (h, hs) (k, ks) = (
  All-zip (λ y. (g y).next ≡ (f y).next) (λ y. before f x y ≡ true) (λ y. before g x y ≡ true) xs
      (λ y e b. before-same f g x y h e ∙ b) hs k,
  Sorted-same f g xs hs ks,
)

pub write-Sorted :
    (f : ℕ → Timer) (a : ℕ) (t : Timer) (xs : List ℕ)
    → Absent a xs
    → Sorted f xs
    → Sorted (write f a t) xs
write-Sorted f a t xs h k =
    Sorted-same f (write f a t) xs
      (All-map (λ y. (y == a) ≡ false) (λ y. (write f a t y).next ≡ (f y).next) xs
        (λ y e. rw e refl) h)
      k

-- A change that keeps the due time.
pub keep-Sorted :
    (f : ℕ → Timer) (a : ℕ) (t : Timer) (xs : List ℕ)
    → t.next ≡ (f a).next
    → Sorted f xs
    → Sorted (write f a t) xs
keep-Sorted f a t xs h k = Sorted-same f (write f a t) xs (all xs) k
  where
    one : (y : ℕ) → (write f a t y).next ≡ (f y).next
    one y = elim (Bool-cases (y == a)) [
      | inl e ↦
          (let same : y ≡ a = ground (arith, e) in rw e (h ∙ ap (λ (q : ℕ). (f q).next) (sym same)))
      | inr e ↦ rw e refl
    ]

    all : (xs : List ℕ) → All (λ y. (write f a t y).next ≡ (f y).next) xs
    all [] = tt
    all (x ∷ xs) = (one x, all xs)

module _ (f : ℕ → Timer) (a : ℕ) where
  All-erase : (P : ℕ → Type 0) (xs : List ℕ) → All P xs → All P (erase f a xs)
  unfolding erase
  All-erase P [] h = tt
  All-erase P (x ∷ xs) h = elim (Bool-cases (not (before f a x) && not (before f x a))) [
    | inl e ↦ rw e h.1
    | inr e ↦ rw e (h.0, All-erase P xs h.1)
  ]

  pub erase-Sorted : (xs : List ℕ) → Sorted f xs → Sorted f (erase f a xs)
  unfolding erase
  erase-Sorted [] h = tt
  erase-Sorted (x ∷ xs) h = elim (Bool-cases (not (before f a x) && not (before f x a))) [
    | inl e ↦ rw e h.1
    | inr e ↦ rw e (All-erase (λ y. before f x y ≡ true) xs h.0, erase-Sorted xs h.1)
  ]

  -- Only the timer itself is equivalent to it.
  equivalent_self : (x : ℕ) → (not (before f a x) && not (before f x a)) ≡ (x == a)
  unfolding before
  equivalent_self x = elim (Bool-cases (x == a)) [
    | inl e ↦
        let same : x ≡ a = ground (arith, e) in
        let n : (f x).next ≡ (f a).next = ap (λ (q : ℕ). (f q).next) same in ground (arith, e, n)
    | inr e ↦ ground (arith, e)
  ]

  pub erase-Absent : (xs : List ℕ) → Sorted f xs → Absent a (erase f a xs)
  unfolding erase
  erase-Absent [] h = tt
  erase-Absent (x ∷ xs) h = elim (Bool-cases (x == a)) [
    | inl e ↦
        let same : x ≡ a = ground (arith, e) in
        rw (equivalent_self x, e)
          (All-map (λ y. before f x y ≡ true) (λ y. (y == a) ≡ false) xs
            (λ y b. ap (λ (q : ℕ). y == q) (sym same) ∙ before-ne f x y b) h.0)
    | inr e ↦ rw (equivalent_self x, e) (e, erase-Absent xs h.1)
  ]
