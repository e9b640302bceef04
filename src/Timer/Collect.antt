-- ===== src/Timer/Collect.antt =====
-- The callbacks that `listExpiredCb` of time/time.cpp moves.
use co_kv.Prelude.{
  ℕ, ◌≡◌, refl, sym, ◌∙◌, ap, subst, true, false, not, ◌&&◌, Option, List, [], ◌∷◌, ◌++◌, ◌==◌,
  arith, All, All-left, Bool-cases, inl, inr,
}
use co_kv.Timer.{
  Timer, Manager, before, insert, is_front, add, renew, collect, split_expired, span, expire_from,
  list_expired_cb,
}
use co_kv.Timer.Order.{Sorted}
use co_kv.Timer.Expiry.{split_expired-Due}

abbrev pub callbacks : (ℕ → Timer) → List ℕ → List (Option ℕ)
callbacks f [] = []
callbacks f (a ∷ rest) = (f a).cb ∷ callbacks f rest

pub add-object : (a b : ℕ) (m : Manager) → (add a m).object b ≡ m.object b
unfolding add
add-object a b m = elim (Bool-cases (is_front a (insert m.object a m.timers) && not m.tickled)) [
  | inl e ↦ rw e refl
  | inr e ↦ rw e refl
]

pub renew-object :
    (now a b : ℕ) (m : Manager) → (b == a) ≡ false → (renew now a m).object b ≡ m.object b
unfolding renew
renew-object now a b m e = elim (Bool-cases (m.object a).recurring) [
  | inl r ↦ rw r (add-object a b _ ∙ rw e refl)
  | inr r ↦ rw (r, e) refl
]

pub All-zip :
    (P Q R : ℕ → Type 0) (xs : List ℕ)
    → ((y : ℕ) → P y → Q y → R y)
    → All P xs
    → All Q xs
    → All R xs
All-zip P Q R [] f h k = tt
All-zip P Q R (x ∷ xs) f h k = (f x h.0 k.0, All-zip P Q R xs f h.1 k.1)

module _ (f : ℕ → Timer) where
  pub before-ne : (a b : ℕ) → before f a b ≡ true → (b == a) ≡ false
  unfolding before
  before-ne a b h = ground (arith, h)

  collect-callbacks :
      (now : ℕ) (xs : List ℕ) (m : Manager)
      → Sorted f xs
      → All (λ y. m.object y ≡ f y) xs
      → (collect now xs m).0 ≡ callbacks f xs
  unfolding collect
  collect-callbacks now [] m h k = refl
  collect-callbacks now (a ∷ rest) m (h, hs) (k, ks) =
      let kept : All (λ y. (renew now a m).object y ≡ f y) rest =
        All-zip (λ y. before f a y ≡ true) (λ y. m.object y ≡ f y)
          (λ y. (renew now a m).object y ≡ f y) rest
          (λ y b e. renew-object now a y m (before-ne a y b) ∙ e) h ks in
      ap (λ (t : Timer). t.cb ∷ (collect now rest (renew now a m)).0) k
      ∙ ap (λ (cbs : List (Option ℕ)). (f a).cb ∷ cbs)
          (collect-callbacks now rest (renew now a m) hs kept)

  pub Sorted-left : (xs ys : List ℕ) → Sorted f (xs ++ ys) → Sorted f xs
  Sorted-left [] ys h = tt
  Sorted-left (x ∷ xs) ys h = (All-left (λ y. before f x y ≡ true) xs ys h.0, Sorted-left xs ys h.1)

same-object : (f : ℕ → Timer) (xs : List ℕ) → All (λ y. f y ≡ f y) xs
same-object f [] = tt
same-object f (x ∷ xs) = (refl, same-object f xs)

-- The callbacks that `listExpiredCb` moves are those of the timers that it takes.
pub list_expired_cb-callbacks :
    (now probe : ℕ) (m : Manager)
    → Sorted m.object m.timers
    → (list_expired_cb now probe m).0
      ≡ callbacks m.object (split_expired m.object now probe m.timers).0
unfolding list_expired_cb expire_from split_expired span
list_expired_cb-callbacks now probe m h = by_timers m.timers h
  where
    by_timers :
        (xs : List ℕ)
        → Sorted m.object xs
        → (expire_from now probe xs m).0
          ≡ callbacks m.object (split_expired m.object now probe xs).0
    by_timers [] h = refl
    by_timers (x ∷ xs) h =
        let r = split_expired m.object now probe (x ∷ xs) in
        let (whole, _, _) = split_expired-Due m.object now probe (x ∷ xs) h in
        collect-callbacks m.object now r.0 (record m { timers = r.1 })
          (Sorted-left m.object r.0 r.1 (subst (Sorted m.object) (sym whole) h))
          (same-object m.object r.0)
