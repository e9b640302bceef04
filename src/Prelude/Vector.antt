-- ===== src/Prelude/Vector.antt =====
-- std::vector of pointers: `resize`, and the slots of an index that may be out of range.
use Prim.Native.Nat.{ℕ, zero, suc, ◌<◌, ◌≤◌}
use mathlib.Core.Path.{◌≡◌, refl, ap}
use mathlib.Core.Logic.{◌≢◌}
use mathlib.Core.List.{List, [], ◌∷◌}
use mathlib.Core.Option.{Option, none}
use native.Mathlib.Omega.{arith}
use co_kv.Prelude.Lists.{length, set}

module _ {ℓ} {A : Type ℓ} where
  -- `resize(n)`: new slots are null.
  unfoldable pub resize : ℕ → List (Option A) → List (Option A)
  resize zero xs = []
  resize (suc n) [] = none ∷ resize n []
  resize (suc n) (x ∷ xs) = x ∷ resize n xs

  -- What a slot holds; null behind the end.
  unfoldable pub slot : List (Option A) → ℕ → Option A
  slot [] i = none
  slot (x ∷ xs) zero = x
  slot (x ∷ xs) (suc i) = slot xs i

  pub length-resize : (n : ℕ) (xs : List (Option A)) → length (resize n xs) ≡ n
  unfolding resize
  length-resize zero xs = refl
  length-resize (suc n) [] = ap suc (length-resize n [])
  length-resize (suc n) (x ∷ xs) = ap suc (length-resize n xs)

  slot-resize_nil : (n i : ℕ) → slot (resize n []) i ≡ none
  unfolding resize slot
  slot-resize_nil zero i = refl
  slot-resize_nil (suc n) zero = refl
  slot-resize_nil (suc n) (suc i) = slot-resize_nil n i

  pub slot-resize :
      (n : ℕ) (xs : List (Option A)) (i : ℕ) → length xs ≤ n → slot (resize n xs) i ≡ slot xs i
  unfolding resize slot
  slot-resize zero [] i h = refl
  slot-resize zero (x ∷ xs) i h = absurd (omega arith)
  slot-resize (suc n) [] zero h = refl
  slot-resize (suc n) [] (suc i) h = slot-resize_nil n i
  slot-resize (suc n) (x ∷ xs) zero h = refl
  slot-resize (suc n) (x ∷ xs) (suc i) h = slot-resize n xs i (omega arith)

  pub slot-set_self :
      (xs : List (Option A)) (i : ℕ) (v : Option A) → i < length xs → slot (set xs i v) i ≡ v
  unfolding slot
  slot-set_self [] i v h = elim h [ ]
  slot-set_self (x ∷ xs) zero v h = refl
  slot-set_self (x ∷ xs) (suc i) v h = slot-set_self xs i v (omega arith)

  pub slot-set_ne :
      (xs : List (Option A)) (i j : ℕ) (v : Option A) → i ≢ j → slot (set xs i v) j ≡ slot xs j
  unfolding slot
  slot-set_ne [] i j v h = refl
  slot-set_ne (x ∷ xs) zero zero v h = absurd (h refl)
  slot-set_ne (x ∷ xs) zero (suc j) v h = refl
  slot-set_ne (x ∷ xs) (suc i) zero v h = refl
  slot-set_ne (x ∷ xs) (suc i) (suc j) v h = slot-set_ne xs i j v (λ e. h (ap suc e))

  -- Behind the end there is nothing.
  pub slot_outside : (xs : List (Option A)) (i : ℕ) → length xs ≤ i → slot xs i ≡ none
  unfolding slot
  slot_outside [] i h = refl
  slot_outside (x ∷ xs) zero h = absurd (omega arith)
  slot_outside (x ∷ xs) (suc i) h = slot_outside xs i (omega arith)
