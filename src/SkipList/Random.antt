-- ===== src/SkipList/Random.antt =====
-- `get_random_level` on the numbers that `rand()` will return.
use co_kv.Prelude.{
  ℕ, suc, ◌+◌, ◌%◌, ◌≡◌, refl, ◌∙◌, Option, none, some, List, [], ◌∷◌, arith, ◌==◌, if◌then◌else◌,
  Bool-cases, inl, inr, min, ap,
}
use co_kv.Prelude.Run.{Run, done, out_of_fuel}
use co_kv.SkipList.Memory.{State}
use co_kv.SkipList.Ops.{count_odds, get_random_level}

abbrev one_more : Option (ℕ × List ℕ) → Option (ℕ × List ℕ)
one_more none = none
one_more (some (n, rest)) = some (suc n, rest)

-- How many odd numbers come first, and what follows the first even one.
unfoldable pub toss : List ℕ → Option (ℕ × List ℕ)
toss [] = none
toss (r ∷ rs) = if r % 2 == 1 then one_more (toss rs) else some (0, rs)

abbrev pub with_draws : {K : Type 0} → State K → List ℕ → State K
with_draws s rs = record s { draws = rs }

module _ {K : Type 0} where
  abbrev drawn : Option (ℕ × List ℕ) → ℕ → State K → Run (State K) ℕ
  drawn none k s = out_of_fuel
  drawn (some (n, rest)) k s = done (k + n) (with_draws s rest)

  drawn-one_more :
      (t : Option (ℕ × List ℕ)) (k : ℕ) (s : State K) → drawn t (k + 1) s ≡ drawn (one_more t) k s
  drawn-one_more none k s = refl
  drawn-one_more (some (n, rest)) k s = ap (λ (m : ℕ). done m (with_draws s rest)) (omega arith)

  count_odds-drawn : (ds : List ℕ) (k : ℕ) (s : State K) → count_odds ds k s ≡ drawn (toss ds) k s
  unfolding count_odds toss
  count_odds-drawn [] k s = refl
  count_odds-drawn (r ∷ rs) k s = elim (Bool-cases (r % 2 == 1)) [
    | inl e ↦ rw e (count_odds-drawn rs (k + 1) s ∙ drawn-one_more (toss rs) k s)
    | inr e ↦ rw e (ap (λ (m : ℕ). done m (with_draws s rs)) (omega arith))
  ]

  -- The level is one more than the number of odd draws, and at most `max_level`.
  pub get_random_level-toss :
      (s : State K) (n : ℕ) (rest : List ℕ)
      → toss s.draws ≡ some (n, rest)
      → get_random_level s ≡ done (min (1 + n) s.max_level) (with_draws s rest)
  unfolding get_random_level
  get_random_level-toss s n rest h =
      rw (count_odds-drawn s.draws 1 s, h)
        (ap (λ (l : ℕ). done l (with_draws s rest)) (ground arith))
