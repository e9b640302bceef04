-- ===== src/SkipList/Cells.antt =====
-- What the memory of a skip list stands for: a header tower and the towers behind it, in order.
use co_kv.Prelude.{
  ℕ, ◌≤◌, ◌<◌, max, ◌≡◌, ◌≢◌, refl, Bool, true, false, ◌||◌, some, List, [], ◌∷◌, ◌++◌, arith, leb,
  ◌==◌, if◌then◌else◌, Bool-cases, inl, inr,
}
use co_kv.SkipList.Memory.{Bytes, Ptr, null, Node, State}

-- A node with its address.
pub record Cell (K : Type 0) : Type 0 where
  pub ptr : Ptr
  pub key : K
  pub value : Bytes
  pub level : ℕ

module _ {K : Type 0} where
  abbrev pub node_of : Cell K → Node K
  node_of c = record { key = c.key; value = c.value; node_level = c.level }

  -- The address of the first tower that reaches level `i`.
  unfoldable pub first : ℕ → List (Cell K) → Ptr
  first i [] = null
  first i (c ∷ cs) = if leb i c.level then c.ptr else first i cs

  -- Some tower reaches level `i`.
  unfoldable pub reaches : ℕ → List (Cell K) → Bool
  reaches i [] = false
  reaches i (c ∷ cs) = leb i c.level || reaches i cs

  unfoldable pub has : Ptr → List (Cell K) → Bool
  has p [] = false
  has p (c ∷ cs) = (p == c.ptr) || has p cs

  unfoldable pub height : List (Cell K) → ℕ
  height [] = 0
  height (c ∷ cs) = max c.level (height cs)

  -- The node of `c` is in memory, and at each of its levels points to the next tower that reaches.
  pub record Holds (s : State K) (c : Cell K) (rest : List (Cell K)) : Type 0 where
    pub ne_null : c.ptr ≢ null
    pub node : s.node c.ptr ≡ some (node_of c)
    pub links : (i : ℕ) → i ≤ c.level → s.forward c.ptr i ≡ first i rest
    pub apart : has c.ptr rest ≡ false

  abbrev pub Chain : State K → List (Cell K) → Type 0
  Chain s [] = Unit
  Chain s (c ∷ cs) = Holds s c cs × Chain s cs

  pub first-append :
      (i : ℕ) (xs ys : List (Cell K))
      → first i (xs ++ ys) ≡ (if reaches i xs then first i xs else first i ys)
  unfolding first reaches
  first-append i [] ys = refl
  first-append i (x ∷ xs) ys = ground (arith, first-append i xs ys)

  pub first-append_in :
      (i : ℕ) (xs ys : List (Cell K)) → reaches i xs ≡ true → first i (xs ++ ys) ≡ first i xs
  first-append_in i xs ys h = rw (first-append i xs ys, h)

  pub first-append_out :
      (i : ℕ) (xs ys : List (Cell K)) → reaches i xs ≡ false → first i (xs ++ ys) ≡ first i ys
  first-append_out i xs ys h = rw (first-append i xs ys, h)

  pub has-append : (p : Ptr) (xs ys : List (Cell K)) → has p (xs ++ ys) ≡ (has p xs || has p ys)
  unfolding has
  has-append p [] ys = refl
  has-append p (x ∷ xs) ys = ground (arith, has-append p xs ys)

  pub has-cons :
      (p : Ptr) (c : Cell K) (cs : List (Cell K)) → has p cs ≡ true → has p (c ∷ cs) ≡ true
  unfolding has
  has-cons p c cs h = ground arith

  pub has-cons_self : (c : Cell K) (cs : List (Cell K)) → has c.ptr (c ∷ cs) ≡ true
  unfolding has
  has-cons_self c cs = ground arith

  pub reaches-append :
      (i : ℕ) (xs ys : List (Cell K)) → reaches i (xs ++ ys) ≡ (reaches i xs || reaches i ys)
  unfolding reaches
  reaches-append i [] ys = refl
  reaches-append i (x ∷ xs) ys = ground (arith, reaches-append i xs ys)

  pub not-reaches-first : (i : ℕ) (xs : List (Cell K)) → reaches i xs ≡ false → first i xs ≡ null
  unfolding first reaches
  not-reaches-first i [] h = refl
  not-reaches-first i (x ∷ xs) h = ground (arith, not-reaches-first i xs)

  pub has-first : (i : ℕ) (xs : List (Cell K)) → reaches i xs ≡ true → has (first i xs) xs ≡ true
  unfolding first reaches has
  has-first i [] h = cc
  has-first i (x ∷ xs) h = ground (arith, has-first i xs)

  -- No tower reaches a level above the height.
  pub height_bounds : (i : ℕ) (xs : List (Cell K)) → height xs < i → reaches i xs ≡ false
  unfolding height reaches
  height_bounds i [] h = refl
  height_bounds i (x ∷ xs) h = ground (arith, height_bounds i xs)

  pub reaches-height : (xs : List (Cell K)) → 0 < height xs → reaches (height xs) xs ≡ true
  unfolding height reaches
  reaches-height [] h = absurd (omega arith)
  reaches-height (x ∷ xs) h = elim (Bool-cases (leb (height xs) x.level)) [
    | inl e ↦ ground arith
    | inr e ↦ ground (arith, reaches-height xs)
  ]

  pub height-append : (xs ys : List (Cell K)) → height (xs ++ ys) ≡ max (height xs) (height ys)
  unfolding height
  height-append [] ys = omega arith
  height-append (x ∷ xs) ys = omega (arith, height-append xs ys)

  pub Chain-right : (s : State K) (xs ys : List (Cell K)) → Chain s (xs ++ ys) → Chain s ys
  Chain-right s [] ys h = h
  Chain-right s (x ∷ xs) ys h = Chain-right s xs ys h.1

  -- A chain does not hold null.
  pub has-null : (s : State K) (xs : List (Cell K)) → Chain s xs → has null xs ≡ false
  unfolding has
  has-null s [] h = refl
  has-null s (x ∷ xs) (h, t) = ground (arith, h.ne_null, has-null s xs t)

  -- The head of a chain at level 0.
  pub first_zero : (c : Cell K) (cs : List (Cell K)) → first 0 (c ∷ cs) ≡ c.ptr
  unfolding first
  first_zero c cs = ground arith
