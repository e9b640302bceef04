-- ===== src/SkipList/Walk.antt =====
-- The loops that look for a key: where they stop, on a list of towers that is cut in those before
-- the key and those from it on.
use co_kv.Prelude.{
  ℕ, ◌≤◌, ◌≡◌, refl, ◌∙◌, ap, Bool, true, false, List, [], ◌∷◌, ◌++◌, arith, leb, if◌then◌else◌,
  length, Bool-cases, inl, inr, leb→le,
}
use co_kv.SkipList.Memory.{State}
use co_kv.SkipList.Cells.{Cell, first, reaches, has, has-cons, has-cons_self, Holds, Chain}

-- A tower and the towers behind it that are before the key.
abbrev pub Spot : Type 0 → Type 0
Spot K = Cell K × List (Cell K)

module _ {K : Type 0} where
  pub first-high :
      (i : ℕ) (d : Cell K) (ds : List (Cell K)) → leb i d.level ≡ true → first i (d ∷ ds) ≡ d.ptr
  unfolding first
  first-high i d ds h = rw h

  pub first-low :
      (i : ℕ) (d : Cell K) (ds : List (Cell K))
      → leb i d.level ≡ false
      → first i (d ∷ ds) ≡ first i ds
  unfolding first
  first-low i d ds h = rw h

  -- The last tower that reaches level `i`, among `best` and the list.
  unfoldable pub pos : ℕ → Spot K → List (Cell K) → Spot K
  pos i best [] = best
  pos i best (d ∷ ds) = pos i (if leb i d.level then (d, ds) else best) ds

  pub pos-high :
      (i : ℕ) (b : Spot K) (d : Cell K) (ds : List (Cell K))
      → leb i d.level ≡ true
      → pos i b (d ∷ ds) ≡ pos i (d, ds) ds
  unfolding pos
  pos-high i b d ds h = ap (λ (t : Bool). pos i (if t then (d, ds) else b) ds) h

  pub pos-low :
      (i : ℕ) (b : Spot K) (d : Cell K) (ds : List (Cell K))
      → leb i d.level ≡ false
      → pos i b (d ∷ ds) ≡ pos i b ds
  unfolding pos
  pos-low i b d ds h = ap (λ (t : Bool). pos i (if t then (d, ds) else b) ds) h

  pub pos-nil : (i : ℕ) (b : Spot K) → pos i b [] ≡ b
  unfolding pos
  pos-nil i b = refl

  -- Walking on at a lower level ends where the walk at that level alone ends.
  pub pos-pos :
      (i j : ℕ) (bs : List (Cell K)) (bj bi : Spot K)
      → i ≤ j
      → pos i bj bj.1 ≡ pos i bi bs
      → pos i (pos j bj bs) (pos j bj bs).1 ≡ pos i bi bs
  pos-pos i j [] bj bi h e = rw (pos-nil j bj) e
  pos-pos i j (d ∷ ds) bj bi h e = elim (Bool-cases (leb j d.level)) [
    | inl high ↦
        let high' : leb i d.level ≡ true = ground arith in
        rw (pos-high j bj d ds high, pos-high i bi d ds high')
          (pos-pos i j ds (d, ds) (d, ds) h refl)
    | inr low ↦ rw (pos-low j bj d ds low) (elim (Bool-cases (leb i d.level)) [
      | inl high' ↦
          rw (pos-high i bi d ds high') (pos-pos i j ds bj (d, ds) h (e ∙ pos-high i bi d ds high'))
      | inr low' ↦ rw (pos-low i bi d ds low') (pos-pos i j ds bj bi h (e ∙ pos-low i bi d ds low'))
    ])
  ]

  -- Nothing behind the last tower that reaches the level reaches it.
  pub reaches-pos :
      (i : ℕ) (bs : List (Cell K)) (b : Spot K)
      → reaches i b.1 ≡ reaches i bs
      → reaches i (pos i b bs).1 ≡ false
  unfolding reaches
  reaches-pos i [] b e = rw (pos-nil i b) e
  reaches-pos i (d ∷ ds) b e = elim (Bool-cases (leb i d.level)) [
    | inl high ↦ rw (pos-high i b d ds high) (reaches-pos i ds (d, ds) refl)
    | inr low ↦ rw (pos-low i b d ds low) (reaches-pos i ds b (ground arith))
  ]

  pub pos-not-reaches :
      (i : ℕ) (bs : List (Cell K)) (b : Spot K) → reaches i bs ≡ false → pos i b bs ≡ b
  unfolding reaches
  pos-not-reaches i [] b h = pos-nil i b
  pos-not-reaches i (d ∷ ds) b h =
      pos-low i b d ds (ground arith) ∙ pos-not-reaches i ds b (ground arith)

  pub pos_zero : (bs : List (Cell K)) (c : Cell K) → (pos 0 (c, bs) bs).1 ≡ []
  pos_zero [] c = rw (pos-nil 0 (c, []))
  pos_zero (d ∷ ds) c = rw (pos-high 0 (c, d ∷ ds) d ds (ground arith)) (pos_zero ds d)

  -- The end of the walk is its start or one of the towers of the list.
  pub has-pos :
      (i : ℕ) (bs : List (Cell K)) (b : Spot K)
      → reaches i bs ≡ true
      → has (pos i b bs).0.ptr bs ≡ true
  unfolding reaches
  has-pos i [] b h = cc
  has-pos i (d ∷ ds) b h = elim (Bool-cases (leb i d.level)) [
    | inl high ↦ rw (pos-high i b d ds high) (elim (Bool-cases (reaches i ds)) [
      | inl more ↦ has-cons _ d ds (has-pos i ds (d, ds) more)
      | inr none_left ↦ rw (pos-not-reaches i ds (d, ds) none_left) (has-cons_self d ds)
    ])
    | inr low ↦ rw (pos-low i b d ds low) (has-cons _ d ds (has-pos i ds b (ground arith)))
  ]

-- What holds where a walk stands.
pub record Stands {K : Type 0} (s : State K) (from : List (Cell K)) (i n : ℕ) (b : Spot K)
    : Type 0 where
  pub holds : Holds s b.0 (b.1 ++ from)
  pub chain : Chain s (b.1 ++ from)
  pub high : i ≤ b.0.level
  pub short : length b.1 ≤ n

module _ {K : Type 0} {s : State K} {from : List (Cell K)} where
  pub Stands-pos :
      (i n : ℕ) (bs : List (Cell K)) (b : Spot K)
      → Stands s from i n b
      → Chain s (bs ++ from)
      → length bs ≤ n
      → Stands s from i n (pos i b bs)
  Stands-pos i n [] b st ch short = rw (pos-nil i b) st
  Stands-pos i n (d ∷ ds) b st (hd, ch) short = elim (Bool-cases (leb i d.level)) [
    | inl high ↦ rw (pos-high i b d ds high) (
        Stands-pos i n ds (d, ds)
          (record { holds = hd; chain = ch; high = leb→le i d.level high; short = omega arith }) ch
          (omega arith))
    | inr low ↦ rw (pos-low i b d ds low) (Stands-pos i n ds b st ch (omega arith))
  ]

  pub Stands-lower : {i j n : ℕ} {b : Spot K} → i ≤ j → Stands s from j n b → Stands s from i n b
  Stands-lower h st = record {
    holds = st.holds;
    chain = st.chain;
    high = omega (arith, st.high);
    short = st.short;
  }
