-- ===== src/SkipList/Descend.antt =====
-- The outer loop of the searches of skiplist/skiplist.h: from the highest level in use down to 0.
use co_kv.Prelude.{
  ℕ, zero, suc, ◌≤◌, ◌<◌, ◌≡◌, refl, ◌∙◌, false, List, [], ◌∷◌, arith, leb, ◌==◌, Bool-cases, inl,
  inr, le→leb, ==_iff, subst,
}
use co_kv.Prelude.Run.{done}
use co_kv.SkipList.Memory.{KeyOrder, State}
use co_kv.SkipList.Ops.{Update, set_update, advance, descend, descend_update}
use co_kv.SkipList.Cells.{Cell}
use co_kv.SkipList.Walk.{
  Spot, pos, pos-nil, pos-high, pos-low, pos-pos, Stands, Stands-pos, Stands-lower,
}
use co_kv.SkipList.Advance.{Before, NotBefore, advance-pos}

module _ {K : Type 0} (top : Cell K) (bs : List (Cell K)) where
  -- The spot of the walk at a level.
  abbrev pub at : ℕ → Spot K
  at j = pos j (top, bs) bs

  -- The array `update` behind the walk: the spot of each level that it came through.
  unfoldable pub walked : ℕ → Update → Update
  walked zero u = u
  walked (suc i) u = walked i (set_update u i (at i).0.ptr)

  pub walked-ge : (i j : ℕ) (u : Update) → i ≤ j → walked i u j ≡ u j
  unfolding walked
  walked-ge zero j u h = refl
  walked-ge (suc i) j u h =
      let e : (j == i) ≡ false = ground arith in
      walked-ge i j (set_update u i (at i).0.ptr) (omega arith) ∙ rw e

  pub walked-lt : (i j : ℕ) (u : Update) → j < i → walked i u j ≡ (at j).0.ptr
  unfolding walked
  walked-lt zero j u h = elim h [ ]
  walked-lt (suc i) j u h = elim (Bool-cases (j == i)) [
    | inl e ↦ walked-ge i j (set_update u i (at i).0.ptr) (ground arith) ∙ rw (e, (==_iff j i).0 e)
    | inr e ↦ walked-lt i j (set_update u i (at i).0.ptr) (ground arith)
  ]

-- The spots of the walk from `top`, one for each level, given that `top` reaches them all.
module _ {K : Type 0} ⦃o : KeyOrder K⦄ (s : State K) (key : K) (top : Cell K)
    (bs from : List (Cell K)) (bef : Before key bs) (nb : NotBefore key from) (n : ℕ) where
  -- The walk stands at `b` and has the levels up to `i` before it.
  pub record Along (i : ℕ) (b : Spot K) : Type 0 where
    pub stands : Stands s from i n b
    pub all_before : Before key b.1
    pub meets : (j : ℕ) → j ≤ i → pos j b b.1 ≡ at top bs j

  Before-pos :
      (i : ℕ) (xs : List (Cell K)) (b : Spot K)
      → Before key b.1
      → Before key xs
      → Before key (pos i b xs).1
  Before-pos i [] b h k = rw (pos-nil i b) h
  Before-pos i (d ∷ ds) b h k = elim (Bool-cases (leb i d.level)) [
    | inl high ↦ rw (pos-high i b d ds high) (Before-pos i ds (d, ds) k.1 k.1)
    | inr low ↦ rw (pos-low i b d ds low) (Before-pos i ds b h k.1)
  ]

  Along-pos : (i : ℕ) (b : Spot K) → Along i b → Along i (pos i b b.1)
  Along-pos i b a = record {
    stands = Stands-pos i n b.1 b a.stands a.stands.chain a.stands.short;
    all_before = Before-pos i b.1 b a.all_before a.all_before;
    meets = λ j h. pos-pos j i b.1 b b h refl ∙ a.meets j h;
  }

  advance-Along :
      (i : ℕ) (b : Spot K)
      → Along i b
      → advance (suc n) i key b.0.ptr s ≡ done (pos i b b.1).0.ptr s
  advance-Along i b a =
      advance-pos s key (suc n) i b.1 from b a.stands.holds a.stands.high refl a.stands.chain
        a.all_before nb (omega (arith, a.stands.short))

  Along-lower : (i : ℕ) (b : Spot K) → Along (suc i) b → Along i b
  Along-lower i b a = record {
    stands = Stands-lower (omega arith) a.stands;
    all_before = a.all_before;
    meets = λ j h. a.meets j (omega arith);
  }

  next-Along : (i : ℕ) (b : Spot K) → Along i b → pos i b b.1 ≡ at top bs i × Along i (at top bs i)
  next-Along i b a =
      (a.meets i (omega arith), subst (Along i) (a.meets i (omega arith)) (Along-pos i b a))

  pub descend-pos :
      (i : ℕ) (b : Spot K)
      → Along i b
      → descend (suc i) (suc n) key b.0.ptr s ≡ done (at top bs 0).0.ptr s
  unfolding descend
  descend-pos zero b a = rw (advance-Along zero b a, (next-Along zero b a).0)
  descend-pos (suc i) b a =
      rw (advance-Along (suc i) b a, (next-Along (suc i) b a).0)
        (descend-pos i (at top bs (suc i))
          (Along-lower i (at top bs (suc i)) (next-Along (suc i) b a).1))

  pub descend_update-pos :
      (i : ℕ) (b : Spot K) (u : Update)
      → Along i b
      → i ≤ s.max_level
      → descend_update (suc i) (suc n) key b.0.ptr u s
        ≡ done ((at top bs 0).0.ptr, walked top bs (suc i) u) s
  unfolding descend_update walked
  descend_update-pos zero b u a h =
      rw (advance-Along zero b a, (next-Along zero b a).0, le→leb zero s.max_level h)
  descend_update-pos (suc i) b u a h =
      rw (advance-Along (suc i) b a, (next-Along (suc i) b a).0, le→leb (suc i) s.max_level h)
        (descend_update-pos i (at top bs (suc i)) (set_update u (suc i) (at top bs (suc i)).0.ptr)
          (Along-lower i (at top bs (suc i)) (next-Along (suc i) b a).1) (omega arith))
