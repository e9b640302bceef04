-- ===== src/SkipList/Advance.antt =====
-- The inner loop of the searches of skiplist/skiplist.h, on a list of towers.
use co_kv.Prelude.{
  ℕ, zero, suc, ◌≤◌, ◌<◌, ◌≡◌, ◌≢◌, refl, ◌∙◌, ap, true, false, some, List, [], ◌∷◌, ◌++◌, arith,
  leb, ◌==◌, length, All, Bool-cases, inl, inr, le→leb, leb→le,
}
use co_kv.Prelude.Run.{done}
use co_kv.SkipList.Memory.{KeyOrder, Ptr, null, Node, State, load, load_forward}
use co_kv.SkipList.Ops.{advance}
use co_kv.SkipList.Cells.{Cell, node_of, first, Holds, Chain}
use co_kv.SkipList.Walk.{Spot, pos, pos-high, pos-low, pos-nil, first-high, first-low}

module _ {K : Type 0} where
  pub load-ok :
      (s : State K) (p : Ptr) (n : Node K) → p ≢ null → s.node p ≡ some n → load p s ≡ done n s
  unfolding load
  load-ok s p n ne e = let f : (p == null) ≡ false = ground arith in rw (f, e)

  pub load_forward-ok :
      (s : State K) (p : Ptr) (n : Node K) (i : ℕ)
      → p ≢ null
      → s.node p ≡ some n
      → i ≤ n.node_level
      → load_forward p i s ≡ done (s.forward p i) s
  unfolding load_forward
  load_forward-ok s p n i ne e h =
      let f : (p == null) ≡ false = ground arith in rw (f, e, le→leb i n.node_level h)

module _ {K : Type 0} ⦃o : KeyOrder K⦄ (key : K) where
  -- Every tower is before the key.
  abbrev pub Before : List (Cell K) → Type 0
  Before = All (λ c. o.lt c.key key ≡ true)

  abbrev pub NotBefore : List (Cell K) → Type 0
  NotBefore = All (λ c. o.lt c.key key ≡ false)

-- Where no tower of `from` is before the key, the first of them that reaches a level stops the walk.
module _ {K : Type 0} ⦃o : KeyOrder K⦄ (s : State K) (key : K) where
  module _ (fuel i : ℕ) (p q : Ptr) (c : Node K) (ne : p ≢ null) (e : s.node p ≡ some c)
      (h : i ≤ c.node_level) (link : s.forward p i ≡ q) where
    advance-null : q ≡ null → advance (suc fuel) i key p s ≡ done p s
    unfolding advance
    advance-null z =
        let f : (q == null) ≡ true = ground arith in rw (load_forward-ok s p c i ne e h, link, f)

    module _ (d : Node K) (ne' : q ≢ null) (e' : s.node q ≡ some d) where
      advance_stay : o.lt d.key key ≡ false → advance (suc fuel) i key p s ≡ done p s
      unfolding advance
      advance_stay l =
          let f : (q == null) ≡ false = ground arith in
          rw (load_forward-ok s p c i ne e h, link, f, load-ok s q d ne' e', l)

      advance_go : o.lt d.key key ≡ true → advance (suc fuel) i key p s ≡ advance fuel i key q s
      unfolding advance
      advance_go l =
          let f : (q == null) ≡ false = ground arith in
          rw (load_forward-ok s p c i ne e h, link, f, load-ok s q d ne' e', l)
            (ap (λ (t : Ptr). advance fuel i key t s) link)

  pub advance_stop :
      (fuel i : ℕ) (c : Cell K) (from : List (Cell K))
      → c.ptr ≢ null
      → s.node c.ptr ≡ some (node_of c)
      → i ≤ c.level
      → s.forward c.ptr i ≡ first i from
      → Chain s from
      → NotBefore key from
      → advance (suc fuel) i key c.ptr s ≡ done c.ptr s
  unfolding first
  advance_stop fuel i c [] ne e h link ch nb =
      advance-null fuel i c.ptr null (node_of c) ne e h link refl
  advance_stop fuel i c (d ∷ ds) ne e h link (hd, ch) (nd, nb) = elim (Bool-cases (leb i d.level)) [
    | inl high ↦
        advance_stay fuel i c.ptr d.ptr (node_of c) ne e h (ground arith) (node_of d) hd.ne_null
          hd.node nd
    | inr low ↦ advance_stop fuel i c ds ne e h (ground arith) ch nb
  ]

  -- The inner loop stops at the last tower of its level that is before the key.
  pub advance-pos :
      (fuel i : ℕ) (bs from : List (Cell K)) (b : Spot K)
      → Holds s b.0 (b.1 ++ from)
      → i ≤ b.0.level
      → first i (b.1 ++ from) ≡ first i (bs ++ from)
      → Chain s (bs ++ from)
      → Before key bs
      → NotBefore key from
      → length bs < fuel
      → advance fuel i key b.0.ptr s ≡ done (pos i b bs).0.ptr s
  advance-pos zero i bs from b hb up link ch bef nb short = absurd (omega arith)
  advance-pos (suc f) i [] from b hb up link ch bef nb short =
      rw (pos-nil i b)
        (advance_stop f i b.0 from hb.ne_null hb.node up (hb.links i up ∙ link) ch nb)
  advance-pos (suc f) i (d ∷ ds) from b hb up link (hd, ch) (bd, bef) nb short =
      elim (Bool-cases (leb i d.level)) [
        | inl high ↦
            rw
              (
                pos-high i b d ds high,
                advance_go f i b.0.ptr d.ptr (node_of b.0) hb.ne_null hb.node up
                    (hb.links i up ∙ link ∙ first-high i d (ds ++ from) high) (node_of d) hd.ne_null
                    hd.node bd,
              )
              (advance-pos f i ds from (d, ds) hd (leb→le i d.level high) refl ch bef nb
                (omega arith))
        | inr low ↦ rw (pos-low i b d ds low) (
            advance-pos (suc f) i ds from b hb up (link ∙ first-low i d (ds ++ from) low) ch bef nb
              (omega arith))
      ]
