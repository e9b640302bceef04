-- ===== src/SkipList/Insert.antt =====
-- The memory behind `insert_element`: a chain with the new tower at its place.
pub mod Correct
use native.Mathlib.Numerals.{add-one}
use co_kv.Prelude.{
  ℕ, zero, suc, ◌+◌, ◌-◌, ◌≤◌, ◌<◌, min, max, ◌≡◌, ◌≢◌, refl, sym, ◌∙◌, ap, subst, Bool, true,
  false, ◌||◌, Option, none, some, List, [], ◌∷◌, ◌++◌, arith, ltb, leb, ◌==◌, if◌then◌else◌,
  length, All, is_some, Bool-cases, inl, inr, length-append, leb→le,
}
use co_kv.Prelude.Run.{Run, done, ◌>>=◌, bind_run, pure, get_state, ◌>>◌}
use co_kv.SkipList.Memory.{KeyOrder, Bytes, Ptr, null, Node, State, load_forward, update_at}
use co_kv.SkipList.Ops.{
  Update, raise_level, insert_new, insert_element, create_node, link, matches, raise_update,
}
use co_kv.SkipList.Cells.{
  Cell, node_of, first, has, height, height-append, Holds, Chain, Chain-right, has-append, has-null,
}
use co_kv.SkipList.Sorted.{
  Sorted, lookup, head_value, before, from, before-append-from, lookup-from,
}
use co_kv.SkipList.Walk.{first-high, first-low}
use co_kv.SkipList.Descend.{at, walked, walked-lt}
use co_kv.SkipList.Inv.{IsSkipList, descend_update_start, found_at, cut}
use co_kv.SkipList.Lookup.{matches-head, from-Chain}
use co_kv.SkipList.Relink.{
  relink, has-spot, has-cons_ne, Chain-apart, Chain-frame, has-fresh, has-left, has-right, has-ne,
}
use co_kv.SkipList.Link.{
  raised, raised-lt, raised-in, raise_update-raised, linked, linked_new, linked_spot, linked_else,
  Reach, link-linked, with_forward,
}
use co_kv.SkipList.Random.{toss, with_draws, get_random_level-toss}
use co_kv.SkipList.Spots.{spot, spot-Reach, spot-forward, spot_above, levels-fit}

-- The cell of the new node.
abbrev pub new_cell : {K : Type 0} → Ptr → K → Bytes → ℕ → Cell K
new_cell fresh key value level = record { ptr = fresh; key = key; value = value; level = level }

-- The pointers behind `create_node`.
abbrev pub created : {K : Type 0} → State K → Ptr → Ptr → ℕ → Ptr
created s fresh = update_at s.forward fresh (λ _. null)

-- The memory behind the insertion of a cell, for an array `u` that holds the spots.
abbrev pub after : {K : Type 0} → State K → Cell K → Update → List ℕ → State K
after s c u rest = record s {
  node = update_at s.node c.ptr (some (node_of c));
  forward = linked (c.level + 1) 0 c.ptr u (created s c.ptr);
  skip_list_level = if ltb s.skip_list_level c.level then c.level else s.skip_list_level;
  element_count = s.element_count + 1;
  draws = rest;
}

module _ {K : Type 0} ⦃o : KeyOrder K⦄ {s : State K} {top : Cell K} {cs : List (Cell K)}
    (inv : IsSkipList s top cs) (fresh : Ptr) (key : K) (value : Bytes) (level : ℕ)
    (ne_null : fresh ≢ null) (unused : s.node fresh ≡ none) (fits : level ≤ s.max_level) where
  abbrev new : Cell K
  new = new_cell fresh key value level

  created_ne : (p : Ptr) (j : ℕ) → p ≢ fresh → created s fresh p j ≡ s.forward p j
  created_ne p j h = let e : (p == fresh) ≡ false = ground arith in rw e

  pub spot-ne-fresh : (j : ℕ) → spot inv key j ≢ fresh
  spot-ne-fresh j =
      has-ne (spot inv key j) fresh (top ∷ before key cs) (has-spot j top (before key cs)) (
        has-left fresh (top ∷ before key cs) (from key cs)
          (has-fresh s fresh _ (cut inv key) unused))

  fresh-from : has fresh (from key cs) ≡ false
  fresh-from =
      has-right fresh (top ∷ before key cs) (from key cs) (has-fresh s fresh _ (cut inv key) unused)

  ne-fresh : (p : Ptr) → has p (top ∷ before key cs) ≡ true → p ≢ fresh
  ne-fresh p h = has-ne p fresh (top ∷ before key cs) h (
      has-left fresh (top ∷ before key cs) (from key cs) (has-fresh s fresh _ (cut inv key) unused))

  spot-from : (j : ℕ) → has (spot inv key j) (from key cs) ≡ false
  spot-from j =
      Chain-apart s (spot inv key j) (top ∷ before key cs) (from key cs) (cut inv key)
        (has-spot j top (before key cs))

  module _ (u : Update) (ue : (j : ℕ) → j ≤ level → u j ≡ spot inv key j) (rest : List ℕ) where
    u-ne-fresh : (j : ℕ) → j < 0 + (level + 1) → u j ≢ fresh
    u-ne-fresh j h e = spot-ne-fresh j (sym (ue j (omega arith)) ∙ e)

    after-new : (j : ℕ) → j ≤ level → (after s new u rest).forward fresh j ≡ first j (from key cs)
    after-new j h =
        linked_new fresh u (level + 1) 0 (created s fresh) j u-ne-fresh (omega arith) (omega arith)
        ∙ created_ne (u j) j (u-ne-fresh j (omega arith))
        ∙ ap (λ (p : Ptr). s.forward p j) (ue j h)
        ∙ spot-forward inv key j (omega arith)

    -- Away from the new node and the spots nothing changes.
    after_else :
        (p : Ptr) (j : ℕ)
        → p ≢ fresh
        → (j ≤ level → p ≢ spot inv key j)
        → (after s new u rest).forward p j ≡ s.forward p j
    after_else p j h k =
        linked_else fresh u (level + 1) 0 (created s fresh) p j h
          (λ l e. k (omega arith) (e ∙ ue j (omega arith)))
        ∙ created_ne p j h

    pub after_node : (p : Ptr) → p ≢ fresh → (after s new u rest).node p ≡ s.node p
    after_node p h = let e : (p == fresh) ≡ false = ground arith in rw e

    pub after_new_node : (after s new u rest).node fresh ≡ some (node_of new)
    after_new_node = let e : (fresh == fresh) ≡ true = ground arith in rw e

    from-after : Chain (after s new u rest) (from key cs)
    from-after =
        Chain-frame s (after s new u rest) (from key cs) (from-Chain inv key)
          (λ p h. after_node p (has-ne p fresh (from key cs) h fresh-from))
          (λ p i h.
            after_else p i (has-ne p fresh (from key cs) h fresh-from)
              (λ l. has-ne p (spot inv key i) (from key cs) h (spot-from i)))

    tail-after : Chain (after s new u rest) (new ∷ from key cs)
    tail-after = (
      record { ne_null = ne_null; node = after_new_node; links = after-new; apart = fresh-from },
      from-after,
    )

    -- At a spot the new tail is what comes first, on every level of the header.
    spot-after :
        (j : ℕ)
        → j ≤ s.max_level
        → (after s new u rest).forward (spot inv key j) j ≡ first j (new ∷ from key cs)
    spot-after j h = elim (Bool-cases (leb j level)) [
      | inl e ↦
          ap (λ (p : Ptr). (after s new u rest).forward p j) (sym (ue j (leb→le j level e)))
          ∙ linked_spot fresh u (level + 1) 0 (created s fresh) j (omega arith) (ground arith)
          ∙ sym (first-high j new (from key cs) e)
      | inr e ↦
          after_else (spot inv key j) j (spot-ne-fresh j) (λ l. absurd (ground arith))
          ∙ spot-forward inv key j h
          ∙ sym (first-low j new (from key cs) e)
    ]

    pub Chain-after : Chain (after s new u rest) (top ∷ (before key cs ++ new ∷ from key cs))
    Chain-after =
        relink s (after s new u rest) (from key cs) (new ∷ from key cs) (spot inv key) s.max_level
          tail-after spot-after top (before key cs) (λ _. (top, before key cs)) (cut inv key)
          (λ i h. refl) (λ i l k. absurd (omega (arith, inv.top_level))) (λ i. refl)
          (levels-fit inv key) (λ p h. after_node p (ne-fresh p h))
          (λ p i h k. after_else p i (ne-fresh p h) (λ l. k))
          (λ p h.
            has-cons_ne p new (from key cs) (ne-fresh p h)
              (Chain-apart s p (top ∷ before key cs) (from key cs) (cut inv key) h))
