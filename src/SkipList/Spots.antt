-- ===== src/SkipList/Spots.antt =====
-- The spots at which an insertion or a removal changes pointers.
use co_kv.Prelude.{
  ℕ, ◌≤◌, ◌<◌, ◌≡◌, refl, ◌∙◌, ap, false, List, [], ◌∷◌, arith, All, All-map, All-left, max,
}
use co_kv.SkipList.Memory.{KeyOrder, Ptr, State}
use co_kv.SkipList.Cells.{
  Cell, node_of, first, first-append_out, height, height_bounds, reaches, reaches-append,
}
use co_kv.SkipList.Sorted.{before, from, before-append-from}
use co_kv.SkipList.Walk.{pos-not-reaches, reaches-pos, Stands, Stands-pos}
use co_kv.SkipList.Descend.{at}
use co_kv.SkipList.Link.{Reach}
use co_kv.SkipList.Inv.{IsSkipList, cut, length-before}

module _ {K : Type 0} where
  All-height : (cs : List (Cell K)) → All (λ c. c.level ≤ height cs) cs
  unfolding height
  All-height [] = tt
  All-height (c ∷ cs) = (
    omega arith,
    All-map (λ d. d.level ≤ height cs) (λ d. d.level ≤ max c.level (height cs)) cs
        (λ d h. omega arith) (All-height cs),
  )

module _ {K : Type 0} ⦃o : KeyOrder K⦄ {s : State K} {top : Cell K} {cs : List (Cell K)}
    (inv : IsSkipList s top cs) (key : K) where
  -- The address of the spot at a level.
  abbrev pub spot : ℕ → Ptr
  spot j = (at top (before key cs) j).0.ptr

  spot-Stands :
      (j : ℕ)
      → j ≤ s.max_level
      → Stands s (from key cs) j s.element_count (at top (before key cs) j)
  spot-Stands j h =
      Stands-pos j s.element_count (before key cs) (top, before key cs)
        (record {
          holds = (cut inv key).0;
          chain = (cut inv key).1;
          high = omega (arith, inv.top_level);
          short = length-before inv key;
        })
        (cut inv key).1 (length-before inv key)

  pub spot-Reach : (j : ℕ) → j ≤ s.max_level → Reach s (spot j) j
  spot-Reach j h = record {
    ne_null = (spot-Stands j h).holds.ne_null;
    target = node_of (at top (before key cs) j).0;
    node = (spot-Stands j h).holds.node;
    high = (spot-Stands j h).high;
  }

  -- The pointer of a spot leads to the first tower from the key on that reaches the level.
  pub spot-forward : (j : ℕ) → j ≤ s.max_level → s.forward (spot j) j ≡ first j (from key cs)
  spot-forward j h =
      (spot-Stands j h).holds.links j (spot-Stands j h).high
      ∙ first-append_out j (at top (before key cs) j).1 (from key cs)
          (reaches-pos j (before key cs) (top, before key cs) refl)

  reaches-before : (j : ℕ) → s.skip_list_level < j → reaches j (before key cs) ≡ false
  reaches-before j h = ground (
    arith,
    reaches-append j (before key cs) (from key cs),
    ap (reaches {K = K} j) (before-append-from key cs),
    height_bounds j cs (omega (arith, inv.level)),
  )

  -- Above the level in use the spot is the header.
  pub spot_above : (j : ℕ) → s.skip_list_level < j → spot j ≡ top.ptr
  spot_above j h =
      ap (λ (b : Cell K × List (Cell K)). b.0.ptr)
        (pos-not-reaches j (before key cs) (top, before key cs) (reaches-before j h))

  -- All towers fit into the arrays of the header.
  pub levels-fit : All (λ d. d.level ≤ s.max_level) (top ∷ before key cs)
  levels-fit = (
    omega (arith, inv.top_level),
    All-left (λ d. d.level ≤ s.max_level) (before key cs) (from key cs)
        (rw (before-append-from key cs) (
          All-map (λ c. c.level ≤ height cs) (λ d. d.level ≤ s.max_level) cs
            (λ d h. omega (arith, inv.level, inv.fits)) (All-height cs))),
  )
