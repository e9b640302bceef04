-- ===== src/SkipList/Delete/Correct.antt =====
-- The steps of `delete_element` (skiplist/skiplist.h) for a key that is there.
use co_kv.Prelude.{
  ℕ, ◌+◌, ◌-◌, ◌≤◌, ◌<◌, ◌≡◌, ◌≢◌, refl, sym, ◌∙◌, ap, subst, false, none, List, ◌∷◌, ◌++◌, arith,
  leb, ◌==◌, length, Bool-cases, inl, inr, length-append,
}
use co_kv.Prelude.Run.{done}
use co_kv.SkipList.Memory.{KeyOrder, Ptr, State, update_at, free}
use co_kv.SkipList.Ops.{Update, unlink, lower_level, delete_found}
use co_kv.SkipList.Cells.{
  Cell, node_of, first, has, has-first, height, height-append, reaches, not-reaches-first, Chain,
}
use co_kv.SkipList.Sorted.{before, from, before-append-from}
use co_kv.SkipList.Walk.{first-low}
use co_kv.SkipList.Advance.{load-ok}
use co_kv.SkipList.Inv.{IsSkipList, cut}
use co_kv.SkipList.Lookup.{from-Chain}
use co_kv.SkipList.Relink.{relink, has-spot, Chain-apart, Chain-frame, has-ne}
use co_kv.SkipList.Link.{with_forward}
use co_kv.SkipList.Spots.{spot, spot-Reach, spot-forward, levels-fit}
use co_kv.SkipList.Delete.{
  unlinked, unlinked_else, unlinked_spot, unlink-unlinked, lower_level-height,
}

-- The memory behind the removal of the node of `d`, for an array `u` that holds the spots.
abbrev pub removed : {K : Type 0} → State K → Cell K → Update → ℕ → State K
removed s d u l = record s {
  node = update_at s.node d.ptr none;
  forward = unlinked (d.level + 1) 0 d.ptr u s.forward;
  skip_list_level = l;
  element_count = s.element_count - 1;
}

module _ {K : Type 0} ⦃o : KeyOrder K⦄ {s : State K} {top : Cell K} {cs : List (Cell K)}
    (inv : IsSkipList s top cs) (key : K) (d : Cell K) (ds : List (Cell K))
    (split : from key cs ≡ d ∷ ds) (u : Update)
    (ue : (j : ℕ) → j ≤ s.skip_list_level → u j ≡ spot inv key j) (l : ℕ) where
  abbrev bs : List (Cell K)
  bs = before key cs

  abbrev left : List (Cell K)
  left = bs ++ ds

  cut_at : Chain s (top ∷ (bs ++ d ∷ ds))
  cut_at = subst (λ (ys : List (Cell K)). Chain s (top ∷ (bs ++ ys))) split (cut inv key)

  tail_at : Chain s (d ∷ ds)
  tail_at = subst (Chain s) split (from-Chain inv key)

  pub cells : bs ++ d ∷ ds ≡ cs
  cells = ap (λ (ys : List (Cell K)). bs ++ ys) (sym split) ∙ before-append-from key cs

  low : d.level ≤ s.skip_list_level
  unfolding height
  low = omega (arith, inv.level, ap (height {K = K}) cells, height-append bs (d ∷ ds))

  spot-outside : (j : ℕ) → has (spot inv key j) (d ∷ ds) ≡ false
  spot-outside j = Chain-apart s (spot inv key j) (top ∷ bs) (d ∷ ds) cut_at (has-spot j top bs)

  u-ne : (j : ℕ) → j < 0 + (d.level + 1) → u j ≢ d.ptr
  unfolding has
  u-ne j h = ground (arith, ue j (omega (arith, low)), spot-outside j)

  forward_spot : (j : ℕ) → j ≤ s.max_level → s.forward (spot inv key j) j ≡ first j (d ∷ ds)
  forward_spot j h = spot-forward inv key j h ∙ ap (first j) split

  -- At the levels of the node the spots lead to it, and at the next they do not.
  to_node : (j : ℕ) → 0 ≤ j → j < 0 + (d.level + 1) → s.forward (u j) j ≡ d.ptr
  unfolding first
  to_node j h k =
      ground (arith, ue j (omega (arith, low)), forward_spot j (omega (arith, low, inv.fits)))

  first-ne : (j : ℕ) → first j ds ≢ d.ptr
  first-ne j = elim (Bool-cases (reaches j ds)) [
    | inl r ↦ has-ne (first j ds) d.ptr ds (has-first j ds r) tail_at.0.apart
    | inr r ↦ λ e. tail_at.0.ne_null (sym e ∙ not-reaches-first j ds r)
  ]

  past_node :
      d.level + 1 < s.skip_list_level + 1
      → s.forward (u (0 + (d.level + 1))) (0 + (d.level + 1)) ≢ d.ptr
  past_node h =
      let j : ℕ = 0 + (d.level + 1) in
      let e : leb j d.level ≡ false = ground arith in
      rw (ue j (omega arith), forward_spot j (omega (arith, inv.fits)), first-low j d ds e)
        (first-ne j)

  unlink_run :
      unlink (s.skip_list_level + 1) 0 d.ptr u s
      ≡ done tt (with_forward s (unlinked (d.level + 1) 0 d.ptr u s.forward))
  unlink_run =
      unlink-unlinked (s.skip_list_level + 1) (d.level + 1) 0 d.ptr u s (omega (arith, low)) to_node
        past_node (λ j h. rw (ue j (omega arith)) (spot-Reach inv key j (omega (arith, inv.fits))))
        (λ j h. record {
          ne_null = tail_at.0.ne_null;
          target = node_of d;
          node = tail_at.0.node;
          high = omega arith;
        })

  abbrev s' : State K
  s' = removed s d u l

  -- Away from the spots nothing changes.
  removed_else :
      (q : Ptr) (j : ℕ) → (j ≤ d.level → q ≢ spot inv key j) → s'.forward q j ≡ s.forward q j
  removed_else q j h =
      unlinked_else d.ptr u (d.level + 1) 0 s.forward q j
        (λ k m e. h (omega arith) (e ∙ ue j (omega (arith, low))))

  spot_removed : (j : ℕ) → j ≤ s.max_level → s'.forward (spot inv key j) j ≡ first j ds
  spot_removed j h = elim (Bool-cases (leb j d.level)) [
    | inl e ↦ rw (← ue j (ground (arith, low))) (
        unlinked_spot d.ptr u (d.level + 1) 0 s.forward j u-ne (omega arith) (ground arith)
        ∙ tail_at.0.links j (ground arith))
    | inr e ↦
        removed_else (spot inv key j) j (λ k. absurd (ground arith))
        ∙ forward_spot j h
        ∙ first-low j d ds e
  ]

  removed_node : (q : Ptr) → q ≢ d.ptr → s'.node q ≡ s.node q
  removed_node q h = let e : (q == d.ptr) ≡ false = ground arith in rw e

  tail_removed : Chain s' ds
  unfolding has
  tail_removed =
      Chain-frame s s' ds tail_at.1 (λ p h. removed_node p (has-ne p d.ptr ds h tail_at.0.apart))
        (λ p i h.
          removed_else p i (λ k. has-ne p (spot inv key i) ds h (ground (arith, spot-outside i))))

  pub Chain-removed : Chain s' (top ∷ left)
  unfolding has
  Chain-removed =
      relink s s' (d ∷ ds) ds (spot inv key) s.max_level tail_removed spot_removed top bs
        (λ _. (top, bs)) cut_at (λ i h. refl) (λ i k m. absurd (omega (arith, inv.top_level)))
        (λ i. refl) (levels-fit inv key)
        (λ p h. removed_node p (ground (arith, Chain-apart s p (top ∷ bs) (d ∷ ds) cut_at h)))
        (λ p i h k. removed_else p i (λ m. k))
        (λ p h. ground (arith, Chain-apart s p (top ∷ bs) (d ∷ ds) cut_at h))

  pub height-left : height left ≤ s.skip_list_level
  unfolding height
  height-left =
      omega (
        arith,
        inv.level,
        ap (height {K = K}) cells,
        height-append bs (d ∷ ds),
        height-append bs ds,
      )

  pub length-left : length cs ≡ length left + 1
  length-left =
      omega (arith, ap (length {A = Cell K}) cells, length-append bs (d ∷ ds), length-append bs ds)

  lower_run :
      lower_level s.skip_list_level (with_forward s (unlinked (d.level + 1) 0 d.ptr u s.forward))
      ≡ done tt (record s {
        forward = unlinked (d.level + 1) 0 d.ptr u s.forward;
        skip_list_level = height left;
      })
  lower_run =
      let t = with_forward s (unlinked (d.level + 1) 0 d.ptr u s.forward) in
      lower_level-height s.skip_list_level t s' left Chain-removed.1 height-left
        (λ j h. record {
          ne_null = rw inv.header inv.chain.0.ne_null;
          target = node_of top;
          node = rw inv.header inv.chain.0.node;
          high = omega (arith, inv.fits, inv.top_level);
        })
        (λ j h.
          ap (λ (p : Ptr). s'.forward p j) inv.header
          ∙ Chain-removed.0.links j (omega (arith, inv.fits, inv.top_level)))

  pub delete_found-removed : delete_found d.ptr u s ≡ done tt (removed s d u (height left))
  unfolding delete_found free
  delete_found-removed = rw (
    unlink_run,
    lower_run,
    load-ok
        (record s {
          forward = unlinked (d.level + 1) 0 d.ptr u s.forward;
          skip_list_level = height left;
        })
        d.ptr (node_of d) tail_at.0.ne_null tail_at.0.node,
  )
