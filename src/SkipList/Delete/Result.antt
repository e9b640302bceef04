-- ===== src/SkipList/Delete/Result.antt =====
-- What `delete_element` does, on both of its branches.
use co_kv.Prelude.{
  ℕ, suc, ◌≤◌, ◌≡◌, ◌≢◌, refl, sym, ◌∙◌, subst, true, false, none, some, List, [], ◌∷◌, ◌++◌, arith,
  ◌==◌, Bool-cases, inl, inr, ==_refl,
}
use co_kv.Prelude.Run.{done}
use co_kv.SkipList.Memory.{KeyOrder, Bytes, Ptr, State}
use co_kv.SkipList.Ops.{Update, delete_found, delete_element}
use co_kv.SkipList.Cells.{Cell, first, first_zero, height}
use co_kv.SkipList.Sorted.{Sorted, lookup, head_value, before, from, lookup-from}
use co_kv.SkipList.Sorted.Update.{Sorted-delete}
use co_kv.SkipList.Descend.{walked, walked-lt}
use co_kv.SkipList.Inv.{IsSkipList, descend_update_start, found_at}
use co_kv.SkipList.Lookup.{matches-head, from-Chain}
use co_kv.SkipList.Spots.{spot}
use co_kv.SkipList.Delete.Correct.{
  removed, delete_found-removed, Chain-removed, cells, height-left, length-left,
}

module _ {K : Type 0} ⦃o : KeyOrder K⦄ {s : State K} {top : Cell K} {cs : List (Cell K)}
    (inv : IsSkipList s top cs) (key : K) where
  abbrev behind : Update
  behind = walked top (before key cs) (suc s.skip_list_level) (λ _. 0)

  behind-spot : (j : ℕ) → j ≤ s.skip_list_level → behind j ≡ spot inv key j
  behind-spot j h = walked-lt top (before key cs) (suc s.skip_list_level) j (λ _. 0) (omega arith)

  -- Deleting a key that is not there changes nothing.
  pub delete_element-unknown : lookup key cs ≡ none → delete_element key s ≡ done tt s
  unfolding delete_element
  delete_element-unknown e =
      let h : head_value key (from key cs) ≡ none = sym (lookup-from key cs inv.sorted) ∙ e in
      rw (
        descend_update_start inv key (λ _. 0),
        found_at inv key,
        matches-head s key (from key cs) (from-Chain inv key),
        h,
      )

  delete_element-found :
      (d : Cell K) (ds : List (Cell K))
      → from key cs ≡ d ∷ ds
      → o.eq d.key key ≡ true
      → delete_element key s ≡ delete_found d.ptr behind s
  unfolding delete_element
  delete_element-found d ds split same =
      let h : head_value key (from key cs) ≡ some d.value = rw (split, same) in
      let p : first 0 (from key cs) ≡ d.ptr = rw split (first_zero d ds) in
      rw (
        descend_update_start inv key (λ _. 0),
        found_at inv key,
        matches-head s key (from key cs) (from-Chain inv key),
        h,
        p,
      )

  removed-IsSkipList :
      (d : Cell K) (ds : List (Cell K)) (split : from key cs ≡ d ∷ ds)
      → IsSkipList (removed s d behind (height (before key cs ++ ds))) top (before key cs ++ ds)
  removed-IsSkipList d ds split = record {
    header = inv.header;
    top_level = inv.top_level;
    chain = Chain-removed inv key d ds split behind behind-spot (height (before key cs ++ ds));
    sorted =
        Sorted-delete d (before key cs) ds
          (subst Sorted (sym (cells inv key d ds split behind behind-spot 0)) inv.sorted);
    level = refl;
    fits = omega (arith, height-left inv key d ds split behind behind-spot 0, inv.fits);
    count = omega (arith, inv.count, length-left inv key d ds split behind behind-spot 0);
  }

  -- The tower with the key is the first of those from the key on.
  key_head :
      (ys : List (Cell K)) (v : Bytes)
      → head_value key ys ≡ some v
      → (d : Cell K) × (ds : List (Cell K)) × (ys ≡ d ∷ ds) × (o.eq d.key key ≡ true)
  key_head [] v h = cc
  key_head (y ∷ ys) v h = elim (Bool-cases (o.eq y.key key)) [
    | inl e ↦ (y, ys, refl, e)
    | inr e ↦ absurd (cc (let k : none ≡ some v = rw e at h in k))
  ]

  -- Deleting a key that is there leaves a skip list without its tower, and frees the node.
  pub delete_element-IsSkipList :
      (v : Bytes)
      → lookup key cs ≡ some v
      → (d : Cell K) × (ds : List (Cell K)) × (s' : State K) × (delete_element key s ≡ done tt s')
        × (before key cs ++ d ∷ ds ≡ cs)
        × (d.key ≡ key)
        × IsSkipList s' top (before key cs ++ ds)
        × (s'.node d.ptr ≡ none)
        × ((q : Ptr) → q ≢ d.ptr → s'.node q ≡ s.node q)
        × (s'.draws ≡ s.draws)
  delete_element-IsSkipList v e =
      let (d, ds, split, same) =
        key_head (from key cs) v (sym (lookup-from key cs inv.sorted) ∙ e) in
      (
        d,
        ds,
        removed s d behind (height (before key cs ++ ds)),
        delete_element-found d ds split same
            ∙ delete_found-removed inv key d ds split behind behind-spot 0,
        cells inv key d ds split behind behind-spot 0,
        (o.eq_iff d.key key).0 same,
        removed-IsSkipList d ds split,
        (let f : (d.ptr == d.ptr) ≡ true = ==_refl d.ptr in rw f),
        λ q ne. (let f : (q == d.ptr) ≡ false = ground arith in rw f),
        refl,
      )
