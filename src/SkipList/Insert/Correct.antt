-- ===== src/SkipList/Insert/Correct.antt =====
-- The steps of `insert_element` (skiplist/skiplist.h), and the whole of it, on both of its branches.
use co_kv.Prelude.{
  ℕ, suc, ◌+◌, ◌-◌, ◌≤◌, ◌<◌, min, max, ◌≡◌, ◌≢◌, refl, sym, ◌∙◌, ap, true, false, none, some, List,
  ◌∷◌, ◌++◌, arith, ltb, leb, ◌==◌, if◌then◌else◌, length, Bool-cases, inl, inr, length-append,
  leb→le, ==_refl,
}
use co_kv.Prelude.Run.{done}
use co_kv.SkipList.Memory.{KeyOrder, Bytes, Ptr, null, State, update_at}
use co_kv.SkipList.Ops.{Update, raise_level, insert_new, insert_element, create_node, link}
use co_kv.SkipList.Cells.{Cell, node_of, height, height-append}
use co_kv.SkipList.Sorted.{lookup, head_value, before, from, before-append-from, lookup-from}
use co_kv.SkipList.Sorted.Update.{insert-Sorted}
use co_kv.SkipList.Descend.{walked, walked-lt}
use co_kv.SkipList.Inv.{IsSkipList, descend_update_start, found_at}
use co_kv.SkipList.Lookup.{matches-head, from-Chain}
use co_kv.SkipList.Link.{
  raised, raised-lt, raised-in, raise_update-raised, linked, link-linked, with_forward,
}
use co_kv.SkipList.Random.{toss, with_draws, get_random_level-toss}
use co_kv.SkipList.Spots.{spot, spot-Reach, spot_above}
use co_kv.SkipList.Insert.{new_cell, after, created, spot-ne-fresh, Chain-after}

module _ {K : Type 0} where
  raise_level-raised :
      (s : State K) (level : ℕ) (u : Update)
      → s.skip_list_level < level
      → level ≤ s.max_level
      → raise_level level u s
        ≡ done
            (raised (level - s.skip_list_level) (s.skip_list_level + 1) s.header u)
            (record s { skip_list_level = level })
  unfolding raise_level
  raise_level-raised s level u h k =
      rw (raise_update-raised (level - s.skip_list_level) (s.skip_list_level + 1) u s (omega arith))

-- The array that an insertion at `level` uses.
abbrev array : {K : Type 0} → State K → ℕ → Update → Update
array s level u =
    if ltb s.skip_list_level level
    then raised (level - s.skip_list_level) (s.skip_list_level + 1) s.header u
    else u

module _ {K : Type 0} ⦃o : KeyOrder K⦄ {s : State K} {top : Cell K} {cs : List (Cell K)}
    (inv : IsSkipList s top cs) (fresh : Ptr) (key : K) (value : Bytes) (ne_null : fresh ≢ null)
    (unused : s.node fresh ≡ none) where
  array-spot :
      (level : ℕ) (u : Update)
      → ((j : ℕ) → j ≤ s.skip_list_level → u j ≡ spot inv key j)
      → (j : ℕ) → j ≤ level
      → array s level u j ≡ spot inv key j
  array-spot level u h j k = elim (Bool-cases (ltb s.skip_list_level level)) [
    | inl e ↦ rw e (elim (Bool-cases (leb j s.skip_list_level)) [
      | inl l ↦
          raised-lt (level - s.skip_list_level) (s.skip_list_level + 1) s.header u j (ground arith)
          ∙ h j (leb→le j s.skip_list_level l)
      | inr l ↦
          raised-in (level - s.skip_list_level) (s.skip_list_level + 1) s.header u j (ground arith)
            (ground arith)
          ∙ inv.header
          ∙ sym (spot_above inv key j (ground arith))
    ])
    | inr e ↦ rw e (h j (ground arith))
  ]

  module _ (level : ℕ) (fits : level ≤ s.max_level) (rest : List ℕ) where
    abbrev new : Cell K
    new = new_cell fresh key value level

    -- The state in which the links are made.
    abbrev created_state : ℕ → State K
    created_state l = record s {
      node = update_at s.node fresh (some (node_of new));
      forward = created s fresh;
      skip_list_level = l;
      draws = rest;
    }

    link-after :
        (l : ℕ) (u : Update)
        → ((j : ℕ) → j ≤ level → u j ≡ spot inv key j)
        → link (level + 1) 0 fresh u (created_state l)
          ≡ done tt
              (with_forward (created_state l) (linked (level + 1) 0 fresh u (created s fresh)))
    link-after l u h =
        link-linked (level + 1) 0 fresh u (created_state l)
          (λ j k. record {
            ne_null = ne_null;
            target = node_of new;
            node = let e : (fresh == fresh) ≡ true = ==_refl fresh in rw e;
            high = omega arith;
          })
          (λ j k.
            let r = spot-Reach inv key j (omega arith) in
            let ne : u j ≢ fresh = λ e.
              spot-ne-fresh inv fresh key value level ne_null unused fits j
                (sym (h j (omega arith)) ∙ e) in
            let f : (u j == fresh) ≡ false = ground arith in
            record {
              ne_null = rw (h j (omega arith)) r.ne_null;
              target = r.target;
              node = rw f (rw (h j (omega arith)) r.node);
              high = r.high;
            })

    insert_new-after :
        (n : ℕ) (u : Update)
        → toss s.draws ≡ some (n, rest)
        → level ≡ min (1 + n) s.max_level
        → ((j : ℕ) → j ≤ s.skip_list_level → u j ≡ spot inv key j)
        → insert_new fresh key value u s ≡ done 0 (after s new (array s level u) rest)
    unfolding insert_new create_node
    insert_new-after n u t e h =
        rw (get_random_level-toss s n rest t, ← e)
          (elim (Bool-cases (ltb s.skip_list_level level)) [
            | inl l ↦ rw (
              l,
              raise_level-raised (with_draws s rest) level u (ground arith) fits,
              rw l at (link-after level (array s level u) (array-spot level u h)),
            )
            | inr l ↦
                rw (
                  l,
                  rw l at (link-after s.skip_list_level (array s level u) (array-spot level u h)),
                )
          ])

module _ {K : Type 0} ⦃o : KeyOrder K⦄ {s : State K} {top : Cell K} {cs : List (Cell K)}
    (inv : IsSkipList s top cs) (fresh : Ptr) (key : K) (value : Bytes) where
  -- The part that `insert_element` and `delete_element` begin with.
  abbrev behind : Update
  behind = walked top (before key cs) (suc s.skip_list_level) (λ _. 0)

  -- Inserting a key that is there returns 1 and changes nothing.
  pub insert_element-known :
      (v : Bytes) → lookup key cs ≡ some v → insert_element fresh key value s ≡ done 1 s
  unfolding insert_element
  insert_element-known v e =
      let h : head_value key (from key cs) ≡ some v = sym (lookup-from key cs inv.sorted) ∙ e in
      rw (
        descend_update_start inv key (λ _. 0),
        found_at inv key,
        matches-head s key (from key cs) (from-Chain inv key),
        h,
      )

  insert_element-new :
      lookup key cs ≡ none → insert_element fresh key value s ≡ insert_new fresh key value behind s
  unfolding insert_element
  insert_element-new e =
      let h : head_value key (from key cs) ≡ none = sym (lookup-from key cs inv.sorted) ∙ e in
      rw (
        descend_update_start inv key (λ _. 0),
        found_at inv key,
        matches-head s key (from key cs) (from-Chain inv key),
        h,
      )

  behind-spot : (j : ℕ) → j ≤ s.skip_list_level → behind j ≡ spot inv key j
  behind-spot j h = walked-lt top (before key cs) (suc s.skip_list_level) j (λ _. 0) (omega arith)

  after-IsSkipList :
      (level : ℕ) (rest : List ℕ)
      → lookup key cs ≡ none
      → fresh ≢ null
      → s.node fresh ≡ none
      → level ≤ s.max_level
      → IsSkipList
          (after s (new_cell fresh key value level) (array s level behind) rest)
          top
          (before key cs ++ new_cell fresh key value level ∷ from key cs)
  unfolding height
  after-IsSkipList level rest e ne_null unused fits = record {
    header = inv.header;
    top_level = inv.top_level;
    chain =
        Chain-after inv fresh key value level ne_null unused fits (array s level behind)
          (array-spot inv fresh key value ne_null unused level behind behind-spot) rest;
    sorted =
        insert-Sorted (new_cell fresh key value level) cs inv.sorted
          (sym (lookup-from key cs inv.sorted) ∙ e);
    level =
        let c = new_cell fresh key value level in
        let h : s.skip_list_level ≡ max (height (before key cs)) (height (from key cs)) =
          inv.level
          ∙ ap height (sym (before-append-from key cs))
          ∙ height-append (before key cs) (from key cs) in
        let r : height (before key cs ++ c ∷ from key cs)
            ≡ max (height (before key cs)) (max level (height (from key cs))) =
          height-append (before key cs) (c ∷ from key cs) in
        ground (arith, h, r);
    fits = ground (arith, inv.fits);
    count = omega (
      arith,
      inv.count,
      length-append (before key cs) (from key cs),
      length-append (before key cs) (new_cell fresh key value level ∷ from key cs),
      ap (length {A = Cell K}) (before-append-from key cs),
    );
  }

  -- Inserting a new key, at an address that is not in use and with an even number among the draws,
  -- returns 0 and leaves a skip list with a tower for the key at its place. The tower's level is one
  -- more than the number of odd draws, and at most `max_level`. The other nodes stay as they are.
  pub insert_element-IsSkipList :
      (n : ℕ) (rest : List ℕ)
      → lookup key cs ≡ none
      → fresh ≢ null
      → s.node fresh ≡ none
      → toss s.draws ≡ some (n, rest)
      → (s' : State K) × (insert_element fresh key value s ≡ done 0 s')
        × IsSkipList s' top
            (before key cs ++ new_cell fresh key value (min (1 + n) s.max_level) ∷ from key cs)
        × (s'.draws ≡ rest)
        × (s'.max_level ≡ s.max_level)
        × ((q : Ptr) → q ≢ fresh → s'.node q ≡ s.node q)
  insert_element-IsSkipList n rest e ne_null unused t =
      let level : ℕ = min (1 + n) s.max_level in
      let fits : level ≤ s.max_level = omega arith in
      (
        after s (new_cell fresh key value level) (array s level behind) rest,
        insert_element-new e
            ∙ insert_new-after inv fresh key value ne_null unused level fits rest n behind t refl
                behind-spot,
        after-IsSkipList level rest e ne_null unused fits,
        refl,
        refl,
        (λ q ne. (let f : (q == fresh) ≡ false = ground (arith, ne) in rw f refl)),
      )
