-- ===== src/SkipList/Dict.antt =====
-- The contract of a skip list: a dictionary with a count, whatever the towers.
use co_kv.Prelude.{
  ℕ, ◌+◌, ◌-◌, min, ◌≡◌, ◌≢◌, false, ◌||◌, refl, sym, ◌∙◌, ap, subst, Option, none, some, List, [],
  ◌∷◌, ◌++◌, arith, ◌==◌, if◌then◌else◌, length, length-append, is_some, Bool-cases, inl, inr, ◌==◌,
  ==_iff,
}
use mathlib.Core.Path.{ap₂}
use co_kv.Prelude.Run.{done}
use co_kv.SkipList.Memory.{KeyOrder, Bytes, Ptr, null, State}
use co_kv.SkipList.Ops.{
  construct, search_element, get_element, size, insert_element, delete_element,
}
use co_kv.SkipList.Cells.{Cell, has, has-append}
use co_kv.SkipList.Sorted.{Sorted, lookup, before, from, before-append-from}
use co_kv.SkipList.Sorted.Update.{lookup-insert, lookup-delete}
use co_kv.SkipList.Inv.{IsSkipList}
use co_kv.SkipList.Lookup.{value_or_empty, search_element-lookup, get_element-lookup, size-length}
use co_kv.SkipList.Insert.{new_cell}
use co_kv.SkipList.Insert.Correct.{insert_element-known, insert_element-IsSkipList}
use co_kv.SkipList.Delete.Result.{delete_element-unknown, delete_element-IsSkipList}
use co_kv.SkipList.Lifetime.{construct-IsSkipList}
use co_kv.SkipList.Random.{toss}

-- A dictionary and the number of its keys.
pub record Dict (K : Type 0) : Type 0 where
  pub value : K → Option Bytes
  pub count : ℕ

module _ {K : Type 0} ⦃o : KeyOrder K⦄ where
  abbrev pub empty : Dict K
  empty = record { value = λ _. none; count = 0 }

  abbrev pub put : Dict K → K → Bytes → Dict K
  put m k v = record { value = λ j. if o.eq k j then some v else m.value j; count = m.count + 1 }

  abbrev pub drop : Dict K → K → Dict K
  drop m k = record { value = λ j. if o.eq k j then none else m.value j; count = m.count - 1 }

  -- The memory `s` is a skip list that stands for `m`, and has no other nodes.
  pub record Implements (s : State K) (m : Dict K) : Type 0 where
    pub top : Cell K
    pub cells : List (Cell K)
    pub inv : IsSkipList s top cells
    pub values : (j : K) → m.value j ≡ lookup j cells
    pub total : m.count ≡ length cells
    pub tight : (p : Ptr) → has p (top ∷ cells) ≡ false → s.node p ≡ none

  pub construct-Implements :
      (fresh : Ptr) (k : K) (maxlevel : ℕ) (draws : List ℕ)
      → fresh ≢ null
      → Implements (construct fresh k maxlevel draws) empty
  unfolding lookup has construct
  construct-Implements fresh k maxlevel draws ne = record {
    top = _;
    cells = [];
    inv = construct-IsSkipList fresh k maxlevel draws ne;
    values = λ j. refl;
    total = refl;
    tight = λ p h. (let f : (p == fresh) ≡ false = ground (arith, h) in rw f refl);
  }

  has-between :
      (p : Ptr) (t c : Cell K) (bs fs : List (Cell K))
      → has p (t ∷ (bs ++ c ∷ fs)) ≡ ((p == c.ptr) || has p (t ∷ (bs ++ fs)))
  unfolding has
  has-between p t c bs fs = ground (arith, has-append p bs (c ∷ fs), has-append p bs fs)

  not_between :
      (p : Ptr) (t c : Cell K) (bs fs cs : List (Cell K))
      → bs ++ fs ≡ cs
      → has p (t ∷ (bs ++ c ∷ fs)) ≡ false
      → (p ≢ c.ptr) × (has p (t ∷ cs) ≡ false)
  not_between p t c bs fs cs e h =
      let k = sym (has-between p t c bs fs) ∙ h in
      (ground (arith, k), ap (λ (ys : List (Cell K)). has p (t ∷ ys)) (sym e) ∙ ground (arith, k))

  module _ (c : Cell K) (cs : List (Cell K)) where
    put_values :
        lookup c.key cs ≡ none
        → (j : K)
        → lookup j (before c.key cs ++ c ∷ from c.key cs)
          ≡ (if o.eq c.key j then some c.value else lookup j cs)
    put_values e j =
        lookup-insert c (before c.key cs) (from c.key cs) j (rw (before-append-from c.key cs) e)
        ∙ ap (λ (ys : List (Cell K)). if o.eq c.key j then some c.value else lookup j ys)
            (before-append-from c.key cs)

    put_total : length (before c.key cs ++ c ∷ from c.key cs) ≡ length cs + 1
    put_total = omega (
      arith,
      length-append (before c.key cs) (c ∷ from c.key cs),
      length-append (before c.key cs) (from c.key cs),
      ap (length {A = Cell K}) (before-append-from c.key cs),
    )

  module _ {s : State K} {m : Dict K} (im : Implements s m) where
    pub search_element-Dict : (key : K) → search_element key s ≡ done (is_some (m.value key)) s
    search_element-Dict key = rw (im.values key) (search_element-lookup im.inv key)

    pub get_element-Dict : (key : K) → get_element key s ≡ done (value_or_empty (m.value key)) s
    get_element-Dict key = rw (im.values key) (get_element-lookup im.inv key)

    pub size-Dict : size s ≡ done m.count s
    size-Dict = rw im.total (size-length im.inv)

    pub insert_element-Dict_known :
        (fresh : Ptr) (key : K) (value v : Bytes)
        → m.value key ≡ some v
        → insert_element fresh key value s ≡ done 1 s
    insert_element-Dict_known fresh key value v e =
        insert_element-known im.inv fresh key value v (sym (im.values key) ∙ e)

    -- Inserting a key that the dictionary lacks, at an address that is not in use and with an even
    -- number among the draws, returns 0 and leaves a skip list for the dictionary with the key.
    pub insert_element-Dict :
        (fresh : Ptr) (key : K) (value : Bytes) (n : ℕ) (rest : List ℕ)
        → m.value key ≡ none
        → fresh ≢ null
        → s.node fresh ≡ none
        → toss s.draws ≡ some (n, rest)
        → (s' : State K) × (insert_element fresh key value s ≡ done 0 s')
          × Implements s' (put m key value)
          × (s'.draws ≡ rest)
    insert_element-Dict fresh key value n rest e ne un t =
        let known = sym (im.values key) ∙ e in
        let c = new_cell fresh key value (min (1 + n) s.max_level) in
        let (s', run, inv, draws, _, others) =
          insert_element-IsSkipList im.inv fresh key value n rest known ne un t in
        (
          s',
          run,
          record {
            top = im.top;
            cells = _;
            inv = inv;
            values = λ j. rw (im.values j) (sym (put_values c im.cells known j));
            total = omega (arith, im.total, put_total c im.cells);
            tight = λ p h.
                (let (ne, k) =
                    not_between p im.top c (before key im.cells) (from key im.cells) im.cells
                      (before-append-from key im.cells) h in
                  others p ne ∙ im.tight p k);
          },
          draws,
        )

    pub delete_element-Dict_unknown :
        (key : K) → m.value key ≡ none → delete_element key s ≡ done tt s
    delete_element-Dict_unknown key e = delete_element-unknown im.inv key (sym (im.values key) ∙ e)

    -- Deleting a key that the dictionary has leaves a skip list for the dictionary without it. No
    -- address comes into use, and no number is drawn.
    pub delete_element-Dict :
        (key : K) (v : Bytes)
        → m.value key ≡ some v
        → (s' : State K) × (delete_element key s ≡ done tt s')
          × Implements s' (drop m key)
          × ((q : Ptr) → s.node q ≡ none → s'.node q ≡ none)
          × (s'.draws ≡ s.draws)
    delete_element-Dict key v e =
        let (d, ds, s', run, cut, same, inv, gone, kept, draws) =
          delete_element-IsSkipList im.inv key v (sym (im.values key) ∙ e) in
        let bs : List (Cell K) = before key im.cells in
        let sorted = subst Sorted (sym cut) im.inv.sorted in
        (
          s',
          run,
          record {
            top = im.top;
            cells = bs ++ ds;
            inv = inv;
            values = λ j. rw (im.values j) (
                sym (
                  lookup-delete d bs ds j sorted
                  ∙ ap₂ (λ (k : K) (ys : List (Cell K)). if o.eq k j then none else lookup j ys)
                      same cut));
            total = omega (
              arith,
              im.total,
              length-append bs (d ∷ ds),
              length-append bs ds,
              ap (length {A = Cell K}) cut,
            );
            tight = λ p h. elim (Bool-cases (p == d.ptr)) [
              | inl x ↦ rw ((==_iff p d.ptr).0 x) gone
              | inr x ↦
                  kept p (ground arith)
                  ∙ im.tight p (
                      ap (λ (ys : List (Cell K)). has p (im.top ∷ ys)) (sym cut)
                      ∙ has-between p im.top d bs ds
                      ∙ rw (x, h))
            ];
          },
          λ q h. elim (Bool-cases (q == d.ptr)) [
            | inl x ↦ rw ((==_iff q d.ptr).0 x) gone
            | inr x ↦ kept q (ground arith) ∙ h
          ],
          draws,
        )
