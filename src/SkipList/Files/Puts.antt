-- ===== src/SkipList/Files/Puts.antt =====
-- Pairs that are put into a dictionary one after the other, as `load_file` of skiplist/skiplist.h does:
-- a key that is there already keeps its value.
use co_kv.Prelude.{
  Bool, ◌+◌, ◌≡◌, refl, sym, ◌∙◌, ap, true, false, Option, none, some, List, [], ◌∷◌, arith, length,
  map, All, if◌then◌else◌, Bool-cases, inl, inr,
}
use co_kv.SkipList.Memory.{KeyOrder, Bytes}
use co_kv.SkipList.Cells.{Cell}
use co_kv.SkipList.Sorted.{Sorted, lookup, lt-ne}
use co_kv.SkipList.Dict.{Dict, put, empty}
use co_kv.SkipList.Files.RoundTrip.{pair}

-- The first of two values.
abbrev pub first_of : Option Bytes → Option Bytes → Option Bytes
first_of none w = w
first_of (some v) w = some v

first_of-none : (w : Option Bytes) → w ≡ first_of w none
first_of-none none = refl
first_of-none (some v) = refl

first_of-if :
    (a w : Option Bytes) (v : Bytes) (b : Bool)
    → first_of (first_of a (if b then some v else none)) w ≡ first_of a (if b then some v else w)
first_of-if none w v true = refl
first_of-if none w v false = refl
first_of-if (some x) w v b = refl

module _ {K : Type 0} ⦃o : KeyOrder K⦄ where
  abbrev put_where : Option Bytes → Dict K → K → Bytes → Dict K
  put_where none m k v = put m k v
  put_where (some _) m k v = m

  -- What `insert_element` does to the dictionary, whether it has the key or not.
  abbrev pub put_new : Dict K → K → Bytes → Dict K
  put_new m k v = put_where (m.value k) m k v

  unfoldable pub puts : List (K × Bytes) → Dict K → Dict K
  puts [] m = m
  puts ((k, v) ∷ kvs) m = puts kvs (put_new m k v)

  -- The value of the first pair with the key.
  unfoldable pub first_pair : K → List (K × Bytes) → Option Bytes
  first_pair j [] = none
  first_pair j ((k, v) ∷ kvs) = if o.eq k j then some v else first_pair j kvs

  value_same :
      (m : Dict K) (k j : K) (w : Option Bytes) → m.value k ≡ w → o.eq k j ≡ true → m.value j ≡ w
  value_same m k j w h e = ap m.value (sym ((o.eq_iff k j).0 e)) ∙ h

  put_where-value :
      (w : Option Bytes) (m : Dict K) (k : K) (v : Bytes) (j : K)
      → m.value k ≡ w
      → (put_where w m k v).value j ≡ first_of (m.value j) (if o.eq k j then some v else none)
  put_where-value none m k v j h = elim (Bool-cases (o.eq k j)) [
    | inl e ↦ rw (e, value_same m k j none h e) refl
    | inr e ↦ rw e (first_of-none (m.value j))
  ]
  put_where-value (some w) m k v j h = elim (Bool-cases (o.eq k j)) [
    | inl e ↦ rw (e, value_same m k j (some w) h e) refl
    | inr e ↦ rw e (first_of-none (m.value j))
  ]

  -- A key has the value that it had, or else that of the first pair with it.
  pub puts-value :
      (kvs : List (K × Bytes)) (m : Dict K) (j : K)
      → (puts kvs m).value j ≡ first_of (m.value j) (first_pair j kvs)
  unfolding puts first_pair
  puts-value [] m j = first_of-none (m.value j)
  puts-value ((k, v) ∷ kvs) m j =
      puts-value kvs (put_new m k v) j
      ∙ ap (λ (w : Option Bytes). first_of w (first_pair j kvs))
          (put_where-value (m.value k) m k v j refl)
      ∙ first_of-if (m.value j) (first_pair j kvs) v (o.eq k j)

  pub first_pair-lookup : (j : K) (cs : List (Cell K)) → first_pair j (map pair cs) ≡ lookup j cs
  unfolding first_pair lookup
  first_pair-lookup j [] = refl
  first_pair-lookup j (c ∷ cs) =
      ap (λ (w : Option Bytes). if o.eq c.key j then some c.value else w) (first_pair-lookup j cs)

  -- The keys of the towers are not in the dictionary.
  abbrev pub Absent : Dict K → List (Cell K) → Type 0
  Absent m = All (λ c. m.value c.key ≡ none)

  Absent-put :
      (c : Cell K) (cs : List (Cell K)) (m : Dict K)
      → All (λ d. o.lt c.key d.key ≡ true) cs
      → Absent m cs
      → Absent (put m c.key c.value) cs
  Absent-put c [] m h k = tt
  Absent-put c (d ∷ ds) m h k = (rw (lt-ne c.key d.key h.0) (k.0), Absent-put c ds m h.1 k.1)

  pub puts-count :
      (cs : List (Cell K)) (m : Dict K)
      → Sorted cs
      → Absent m cs
      → (puts (map pair cs) m).count ≡ m.count + length cs
  unfolding puts
  puts-count [] m h k = omega arith
  puts-count (c ∷ cs) m h k =
      rw (puts, k.0)
        (let e = puts-count cs (put m c.key c.value) h.1 (Absent-put c cs m h.0 k.1) in
          omega (arith, e))

  pub Absent-empty : (cs : List (Cell K)) → Absent empty cs
  Absent-empty [] = tt
  Absent-empty (c ∷ cs) = (refl, Absent-empty cs)
