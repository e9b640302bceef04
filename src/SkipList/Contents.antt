-- ===== src/SkipList/Contents.antt =====
-- Skip lists of skiplist/skiplist.h up to their contents: a quotient that forgets the towers, the memory
-- and the steps that made a list.
use co_kv.Prelude.{
  ℕ, zero, suc, ◌+◌, ◌≡◌, refl, sym, ◌∙◌, ap, true, false, Option, some, List, [], ◌∷◌, arith,
  length, map, All, Bool-cases, inl, inr, ◌==◌, if◌then◌else◌,
}
use mathlib.Core.Path.{ap₂}
use mathlib.Core.HLevel.{Σ_prop_path, hedberg}
use mathlib.Core.Quot
use mathlib.Core.Quot.{Quot, Quot-set}
use co_kv.Prelude.Run.{done}
use co_kv.SkipList.Memory.{KeyOrder, Bytes, Ptr, State}
use co_kv.SkipList.Ops.{construct}
use co_kv.SkipList.Cells.{Cell}
use co_kv.SkipList.Sorted.{Sorted, lookup}
use co_kv.SkipList.Dict.{Dict, empty, Implements, construct-Implements}
use co_kv.SkipList.Random.{toss}
use co_kv.SkipList.Files.Canonical.{SamePairs, Agree-SamePairs}
use co_kv.SkipList.Files.RoundTrip.{pair}
use co_kv.SkipList.Files.Puts.{puts, puts-value, first_pair, first_pair-lookup}
use co_kv.SkipList.Files.Loading.{Enough, Allocates, insert_pairs, insert_pairs-puts}

-- A well-formed skip list, with the dictionary that it stands for.
pub record Store (K : Type 0) ⦃o : KeyOrder K⦄ : Type 0 where
  pub state : State K
  pub dict : Dict K
  pub im : Implements state dict

-- A pair as a tower, whatever its address and level.
abbrev cell_of : {K : Type 0} → K × Bytes → Cell K
cell_of (k, v) = record { ptr = 0; key = k; value = v; level = 0 }

module _ {K : Type 0} ⦃o : KeyOrder K⦄ where
  abbrev pub contents : Store K → List (K × Bytes)
  contents x = map pair x.im.cells

  -- Each key has the same value in both.
  abbrev pub SameContents : Store K → Store K → Type 0
  SameContents x y = (j : K) → x.dict.value j ≡ y.dict.value j

  -- The keys of the pairs rise strictly.
  abbrev pub Rising : List (K × Bytes) → Type 0
  Rising kvs = Sorted (map cell_of kvs)

module _ (K : Type 0) ⦃o : KeyOrder K⦄ where
  abbrev pub Contents : Type 0
  Contents = Quot (SameContents {K = K})

  abbrev pub RisingPairs : Type 0
  RisingPairs = (kvs : List (K × Bytes)) × Rising kvs

-- Draws of level 1 for a number of nodes.
abbrev pub lowest : ℕ → List ℕ
lowest zero = []
lowest (suc n) = 0 ∷ lowest n

pub Enough-lowest : (n : ℕ) → Enough n (lowest n)
unfolding Enough toss
Enough-lowest zero = tt
Enough-lowest (suc n) = (0, lowest n, refl, Enough-lowest n)

All-IsProp :
    {A : Type 0} (P : A → Type 0) → ((x : A) → IsProp (P x)) → (xs : List A) → IsProp (All P xs)
All-IsProp P h [] = hlevel
All-IsProp P h (x ∷ xs) = hlevel (h x, All-IsProp P h xs)

module _ {K : Type 0} ⦃o : KeyOrder K⦄ where
  key_discrete : Discrete K
  key_discrete a b = elim (Bool-cases (o.eq a b)) [
    | inl e ↦ yes ((o.eq_iff a b).0 e)
    | inr e ↦ no (λ f. cc (e, (o.eq_iff a b).1 f))
  ]

  Sorted-IsProp : (cs : List (Cell K)) → IsProp (Sorted cs)
  Sorted-IsProp [] = hlevel
  Sorted-IsProp (c ∷ cs) =
      hlevel (All-IsProp (λ d. o.lt c.key d.key ≡ true) (λ d. hlevel) cs, Sorted-IsProp cs)

  pub Rising-IsProp : (kvs : List (K × Bytes)) → IsProp (Rising kvs)
  Rising-IsProp kvs = Sorted-IsProp (map cell_of kvs)

  pub RisingPairs-IsSet : IsSet (RisingPairs K)
  RisingPairs-IsSet = hlevel (hedberg key_discrete, Rising-IsProp)

  -- The towers of a list and their pairs as towers.
  lookup-cell_of : (j : K) (kvs : List (K × Bytes)) → lookup j (map cell_of kvs) ≡ first_pair j kvs
  unfolding lookup first_pair
  lookup-cell_of j [] = refl
  lookup-cell_of j ((k, v) ∷ kvs) =
      ap (λ (w : Option Bytes). if o.eq k j then some v else w) (lookup-cell_of j kvs)

  pub Rising-pairs : (cs : List (Cell K)) → Sorted cs → Rising (map pair cs)
  Rising-pairs [] h = tt
  Rising-pairs (c ∷ cs) h = (All-pairs c cs h.0, Rising-pairs cs h.1)
    where
      All-pairs :
          (c : Cell K) (ds : List (Cell K))
          → All (λ d. o.lt c.key d.key ≡ true) ds
          → All (λ d. o.lt c.key d.key ≡ true) (map cell_of (map pair ds))
      All-pairs c [] h = tt
      All-pairs c (d ∷ ds) h = (h.0, All-pairs c ds h.1)

  map-SamePairs : (xs ys : List (Cell K)) → SamePairs xs ys → map pair xs ≡ map pair ys
  map-SamePairs [] [] h = refl
  map-SamePairs [] (y ∷ ys) h = absurd h
  map-SamePairs (x ∷ xs) [] h = absurd h
  map-SamePairs (x ∷ xs) (y ∷ ys) (e, f, h) =
      ap₂ (λ (kv : K × Bytes) (rest : List (K × Bytes)). kv ∷ rest) (λ i. (e i, f i))
        (map-SamePairs xs ys h)

  map-pair-cell_of : (kvs : List (K × Bytes)) → map pair (map cell_of kvs) ≡ kvs
  map-pair-cell_of [] = refl
  map-pair-cell_of ((k, v) ∷ kvs) =
      ap (λ (rest : List (K × Bytes)). (k, v) ∷ rest) (map-pair-cell_of kvs)

  pub contents-SameContents : (x y : Store K) → SameContents x y → contents x ≡ contents y
  contents-SameContents x y h = map-SamePairs x.im.cells y.im.cells (
      Agree-SamePairs x.im.cells y.im.cells x.im.inv.sorted y.im.inv.sorted
        (λ j. sym (x.im.values j) ∙ h j ∙ y.im.values j))

  unfoldable pub rising : Store K → RisingPairs K
  rising x = (contents x, Rising-pairs x.im.cells x.im.inv.sorted)

  -- The pairs of a list, which depend on its contents alone.
  unfoldable pub pairs_of : Contents K → RisingPairs K
  unfolding rising
  pairs_of =
      Quot.lift RisingPairs-IsSet rising
        (λ x y h. Σ_prop_path Rising-IsProp (contents-SameContents x y h))

  -- A new list, with addresses for its nodes.
  module _ (blank : K) where
    abbrev pub new_list : ℕ → State K
    new_list n = construct 1 blank 6 (lowest n)

    abbrev pub addresses : ℕ → Ptr
    addresses n = n + 2

    pub addresses-Allocates : (n : ℕ) → Allocates addresses (new_list n)
    unfolding construct
    addresses-Allocates n = record {
      ne_null = λ k. ground arith;
      unused = λ k. (let e : (k + 2 == 1) ≡ false = ground arith in rw e refl);
      apart = λ k l e. omega arith;
    }

    unfoldable pub insert_into_new :
        (kvs : List (K × Bytes))
        → (s : State K) × (insert_pairs kvs addresses (new_list (length kvs)) ≡ done tt s)
          × Implements s (puts kvs empty)
    unfolding construct
    insert_into_new kvs =
        insert_pairs-puts kvs addresses (new_list (length kvs)) empty
          (construct-Implements 1 blank 6 (lowest (length kvs)) (ground arith))
          (Enough-lowest (length kvs)) (addresses-Allocates (length kvs))

    -- The list that the insertion of some pairs into a new one makes.
    unfoldable pub store_of : List (K × Bytes) → Store K
    store_of kvs = record {
      state = (insert_into_new kvs).0;
      dict = puts kvs empty;
      im = (insert_into_new kvs).2;
    }

    store_of-value :
        (kvs : List (K × Bytes)) (j : K) → (store_of kvs).dict.value j ≡ first_pair j kvs
    unfolding store_of
    store_of-value kvs j = puts-value kvs empty j

    contents-store_of : (kvs : List (K × Bytes)) → Rising kvs → contents (store_of kvs) ≡ kvs
    contents-store_of kvs h =
        let x = store_of kvs in
        map-SamePairs x.im.cells (map cell_of kvs) (
          Agree-SamePairs x.im.cells (map cell_of kvs) x.im.inv.sorted h
            (λ j. sym (x.im.values j) ∙ store_of-value kvs j ∙ sym (lookup-cell_of j kvs)))
        ∙ map-pair-cell_of kvs

    -- The well-formed skip lists, up to the dictionary that they stand for, are just the lists of pairs
    -- with rising keys: the pairs of a list determine it up to that, and `insert_element` makes a list
    -- for any such pairs from a new one.
    pub Contents-RisingPairs :
        ((q : Contents K) → Quot.mk (store_of (pairs_of q).0) ≡ q)
        × ((p : RisingPairs K) → pairs_of (Quot.mk (store_of p.0)) ≡ p)
    unfolding pairs_of rising
    Contents-RisingPairs = (
      Quot.ind (λ q. Quot-set _ _)
          (λ x. Quot.sound (λ j.
            store_of-value (contents x) j ∙ first_pair-lookup j x.im.cells ∙ sym (x.im.values j))),
      λ p. Σ_prop_path Rising-IsProp (contents-store_of p.0 p.1),
    )
