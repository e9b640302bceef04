-- ===== src/SkipList/Files/Canonical.antt =====
-- What `dump_file` of skiplist/skiplist.h writes does not depend on the towers or on how the list has
-- come about, but only on the dictionary.
use co_kv.Prelude.{
  ◌≡◌, refl, sym, ◌∙◌, ap, true, false, none, some, List, [], ◌∷◌, ◌++◌, Bool-cases, inl, inr,
  All-map,
}
use mathlib.Core.Path.{ap₂}
use co_kv.Prelude.Run.{done}
use co_kv.SkipList.Memory.{KeyOrder, Bytes, State}
use co_kv.SkipList.Cells.{Cell}
use co_kv.SkipList.Sorted.{Sorted, lookup, lookup_after, eq_refl}
use co_kv.SkipList.Dict.{Dict, Implements}
use co_kv.SkipList.Files.{line, dump_file}
use co_kv.SkipList.Files.RoundTrip.{text_of, dump_file-text}

module _ {K : Type 0} ⦃o : KeyOrder K⦄ where
  -- The lists have the same keys with the same values, in the same order.
  abbrev pub SamePairs : List (Cell K) → List (Cell K) → Type 0
  SamePairs [] [] = Unit
  SamePairs [] (y ∷ ys) = ⊥
  SamePairs (x ∷ xs) [] = ⊥
  SamePairs (x ∷ xs) (y ∷ ys) = (x.key ≡ y.key) × (x.value ≡ y.value) × SamePairs xs ys

  abbrev pub Agree : List (Cell K) → List (Cell K) → Type 0
  Agree xs ys = (j : K) → lookup j xs ≡ lookup j ys

  lookup-own : (x : Cell K) (xs : List (Cell K)) → lookup x.key (x ∷ xs) ≡ some x.value
  unfolding lookup
  lookup-own x xs = rw (eq_refl x.key) refl

  -- A key before all of them is not looked up.
  lookup_before_all :
      (k : K) (y : Cell K) (ys : List (Cell K))
      → Sorted (y ∷ ys)
      → o.lt k y.key ≡ true
      → lookup k (y ∷ ys) ≡ none
  lookup_before_all k y ys h l = lookup_after k (y ∷ ys) (
    l,
    All-map (λ d. o.lt y.key d.key ≡ true) (λ d. o.lt k d.key ≡ true) ys
        (λ d e. o.lt_trans k y.key d.key l e) h.0,
  )

  Agree-tails :
      (x y : Cell K) (xs ys : List (Cell K))
      → Sorted (x ∷ xs)
      → Sorted (y ∷ ys)
      → x.key ≡ y.key
      → Agree (x ∷ xs) (y ∷ ys)
      → Agree xs ys
  unfolding lookup
  Agree-tails x y xs ys h k e agree j = elim (Bool-cases (o.eq x.key j)) [
    | inl f ↦
        let here : x.key ≡ j = (o.eq_iff x.key j).0 f in
        ap (λ (i : K). lookup i xs) (sym here)
        ∙ lookup_after x.key xs h.0
        ∙ sym (ap (λ (i : K). lookup i ys) (sym here ∙ e) ∙ lookup_after y.key ys k.0)
    | inr f ↦
        let f' : o.eq y.key j ≡ false = ap (λ (i : K). o.eq i j) (sym e) ∙ f in
        (rw (f, f') at (agree j))
  ]

  not_before :
      (x y : Cell K) (xs ys : List (Cell K))
      → Sorted (y ∷ ys)
      → Agree (x ∷ xs) (y ∷ ys)
      → o.lt x.key y.key ≡ true
      → ⊥
  not_before x y xs ys k agree l =
      let a = lookup-own x xs in
      let b = lookup_before_all x.key y ys k l in let c = agree x.key in cc

  -- Sorted lists that look up the same have the same pairs.
  pub Agree-SamePairs :
      (xs ys : List (Cell K)) → Sorted xs → Sorted ys → Agree xs ys → SamePairs xs ys
  Agree-SamePairs [] [] h k agree = tt
  Agree-SamePairs [] (y ∷ ys) h k agree =
      let a = lookup-own y ys in let b = agree y.key in unfold lookup in cc
  Agree-SamePairs (x ∷ xs) [] h k agree =
      let a = lookup-own x xs in let b = agree x.key in unfold lookup in cc
  Agree-SamePairs (x ∷ xs) (y ∷ ys) h k agree = elim (Bool-cases (o.eq x.key y.key)) [
    | inl f ↦
        let e : x.key ≡ y.key = (o.eq_iff x.key y.key).0 f in
        let a = lookup-own x xs in
        let b = lookup-own y ys in
        let c = agree x.key in
        let v : some x.value ≡ some y.value = sym a ∙ c ∙ ap (λ (i : K). lookup i (y ∷ ys)) e ∙ b in
        (e, cc, Agree-SamePairs xs ys h.1 k.1 (Agree-tails x y xs ys h k e agree))
    | inr f ↦ elim (Bool-cases (o.lt x.key y.key)) [
      | inl l ↦ absurd (not_before x y xs ys k agree l)
      | inr l ↦ absurd (not_before y x ys xs h (λ j. sym (agree j)) (o.lt_total x.key y.key l f))
    ]
  ]

  module _ (show : K → Bytes) where
    text_of-SamePairs :
        (xs ys : List (Cell K)) → SamePairs xs ys → text_of show xs ≡ text_of show ys
    unfolding text_of
    text_of-SamePairs [] [] h = refl
    text_of-SamePairs [] (y ∷ ys) h = absurd h
    text_of-SamePairs (x ∷ xs) [] h = absurd h
    text_of-SamePairs (x ∷ xs) (y ∷ ys) (e, f, h) =
        ap₂ (λ (l rest : Bytes). l ++ rest) (ap₂ (line show) e f) (text_of-SamePairs xs ys h)

    -- Two skip lists for the same dictionary, whatever their towers, their memory and the steps that made
    -- them, are written to the same text, and both to their end.
    pub dump_file-Dict :
        (s t : State K) (m : Dict K)
        → Implements s m
        → Implements t m
        → (text : Bytes) × (dump_file show s ≡ done text s) × (dump_file show t ≡ done text t)
    dump_file-Dict s t m im im' =
        let same =
          Agree-SamePairs im.cells im'.cells im.inv.sorted im'.inv.sorted
            (λ j. sym (im.values j) ∙ im'.values j) in
        (
          text_of show im.cells,
          dump_file-text show im.inv,
          dump_file-text show im'.inv
              ∙ ap (λ (text : Bytes). done text t)
                  (sym (text_of-SamePairs im.cells im'.cells same)),
        )
