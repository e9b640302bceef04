-- ===== src/SkipList/Sorted/Update.antt =====
-- A sorted list of towers with one tower more, or one less.
use co_kv.Prelude.{
  ◌≡◌, refl, sym, ◌∙◌, true, false, none, some, List, [], ◌∷◌, ◌++◌, if◌then◌else◌, All, All-map,
  Bool-cases, inl, inr,
}
use co_kv.SkipList.Memory.{KeyOrder}
use co_kv.SkipList.Cells.{Cell}
use co_kv.SkipList.Sorted.{
  Sorted, lookup, before, from, before-append-from, head_value, lookup_after, lt-ne,
}

module _ {K : Type 0} where
  All-insert {ℓ} :
      (P : Cell K → Type ℓ) (c : Cell K) (xs ys : List (Cell K))
      → All P (xs ++ ys)
      → P c
      → All P (xs ++ c ∷ ys)
  All-insert P c [] ys h k = (k, h)
  All-insert P c (x ∷ xs) ys h k = (h.0, All-insert P c xs ys h.1 k)

  All-delete {ℓ} :
      (P : Cell K → Type ℓ) (c : Cell K) (xs ys : List (Cell K))
      → All P (xs ++ c ∷ ys)
      → All P (xs ++ ys)
  All-delete P c [] ys h = h.1
  All-delete P c (x ∷ xs) ys h = (h.0, All-delete P c xs ys h.1)

module _ {K : Type 0} ⦃o : KeyOrder K⦄ where
  head_after :
      (key : K) (d : Cell K) (ds : List (Cell K))
      → head_value key (d ∷ ds) ≡ none
      → o.eq d.key key ≡ false
  head_after key d ds h = elim (Bool-cases (o.eq d.key key)) [
    | inl e ↦ absurd (cc (let k : some d.value ≡ none = rw e at h in k))
    | inr e ↦ e
  ]

  pub Sorted-delete :
      (c : Cell K) (xs ys : List (Cell K)) → Sorted (xs ++ c ∷ ys) → Sorted (xs ++ ys)
  Sorted-delete c [] ys h = h.1
  Sorted-delete c (x ∷ xs) ys h =
      (All-delete (λ d. o.lt x.key d.key ≡ true) c xs ys h.0, Sorted-delete c xs ys h.1)

  -- A tower with a new key may stand between the towers before its key and the others.
  pub insert-Sorted :
      (c : Cell K) (cs : List (Cell K))
      → Sorted cs
      → head_value c.key (from c.key cs) ≡ none
      → Sorted (before c.key cs ++ c ∷ from c.key cs)
  unfolding before from
  insert-Sorted c [] so h = (tt, tt)
  insert-Sorted c (d ∷ ds) so h = elim (Bool-cases (o.lt d.key c.key)) [
    | inl e ↦ rw e (
      All-insert (λ x. o.lt d.key x.key ≡ true) c (before c.key ds) (from c.key ds)
          (rw (before-append-from c.key ds) so.0) e,
      insert-Sorted c ds so.1 (rw e at h),
    )
    | inr e ↦
        let ne : o.eq d.key c.key ≡ false = head_after c.key d ds (rw e at h) in
        let lt : o.lt c.key d.key ≡ true = o.lt_total d.key c.key e ne in
        rw e (
          (
            lt,
            All-map (λ x. o.lt d.key x.key ≡ true) (λ x. o.lt c.key x.key ≡ true) ds
                (λ x l. o.lt_trans c.key d.key x.key lt l) so.0,
          ),
          so,
        )
  ]

  eq_of_eq : (a b c : K) → o.eq a b ≡ true → o.eq c b ≡ true → o.eq a c ≡ true
  eq_of_eq a b c h k = (o.eq_iff a c).1 ((o.eq_iff a b).0 h ∙ sym ((o.eq_iff c b).0 k))

  -- The dictionary behind an insertion.
  pub lookup-insert :
      (c : Cell K) (xs ys : List (Cell K)) (j : K)
      → lookup c.key (xs ++ ys) ≡ none
      → lookup j (xs ++ c ∷ ys) ≡ (if o.eq c.key j then some c.value else lookup j (xs ++ ys))
  unfolding lookup
  lookup-insert c [] ys j h = refl
  lookup-insert c (x ∷ xs) ys j h = elim (Bool-cases (o.eq x.key c.key)) [
    | inl e ↦ absurd (cc (let k : some x.value ≡ none = rw e at h in k))
    | inr e ↦
        let rest = lookup-insert c xs ys j (rw e at h) in
        elim (Bool-cases (o.eq x.key j)) [
          | inl k ↦ elim (Bool-cases (o.eq c.key j)) [
            | inl l ↦ absurd (cc (eq_of_eq x.key j c.key k l))
            | inr l ↦ rw (k, l)
          ]
          | inr k ↦ rw k rest
        ]
  ]

  -- The dictionary behind a removal.
  pub lookup-delete :
      (c : Cell K) (xs ys : List (Cell K)) (j : K)
      → Sorted (xs ++ c ∷ ys)
      → lookup j (xs ++ ys) ≡ (if o.eq c.key j then none else lookup j (xs ++ c ∷ ys))
  unfolding lookup
  lookup-delete c [] ys j so = elim (Bool-cases (o.eq c.key j)) [
    | inl e ↦ rw e (rw (← (o.eq_iff c.key j).0 e) (lookup_after c.key ys so.0))
    | inr e ↦ rw e
  ]
  lookup-delete c (x ∷ xs) ys j so =
      let rest = lookup-delete c xs ys j so.1 in
      let lt = middle (λ d. o.lt x.key d.key ≡ true) c xs ys so.0 in
      elim (Bool-cases (o.eq x.key j)) [
        | inl k ↦ elim (Bool-cases (o.eq c.key j)) [
          | inl l ↦ absurd (cc (eq_of_eq x.key j c.key k l, lt-ne x.key c.key lt))
          | inr l ↦ rw (k, l)
        ]
        | inr k ↦ rw k rest
      ]
    where
      middle :
          (P : Cell K → Type 0) (c : Cell K) (xs ys : List (Cell K)) → All P (xs ++ c ∷ ys) → P c
      middle P c [] ys h = h.0
      middle P c (x ∷ xs) ys h = middle P c xs ys h.1
