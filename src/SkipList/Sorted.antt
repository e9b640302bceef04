-- ===== src/SkipList/Sorted.antt =====
-- Sorted lists of towers, cut at a key, and the dictionary that they stand for.
pub mod Update
use co_kv.Prelude.{
  ℕ, zero, suc, ◌+◌, ◌≤◌, ◌<◌, ◌≡◌, ◌≢◌, refl, sym, ◌∙◌, ap, Bool, true, false, ◌||◌, Option, none,
  some, List, [], ◌∷◌, ◌++◌, arith, leb, ◌==◌, if◌then◌else◌, length, All, All-map, is_some,
  Bool-cases, inl, inr,
}
use co_kv.SkipList.Memory.{KeyOrder, Bytes}
use co_kv.SkipList.Cells.{Cell}
use co_kv.SkipList.Advance.{Before, NotBefore}

module _ {K : Type 0} ⦃o : KeyOrder K⦄ where
  -- The keys rise strictly.
  abbrev pub Sorted : List (Cell K) → Type 0
  Sorted [] = Unit
  Sorted (c ∷ cs) = All (λ d. o.lt c.key d.key ≡ true) cs × Sorted cs

  -- The dictionary that a list of towers stands for.
  unfoldable pub lookup : K → List (Cell K) → Option Bytes
  lookup key [] = none
  lookup key (c ∷ cs) = if o.eq c.key key then some c.value else lookup key cs

  -- The towers before the key, and the others.
  unfoldable pub before : K → List (Cell K) → List (Cell K)
  before key [] = []
  before key (c ∷ cs) = if o.lt c.key key then c ∷ before key cs else []

  unfoldable pub from : K → List (Cell K) → List (Cell K)
  from key [] = []
  from key (c ∷ cs) = if o.lt c.key key then from key cs else c ∷ cs

  pub before-append-from : (key : K) (cs : List (Cell K)) → before key cs ++ from key cs ≡ cs
  unfolding before from
  before-append-from key [] = refl
  before-append-from key (c ∷ cs) = elim (Bool-cases (o.lt c.key key)) [
    | inl e ↦ rw (e, before-append-from key cs)
    | inr e ↦ rw e
  ]

  pub before-Before : (key : K) (cs : List (Cell K)) → Before key (before key cs)
  unfolding before
  before-Before key [] = tt
  before-Before key (c ∷ cs) = elim (Bool-cases (o.lt c.key key)) [
    | inl e ↦ rw e (e, before-Before key cs)
    | inr e ↦ rw e tt
  ]

  pub not_before_later :
      (key : K) (c d : Cell K)
      → o.lt c.key key ≡ false
      → o.lt c.key d.key ≡ true
      → o.lt d.key key ≡ false
  not_before_later key c d h l = elim (Bool-cases (o.lt d.key key)) [
    | inl e ↦ absurd (cc (o.lt_trans c.key d.key key l e))
    | inr e ↦ e
  ]

  pub from-NotBefore : (key : K) (cs : List (Cell K)) → Sorted cs → NotBefore key (from key cs)
  unfolding from
  from-NotBefore key [] h = tt
  from-NotBefore key (c ∷ cs) h = elim (Bool-cases (o.lt c.key key)) [
    | inl e ↦ rw e (from-NotBefore key cs h.1)
    | inr e ↦ rw e (
      e,
      All-map (λ d. o.lt c.key d.key ≡ true) (λ d. o.lt d.key key ≡ false) cs
          (λ d l. not_before_later key c d e l) h.0,
    )
  ]

  pub eq_refl : (a : K) → o.eq a a ≡ true
  eq_refl a = (o.eq_iff a a).1 refl

  -- A key before another is not that one.
  pub lt-ne : (a b : K) → o.lt a b ≡ true → o.eq a b ≡ false
  lt-ne a b h = elim (Bool-cases (o.eq a b)) [
    | inl e ↦ absurd (cc (o.lt_irrefl b, (o.eq_iff a b).0 e))
    | inr e ↦ e
  ]

  pub gt-ne : (a b : K) → o.lt b a ≡ true → o.eq a b ≡ false
  gt-ne a b h = elim (Bool-cases (o.eq a b)) [
    | inl e ↦ absurd (cc (o.lt_irrefl b, (o.eq_iff a b).0 e))
    | inr e ↦ e
  ]

  pub lookup_after :
      (key : K) (cs : List (Cell K)) → All (λ d. o.lt key d.key ≡ true) cs → lookup key cs ≡ none
  unfolding lookup
  lookup_after key [] h = refl
  lookup_after key (c ∷ cs) h = rw (gt-ne c.key key h.0) (lookup_after key cs h.1)

  pub lookup_before :
      (key : K) (bs cs : List (Cell K)) → Before key bs → lookup key (bs ++ cs) ≡ lookup key cs
  unfolding lookup
  lookup_before key [] cs h = refl
  lookup_before key (b ∷ bs) cs h = rw (lt-ne b.key key h.0) (lookup_before key bs cs h.1)

  abbrev pub head_value : K → List (Cell K) → Option Bytes
  head_value key [] = none
  head_value key (c ∷ cs) = if o.eq c.key key then some c.value else none

  -- In a sorted list with no key before `key` only the head can have it.
  lookup-head :
      (key : K) (cs : List (Cell K))
      → Sorted cs
      → NotBefore key cs
      → lookup key cs ≡ head_value key cs
  unfolding lookup
  lookup-head key [] so nb = refl
  lookup-head key (c ∷ cs) so nb = elim (Bool-cases (o.eq c.key key)) [
    | inl e ↦ rw e
    | inr e ↦ rw e (
        lookup_after key cs (
          All-map (λ d. o.lt c.key d.key ≡ true) (λ d. o.lt key d.key ≡ true) cs
            (λ d l. o.lt_trans key c.key d.key (o.lt_total c.key key nb.0 e) l) so.0))
  ]

  Sorted-right : (bs cs : List (Cell K)) → Sorted (bs ++ cs) → Sorted cs
  Sorted-right [] cs h = h
  Sorted-right (b ∷ bs) cs h = Sorted-right bs cs h.1

  pub from-Sorted : (key : K) (cs : List (Cell K)) → Sorted cs → Sorted (from key cs)
  from-Sorted key cs h =
      Sorted-right (before key cs) (from key cs) (rw (before-append-from key cs) h)

  pub lookup-from :
      (key : K) (cs : List (Cell K)) → Sorted cs → lookup key cs ≡ head_value key (from key cs)
  lookup-from key cs h =
      ap (lookup key) (sym (before-append-from key cs))
      ∙ lookup_before key (before key cs) (from key cs) (before-Before key cs)
      ∙ lookup-head key (from key cs) (from-Sorted key cs h) (from-NotBefore key cs h)
