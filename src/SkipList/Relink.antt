-- ===== src/SkipList/Relink.antt =====
-- Changing what stands behind a cut: the towers before it get a new tail.
use co_kv.Prelude.{
  ℕ, ◌≤◌, ◌<◌, ◌≡◌, ◌≢◌, refl, sym, ◌∙◌, ap, true, false, none, List, [], ◌∷◌, ◌++◌, arith, leb,
  ◌==◌, if◌then◌else◌, All, Bool-cases, inl, inr, leb-false, le→leb, leb→le, lt_of_leb, ==_iff,
}
use co_kv.SkipList.Memory.{Ptr, State}
use co_kv.SkipList.Cells.{
  Cell, first, first-append_in, first-append_out, reaches, has, has-append, has-cons, has-cons_self,
  Holds, Chain,
}
use co_kv.SkipList.Walk.{Spot, pos, pos-not-reaches, has-pos}

module _ {K : Type 0} where
  has-head : (p : Ptr) (c : Cell K) (cs : List (Cell K)) → has p (c ∷ cs) ≡ false → p ≢ c.ptr
  unfolding has
  has-head p c cs h = ground arith

  has-tail : (p : Ptr) (c : Cell K) (cs : List (Cell K)) → has p (c ∷ cs) ≡ false → has p cs ≡ false
  unfolding has
  has-tail p c cs h = ground arith

  pub has-cons_ne :
      (p : Ptr) (c : Cell K) (cs : List (Cell K))
      → p ≢ c.ptr
      → has p cs ≡ false
      → has p (c ∷ cs) ≡ false
  unfolding has
  has-cons_ne p c cs h k = ground arith

  pub has-left : (p : Ptr) (xs ys : List (Cell K)) → has p (xs ++ ys) ≡ false → has p xs ≡ false
  has-left p xs ys h = ground (arith, has-append p xs ys)

  pub has-right : (p : Ptr) (xs ys : List (Cell K)) → has p (xs ++ ys) ≡ false → has p ys ≡ false
  has-right p xs ys h = ground (arith, has-append p xs ys)

  pub has-ne : (p q : Ptr) (cs : List (Cell K)) → has p cs ≡ true → has q cs ≡ false → p ≢ q
  has-ne p q cs h k e = cc (ap (λ (r : Ptr). has r cs) e)

  -- Towers on the two sides of a cut have different addresses.
  pub Chain-apart :
      (s : State K) (p : Ptr) (xs ys : List (Cell K))
      → Chain s (xs ++ ys)
      → has p xs ≡ true
      → has p ys ≡ false
  unfolding has
  Chain-apart s p [] ys ch h = cc
  Chain-apart s p (x ∷ xs) ys (hx, ch) h = elim (Bool-cases (p == x.ptr)) [
    | inl e ↦ rw ((==_iff p x.ptr).0 e) (has-right x.ptr xs ys hx.apart)
    | inr e ↦ Chain-apart s p xs ys ch (ground arith)
  ]

  pub Chain-frame :
      (s s' : State K) (cs : List (Cell K))
      → Chain s cs
      → ((p : Ptr) → has p cs ≡ true → s'.node p ≡ s.node p)
      → ((p : Ptr) (i : ℕ) → has p cs ≡ true → s'.forward p i ≡ s.forward p i)
      → Chain s' cs
  Chain-frame s s' [] ch n f = tt
  Chain-frame s s' (c ∷ cs) (h, ch) n f = (
    record {
      ne_null = h.ne_null;
      node = n c.ptr (has-cons_self c cs) ∙ h.node;
      links = λ i k. f c.ptr i (has-cons_self c cs) ∙ h.links i k;
      apart = h.apart;
    },
    Chain-frame s s' cs ch (λ p k. n p (has-cons p c cs k)) (λ p i k. f p i (has-cons p c cs k)),
  )

  -- An address that holds no node is not in a chain.
  pub has-fresh :
      (s : State K) (p : Ptr) (cs : List (Cell K)) → Chain s cs → s.node p ≡ none → has p cs ≡ false
  unfolding has
  has-fresh s p [] ch e = refl
  has-fresh s p (c ∷ cs) (h, ch) e = ground (arith, h.node, has-fresh s p cs ch e)

  -- The spot of a level is the start of the walk or a tower before the key.
  pub has-spot :
      (i : ℕ) (c : Cell K) (bs : List (Cell K)) → has (pos i (c, bs) bs).0.ptr (c ∷ bs) ≡ true
  has-spot i c bs = elim (Bool-cases (reaches i bs)) [
    | inl e ↦ has-cons (pos i (c, bs) bs).0.ptr c bs (has-pos i bs (c, bs) e)
    | inr e ↦ rw (pos-not-reaches i bs (c, bs) e) (has-cons_self c bs)
  ]

module _ {K : Type 0} (s s' : State K) (from to : List (Cell K)) (u : ℕ → Ptr) (limit : ℕ)
    (tail : Chain s' to) (at_spot : (i : ℕ) → i ≤ limit → s'.forward (u i) i ≡ first i to) where
  -- The pointers of one tower before the cut.
  relink_links :
      (c : Cell K) (bs : List (Cell K)) (w : Spot K) (i : ℕ)
      → Holds s c (bs ++ from)
      → w.0.ptr ≡ c.ptr
      → u i ≡ (pos i w bs).0.ptr
      → i ≤ c.level
      → c.level ≤ limit
      → (c.ptr ≢ u i → s'.forward c.ptr i ≡ s.forward c.ptr i)
      → s'.forward c.ptr i ≡ first i (bs ++ to)
  relink_links c bs w i h e at k l other = elim (Bool-cases (reaches i bs)) [
    | inl r ↦
        let inside : has (u i) bs ≡ true = rw at (has-pos i bs w r) in
        let ne : c.ptr ≢ u i =
          λ q. has-ne (u i) c.ptr bs inside (has-left c.ptr bs from h.apart) (sym q) in
        other ne ∙ h.links i k ∙ first-append_in i bs from r ∙ sym (first-append_in i bs to r)
    | inr r ↦
        let here : u i ≡ c.ptr = at ∙ ap (λ (b : Spot K). b.0.ptr) (pos-not-reaches i bs w r) ∙ e in
        ap (λ (p : Ptr). s'.forward p i) (sym here)
        ∙ at_spot i (omega arith)
        ∙ sym (first-append_out i bs to r)
  ]

  far_tail :
      (c : Cell K) (bs : List (Cell K)) (w : Spot K) (i : ℕ)
      → Holds s c (bs ++ from)
      → (i ≤ c.level → w.0.ptr ≡ c.ptr)
      → (c.level < i → has w.0.ptr (c ∷ bs) ≡ false)
      → has w.0.ptr bs ≡ false
  far_tail c bs w i h near far = elim (Bool-cases (leb i c.level)) [
    | inl e ↦ rw (near (leb→le i c.level e)) (has-left c.ptr bs from h.apart)
    | inr e ↦ has-tail w.0.ptr c bs (far (lt_of_leb i c.level e))
  ]

  step :
      (i : ℕ) (d : Cell K) (bs : List (Cell K)) (w : Spot K)
      → (pos i w (d ∷ bs)).0.ptr ≡ (pos i (if leb i d.level then (d, bs) else w) bs).0.ptr
  unfolding pos
  step i d bs w = refl

  relink_head :
      (c : Cell K) (bs : List (Cell K)) (w : ℕ → Spot K)
      → Holds s c (bs ++ from)
      → ((i : ℕ) → i ≤ c.level → (w i).0.ptr ≡ c.ptr)
      → ((i : ℕ) → u i ≡ (pos i (w i) bs).0.ptr)
      → c.level ≤ limit
      → s'.node c.ptr ≡ s.node c.ptr
      → ((i : ℕ) → c.ptr ≢ u i → s'.forward c.ptr i ≡ s.forward c.ptr i)
      → has c.ptr to ≡ false
      → Holds s' c (bs ++ to)
  relink_head c bs w h near at low node other apart = record {
    ne_null = h.ne_null;
    node = node ∙ h.node;
    links = λ i k. relink_links c bs (w i) i h (near i k) (at i) k low (other i);
    apart = has-append c.ptr bs to ∙ rw (has-left c.ptr bs from h.apart, apart);
  }

  -- With `u i` the spot of each level, the towers before the cut lead on to `to`.
  pub relink :
      (c : Cell K) (bs : List (Cell K)) (w : ℕ → Spot K)
      → Chain s (c ∷ (bs ++ from))
      → ((i : ℕ) → i ≤ c.level → (w i).0.ptr ≡ c.ptr)
      → ((i : ℕ) → i ≤ limit → c.level < i → has (w i).0.ptr (c ∷ bs) ≡ false)
      → ((i : ℕ) → u i ≡ (pos i (w i) bs).0.ptr)
      → All (λ d. d.level ≤ limit) (c ∷ bs)
      → ((p : Ptr) → has p (c ∷ bs) ≡ true → s'.node p ≡ s.node p)
      → ((p : Ptr) (i : ℕ) → has p (c ∷ bs) ≡ true → p ≢ u i → s'.forward p i ≡ s.forward p i)
      → ((p : Ptr) → has p (c ∷ bs) ≡ true → has p to ≡ false)
      → Chain s' (c ∷ (bs ++ to))
  relink c [] w (h, ch) near far at (low, lows) nodes other apart = (
    relink_head c [] w h near at low (nodes c.ptr (has-cons_self c []))
        (λ i. other c.ptr i (has-cons_self c [])) (apart c.ptr (has-cons_self c [])),
    tail,
  )
  relink c (d ∷ bs) w (h, ch) near far at (low, lows) nodes other apart = (
    relink_head c (d ∷ bs) w h near at low (nodes c.ptr (has-cons_self c (d ∷ bs)))
        (λ i. other c.ptr i (has-cons_self c (d ∷ bs))) (apart c.ptr (has-cons_self c (d ∷ bs))),
    relink d bs (λ i. if leb i d.level then (d, bs) else w i) ch
        (λ i k. let e : leb i d.level ≡ true = le→leb i d.level k in rw e)
        (λ i l k.
          let e : leb i d.level ≡ false = leb-false i d.level k in
          rw e (far_tail c (d ∷ bs) (w i) i h (near i) (far i l)))
        (λ i. at i ∙ step i d bs (w i)) lows (λ p k. nodes p (has-cons p c (d ∷ bs) k))
        (λ p i k. other p i (has-cons p c (d ∷ bs) k)) (λ p k. apart p (has-cons p c (d ∷ bs) k)),
  )
