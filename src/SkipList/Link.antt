-- ===== src/SkipList/Link.antt =====
-- The loops of `insert_element` that run over the levels, as changes of the pointers.
use co_kv.Prelude.{
  ℕ, zero, suc, ◌+◌, ◌≤◌, ◌<◌, ◌≡◌, ◌≢◌, refl, ◌∙◌, false, some, arith, ◌==◌, Bool-cases, inl, inr,
  le→leb, ==_iff,
}
use co_kv.Prelude.Run.{done}
use co_kv.SkipList.Memory.{Ptr, null, State, Node, load_forward, store_forward, update_at₂}
use co_kv.SkipList.Ops.{Update, set_update, raise_update, link}
use co_kv.SkipList.Advance.{load-ok, load_forward-ok}

-- The array behind `raise_update`.
unfoldable pub raised : ℕ → ℕ → Ptr → Update → Update
raised zero i h u = u
raised (suc rounds) i h u = raised rounds (i + 1) h (set_update u i h)

pub raised-lt : (r i : ℕ) (h : Ptr) (u : Update) (j : ℕ) → j < i → raised r i h u j ≡ u j
unfolding raised
raised-lt zero i h u j k = refl
raised-lt (suc r) i h u j k =
    raised-lt r (i + 1) h (set_update u i h) j (omega arith)
    ∙ (let e : (j == i) ≡ false = ground arith in rw e)

pub raised-in : (r i : ℕ) (h : Ptr) (u : Update) (j : ℕ) → i ≤ j → j < i + r → raised r i h u j ≡ h
unfolding raised
raised-in zero i h u j k l = absurd (omega arith)
raised-in (suc r) i h u j k l = elim (Bool-cases (j == i)) [
  | inl e ↦ raised-lt r (i + 1) h (set_update u i h) j (ground arith) ∙ rw e
  | inr e ↦ raised-in r (i + 1) h (set_update u i h) j (ground arith) (omega arith)
]

pub raise_update-raised :
    {K : Type 0} (r i : ℕ) (u : Update) (s : State K)
    → i + r ≤ s.max_level + 1
    → raise_update r i u s ≡ done (raised r i s.header u) s
unfolding raise_update raised
raise_update-raised zero i u s h = refl
raise_update-raised (suc r) i u s h =
    rw (le→leb i s.max_level (omega arith))
      (raise_update-raised r (i + 1) (set_update u i s.header) s (omega arith))

-- The pointers behind `link`.
unfoldable pub linked : ℕ → ℕ → Ptr → Update → (Ptr → ℕ → Ptr) → Ptr → ℕ → Ptr
linked zero i p u f = f
linked (suc r) i p u f = linked r (i + 1) p u (update_at₂ (update_at₂ f p i (f (u i) i)) (u i) i p)

abbrev InRange : ℕ → ℕ → ℕ → Type 0
InRange r i j = (i ≤ j) × (j < i + r)

module _ (p : Ptr) (u : Update) where
  -- Nothing changes at the levels that the loop does not come to.
  linked_out :
      (r i : ℕ) (f : Ptr → ℕ → Ptr) (q : Ptr) (j : ℕ) → j < i → linked r i p u f q j ≡ f q j
  unfolding linked
  linked_out zero i f q j k = refl
  linked_out (suc r) i f q j k =
      let e : (j == i) ≡ false = ground arith in
      linked_out r (i + 1) (update_at₂ (update_at₂ f p i (f (u i) i)) (u i) i p) q j (omega arith)
      ∙ ground arith

  -- The new node gets the pointers of the spots.
  pub linked_new :
      (r i : ℕ) (f : Ptr → ℕ → Ptr) (j : ℕ)
      → ((k : ℕ) → k < i + r → u k ≢ p)
      → i ≤ j
      → j < i + r
      → linked r i p u f p j ≡ f (u j) j
  unfolding linked
  linked_new zero i f j ne k l = absurd (omega arith)
  linked_new (suc r) i f j ne k l =
      let g : Ptr → ℕ → Ptr = update_at₂ (update_at₂ f p i (f (u i) i)) (u i) i p in
      elim (Bool-cases (j == i)) [
        | inl e ↦ linked_out r (i + 1) g p j (ground arith) ∙ ground (arith, ne i (omega arith))
        | inr e ↦
            linked_new r (i + 1) g j (λ k' l'. ne k' (omega arith)) (ground arith) (omega arith)
            ∙ ground (arith, ne j (omega arith))
      ]

  -- The spots get the new node.
  pub linked_spot :
      (r i : ℕ) (f : Ptr → ℕ → Ptr) (j : ℕ) → i ≤ j → j < i + r → linked r i p u f (u j) j ≡ p
  unfolding linked
  linked_spot zero i f j k l = absurd (omega arith)
  linked_spot (suc r) i f j k l =
      let g : Ptr → ℕ → Ptr = update_at₂ (update_at₂ f p i (f (u i) i)) (u i) i p in
      elim (Bool-cases (j == i)) [
        | inl e ↦
            linked_out r (i + 1) g (u j) j (ground arith) ∙ rw ((==_iff j i).0 e) (ground arith)
        | inr e ↦ linked_spot r (i + 1) g j (ground arith) (omega arith)
      ]

  -- All other pointers stay.
  pub linked_else :
      (r i : ℕ) (f : Ptr → ℕ → Ptr) (q : Ptr) (j : ℕ)
      → q ≢ p
      → (j < i + r → q ≢ u j)
      → linked r i p u f q j ≡ f q j
  unfolding linked
  linked_else zero i f q j k l = refl
  linked_else (suc r) i f q j k l =
      linked_else r (i + 1) (update_at₂ (update_at₂ f p i (f (u i) i)) (u i) i p) q j k
        (λ h. l (omega arith))
      ∙ elim (Bool-cases (j == i)) [
        | inl e ↦ ground (arith, l (ground arith))
        | inr e ↦ ground arith
      ]

-- A pointer to a node whose array has index `i`.
pub record Reach {K : Type 0} (s : State K) (p : Ptr) (i : ℕ) : Type 0 where
  pub ne_null : p ≢ null
  pub target : Node K
  pub node : s.node p ≡ some target
  pub high : i ≤ target.node_level

module _ {K : Type 0} where
  pub load_forward-Reach :
      {s : State K} {p : Ptr} {i : ℕ} → Reach s p i → load_forward p i s ≡ done (s.forward p i) s
  load_forward-Reach {s} {p} {i} r = load_forward-ok s p r.target i r.ne_null r.node r.high

  pub store_forward-Reach :
      {s : State K} {p : Ptr} {i : ℕ} (q : Ptr)
      → Reach s p i
      → store_forward p i q s ≡ done tt (record s { forward = update_at₂ s.forward p i q })
  unfolding store_forward
  store_forward-Reach {s} {p} {i} q r =
      rw (load-ok s p r.target r.ne_null r.node, le→leb i r.target.node_level r.high)

  abbrev pub with_forward : State K → (Ptr → ℕ → Ptr) → State K
  with_forward s f = record s { forward = f }

  pub Reach-with_forward :
      {s : State K} {p : Ptr} {i : ℕ} (f : Ptr → ℕ → Ptr)
      → Reach s p i
      → Reach (with_forward s f) p i
  Reach-with_forward f r = record {
    ne_null = r.ne_null;
    target = r.target;
    node = r.node;
    high = r.high;
  }

  -- The loop never faults where its pointers reach, and changes only pointers.
  pub link-linked :
      (r i : ℕ) (p : Ptr) (u : Update) (s : State K)
      → ((j : ℕ) → j < i + r → Reach s p j)
      → ((j : ℕ) → j < i + r → Reach s (u j) j)
      → link r i p u s ≡ done tt (with_forward s (linked r i p u s.forward))
  unfolding link linked
  link-linked zero i p u s new at = refl
  link-linked (suc r) i p u s new at =
      let k : i < i + suc r = omega arith in
      let f : Ptr → ℕ → Ptr = update_at₂ s.forward p i (s.forward (u i) i) in
      let g : Ptr → ℕ → Ptr = update_at₂ f (u i) i p in
      rw
        (
          load_forward-Reach (at i k),
          store_forward-Reach (s.forward (u i) i) (new i k),
          store_forward-Reach p (Reach-with_forward f (at i k)),
        )
        (link-linked r (i + 1) p u (with_forward s g)
          (λ j l. Reach-with_forward g (new j (omega arith)))
          (λ j l. Reach-with_forward g (at j (omega arith))))
