-- ===== src/SkipList/Nodes.antt =====
-- The accessors of class Node (skiplist/skiplist.h), through a pointer to it.
use co_kv.Prelude.{
  ℕ, max, All, length-append, ◌≡◌, ◌≢◌, refl, sym, ◌∙◌, ap, Bool, true, false, ◌||◌, some, List, [],
  ◌∷◌, ◌++◌, arith, leb, ◌==◌, if◌then◌else◌, ==_refl,
}
use co_kv.Prelude.Run.{done, Cmd, bind_run}
use co_kv.SkipList.Memory.{KeyOrder, Bytes, Ptr, null, Node, State, load, update_at}
use co_kv.SkipList.Cells.{
  Cell, has-cons_self, node_of, first, has, height, has-append, Holds, Chain, Chain-right,
}
use co_kv.SkipList.Relink.{Chain-frame, has-ne}
use co_kv.SkipList.Advance.{load-ok}
use co_kv.SkipList.Sorted.{Sorted}
use co_kv.SkipList.Inv.{IsSkipList}

or_true : (b : Bool) → (b || true) ≡ true
or_true true = refl
or_true false = refl

module _ {K : Type 0} where
  unfoldable pub get_key : Ptr → Cmd (State K) K
  get_key p s = bind_run (load p s) λ n s. done n.key s

  unfoldable pub get_value : Ptr → Cmd (State K) Bytes
  get_value p s = bind_run (load p s) λ n s. done n.value s

  -- The members of the node but its value stay.
  abbrev pub with_value : Node K → Bytes → Node K
  with_value n v = record n { value = v }

  unfoldable pub set_value : Ptr → Bytes → Cmd (State K) (Unit {0})
  set_value p v s =
      bind_run (load p s)
        λ n s. done tt (record s { node = update_at s.node p (some (with_value n v)) })

  abbrev pub revalue : Cell K → Bytes → Cell K
  revalue c v = record c { value = v }

  module _ (c : Cell K) (v : Bytes) where
    first-revalue :
        (i : ℕ) (bs ds : List (Cell K)) → first i (bs ++ revalue c v ∷ ds) ≡ first i (bs ++ c ∷ ds)
    unfolding first
    first-revalue i [] ds = refl
    first-revalue i (b ∷ bs) ds =
        ap (λ (p : Ptr). if leb i b.level then b.ptr else p) (first-revalue i bs ds)

    has-revalue :
        (p : Ptr) (bs ds : List (Cell K)) → has p (bs ++ revalue c v ∷ ds) ≡ has p (bs ++ c ∷ ds)
    unfolding has
    has-revalue p [] ds = refl
    has-revalue p (b ∷ bs) ds = ap (λ (x : Bool). (p == b.ptr) || x) (has-revalue p bs ds)

    height-revalue :
        (bs ds : List (Cell K)) → height (bs ++ revalue c v ∷ ds) ≡ height (bs ++ c ∷ ds)
    unfolding height
    height-revalue [] ds = refl
    height-revalue (b ∷ bs) ds = ap (max b.level) (height-revalue bs ds)

    abbrev pub revalued : State K → State K
    revalued s = record s { node = update_at s.node c.ptr (some (node_of (revalue c v))) }

    revalued_ne : (s : State K) (p : Ptr) → p ≢ c.ptr → (revalued s).node p ≡ s.node p
    revalued_ne s p h = let e : (p == c.ptr) ≡ false = ground arith in rw e refl

    has_this : (bs ds : List (Cell K)) → has c.ptr (bs ++ c ∷ ds) ≡ true
    has_this bs ds = rw (has-append c.ptr bs (c ∷ ds), has-cons_self c ds) (or_true (has c.ptr bs))

    ne_revalued :
        (s : State K) (b : Cell K) (bs ds : List (Cell K))
        → Holds s b (bs ++ c ∷ ds)
        → b.ptr ≢ c.ptr
    ne_revalued s b bs ds h e = has-ne c.ptr b.ptr (bs ++ c ∷ ds) (has_this bs ds) h.apart (sym e)

    Chain-revalue :
        (s : State K) (bs ds : List (Cell K))
        → Chain s (bs ++ c ∷ ds)
        → Chain (revalued s) (bs ++ revalue c v ∷ ds)
    Chain-revalue s [] ds (h, t) = (
      record {
        ne_null = h.ne_null;
        node = let e : (c.ptr == c.ptr) ≡ true = ==_refl c.ptr in rw e refl;
        links = h.links;
        apart = h.apart;
      },
      Chain-frame s (revalued s) ds t (λ p k. revalued_ne s p (has-ne p c.ptr ds k h.apart))
          (λ p i k. refl),
    )
    Chain-revalue s (b ∷ bs) ds (h, t) = (
      record {
        ne_null = h.ne_null;
        node = revalued_ne s b.ptr (ne_revalued s b bs ds h) ∙ h.node;
        links = λ i l. h.links i l ∙ sym (first-revalue i bs ds);
        apart = has-revalue b.ptr bs ds ∙ h.apart;
      },
      Chain-revalue s bs ds t,
    )

    holds_of :
        (s : State K) (bs ds : List (Cell K))
        → Chain s (bs ++ c ∷ ds)
        → (c.ptr ≢ null) × (s.node c.ptr ≡ some (node_of c))
    holds_of s bs ds h = let k = Chain-right s bs (c ∷ ds) h in (k.0.ne_null, k.0.node)

    module _ ⦃o : KeyOrder K⦄ where
      All-revalue :
          (P : K → Type 0) (bs ds : List (Cell K))
          → All (λ d. P d.key) (bs ++ c ∷ ds)
          → All (λ d. P d.key) (bs ++ revalue c v ∷ ds)
      All-revalue P [] ds h = h
      All-revalue P (b ∷ bs) ds h = (h.0, All-revalue P bs ds h.1)

      Sorted-revalue :
          (bs ds : List (Cell K)) → Sorted (bs ++ c ∷ ds) → Sorted (bs ++ revalue c v ∷ ds)
      Sorted-revalue [] ds h = h
      Sorted-revalue (b ∷ bs) ds h =
          (All-revalue (λ k. o.lt b.key k ≡ true) bs ds h.0, Sorted-revalue bs ds h.1)

      -- Setting the value of a node keeps the skip list, with that value in its tower.
      pub set_value-IsSkipList :
          (s : State K) (top : Cell K) (bs ds : List (Cell K))
          → IsSkipList s top (bs ++ c ∷ ds)
          → (set_value c.ptr v s ≡ done tt (revalued s))
            × IsSkipList (revalued s) top (bs ++ revalue c v ∷ ds)
      unfolding set_value
      set_value-IsSkipList s top bs ds inv =
          let h = holds_of s bs ds inv.chain.1 in
          (
            rw (load-ok s c.ptr (node_of c) h.0 h.1) refl,
            record {
              header = inv.header;
              top_level = inv.top_level;
              chain = Chain-revalue s (top ∷ bs) ds inv.chain;
              sorted = Sorted-revalue bs ds inv.sorted;
              level = inv.level ∙ sym (height-revalue bs ds);
              fits = inv.fits;
              count =
                  inv.count ∙ length-append bs (c ∷ ds) ∙ sym (length-append bs (revalue c v ∷ ds));
            },
          )

      -- The value of a node in a list is the one that its tower has.
      pub get_value-IsSkipList :
          (s : State K) (top : Cell K) (bs ds : List (Cell K))
          → IsSkipList s top (bs ++ c ∷ ds)
          → (get_value c.ptr s ≡ done c.value s) × (get_key c.ptr s ≡ done c.key s)
      unfolding get_value get_key
      get_value-IsSkipList s top bs ds inv =
          let h = holds_of s bs ds inv.chain.1 in
          let e = load-ok s c.ptr (node_of c) h.0 h.1 in (rw e refl, rw e refl)
