-- ===== src/SkipList/Lifetime.antt =====
-- The constructor and the destructor of SkipList.
use co_kv.Prelude.{
  ℕ, zero, suc, ◌+◌, ◌<◌, ◌≡◌, ◌≢◌, refl, ◌∙◌, ap, true, false, none, List, [], ◌∷◌, arith, ◌==◌,
  if◌then◌else◌, length, ==_refl,
}
use co_kv.Prelude.Run.{done}
use co_kv.SkipList.Memory.{KeyOrder, Ptr, null, State, load_forward, free, update_at}
use co_kv.SkipList.Ops.{construct, clear, destruct}
use co_kv.SkipList.Cells.{Cell, node_of, first, first_zero, has, height, Holds, Chain}
use co_kv.SkipList.Advance.{load-ok, load_forward-ok}
use co_kv.SkipList.Inv.{IsSkipList}

module _ {K : Type 0} where
  -- The tower of a new header.
  abbrev pub header_cell : Ptr → K → ℕ → Cell K
  header_cell fresh k maxlevel = record { ptr = fresh; key = k; value = []; level = maxlevel }

  -- A new list is empty and well formed, whatever the key that is left in its header.
  pub construct-IsSkipList :
      ⦃o : KeyOrder K⦄ (fresh : Ptr) (k : K) (maxlevel : ℕ) (draws : List ℕ)
      → fresh ≢ null
      → IsSkipList (construct fresh k maxlevel draws) (header_cell fresh k maxlevel) []
  unfolding construct height first has
  construct-IsSkipList fresh k maxlevel draws ne = record {
    header = refl;
    top_level = refl;
    chain = (
      record {
        ne_null = ne;
        node = let e : (fresh == fresh) ≡ true = ==_refl fresh in rw e;
        links = λ i h. refl;
        apart = refl;
      },
      tt,
    );
    sorted = tt;
    level = refl;
    fits = omega arith;
    count = refl;
  }

  -- The memory without the nodes of some towers.
  unfoldable pub freed : State K → List (Cell K) → State K
  freed s [] = s
  freed s (c ∷ cs) = record (freed s cs) { node = update_at (freed s cs).node c.ptr none }

  pub node-freed :
      (s : State K) (cs : List (Cell K)) (p : Ptr)
      → (freed s cs).node p ≡ (if has p cs then none else s.node p)
  unfolding freed has
  node-freed s [] p = refl
  node-freed s (c ∷ cs) p = ground (arith, node-freed s cs p)

  forward-freed : (s : State K) (cs : List (Cell K)) → (freed s cs).forward ≡ s.forward
  unfolding freed
  forward-freed s [] = refl
  forward-freed s (c ∷ cs) = forward-freed s cs

  free-freed :
      (s : State K) (c : Cell K) (cs : List (Cell K))
      → Holds s c cs
      → free c.ptr (freed s cs) ≡ done tt (freed s (c ∷ cs))
  unfolding free freed
  free-freed s c cs h = rw (
      load-ok (freed s cs) c.ptr (node_of c) h.ne_null
        (node-freed s cs c.ptr ∙ (rw (h.apart) h.node)))

  -- `clear` frees the nodes from `cur` on, and nothing else.
  clear-freed :
      (depth : ℕ) (s : State K) (c : Cell K) (cs : List (Cell K))
      → Chain s (c ∷ cs)
      → length cs < depth
      → clear depth c.ptr s ≡ done tt (freed s (c ∷ cs))
  unfolding clear first freed
  clear-freed zero s c cs ch h = absurd (omega arith)
  clear-freed (suc depth) s c [] (hc, ch) h =
      rw
        (
          load_forward-ok s c.ptr (node_of c) 0 hc.ne_null hc.node (omega arith),
          hc.links 0 (omega arith),
        )
        (free-freed s c [] hc)
  clear-freed (suc depth) s c (d ∷ ds) (hc, ch) h =
      let e : (d.ptr == null) ≡ false = ground (arith, ch.0.ne_null) in
      rw
        (
          load_forward-ok s c.ptr (node_of c) 0 hc.ne_null hc.node (omega arith),
          hc.links 0 (omega arith),
          first_zero d ds,
          e,
          clear-freed depth s d ds ch (omega arith),
        )
        (free-freed s c (d ∷ ds) hc)

  module _ ⦃o : KeyOrder K⦄ {s : State K} {top : Cell K} {cs : List (Cell K)}
      (inv : IsSkipList s top cs) where
    pub header_first : load_forward s.header 0 s ≡ done (first 0 cs) s
    header_first =
        ap (λ (p : Ptr). load_forward p 0 s) inv.header
        ∙ load_forward-ok s top.ptr (node_of top) 0 inv.chain.0.ne_null inv.chain.0.node
            (omega arith)
        ∙ ap (λ (p : Ptr). done p s) (inv.chain.0.links 0 (omega arith))

    free_header : free s.header (freed s cs) ≡ done tt (freed s (top ∷ cs))
    free_header = ap (λ (p : Ptr). free p (freed s cs)) inv.header ∙ free-freed s top cs inv.chain.0

  destruct_run :
      ⦃o : KeyOrder K⦄ (s : State K) (top : Cell K) (cs : List (Cell K))
      → IsSkipList s top cs
      → destruct s ≡ done tt (freed s (top ∷ cs))
  unfolding destruct first
  destruct_run s top [] inv = rw (header_first inv) (unfold freed in free_header inv)
  destruct_run s top (d ∷ ds) inv =
      let e : (d.ptr == null) ≡ false = ground (arith, inv.chain.1.0.ne_null) in
      rw
        (
          header_first inv,
          first_zero d ds,
          e,
          clear-freed (s.element_count + 1) s d ds inv.chain.1 (omega (arith, inv.count)),
        )
        (free_header inv)

  -- The destructor runs to its end, frees the header and every tower, and nothing else.
  pub destruct-freed :
      ⦃o : KeyOrder K⦄ (s : State K) (top : Cell K) (cs : List (Cell K))
      → IsSkipList s top cs
      → (s' : State K) × (destruct s ≡ done tt s')
        × ((p : Ptr) → s'.node p ≡ (if has p (top ∷ cs) then none else s.node p))
  destruct-freed s top cs inv =
      (freed s (top ∷ cs), destruct_run s top cs inv, node-freed s (top ∷ cs))
