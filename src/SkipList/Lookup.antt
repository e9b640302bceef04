-- ===== src/SkipList/Lookup.antt =====
-- What `search_element`, `get_element` and `size` return.
use co_kv.Prelude.{
  ◌≡◌, refl, false, Option, none, some, List, [], ◌∷◌, arith, ◌==◌, if◌then◌else◌, length, is_some,
  Bool-cases, inl, inr,
}
use co_kv.Prelude.Run.{done, pure, ◌>>=◌, bind_run}
use co_kv.SkipList.Memory.{KeyOrder, Bytes, null, State, load}
use co_kv.SkipList.Ops.{matches, find_node, search_element, get_element, size}
use co_kv.SkipList.Cells.{Cell, node_of, first, first_zero, Chain, Chain-right}
use co_kv.SkipList.Sorted.{lookup, head_value, before, from, before-append-from, lookup-from}
use co_kv.SkipList.Advance.{load-ok}
use co_kv.SkipList.Inv.{IsSkipList, descend_start, found_at}

-- What `get_element` makes of a missing key.
abbrev pub value_or_empty : Option Bytes → Bytes
value_or_empty none = []
value_or_empty (some v) = v

module _ {K : Type 0} ⦃o : KeyOrder K⦄ where
  pub matches-head :
      (s : State K) (key : K) (cs : List (Cell K))
      → Chain s cs
      → matches (first 0 cs) key s ≡ done (is_some (head_value key cs)) s
  unfolding matches first
  matches-head s key [] h = refl
  matches-head s key (c ∷ cs) (h, t) =
      let e : (c.ptr == null) ≡ false = ground (arith, h.ne_null) in
      rw (first_zero c cs, e, load-ok s c.ptr (node_of c) h.ne_null h.node)
        (elim (Bool-cases (o.eq c.key key)) [ inl m ↦ rw m | inr m ↦ rw m ])

module _ {K : Type 0} ⦃o : KeyOrder K⦄ {s : State K} {top : Cell K} {cs : List (Cell K)}
    (inv : IsSkipList s top cs) where
  pub from-Chain : (key : K) → Chain s (from key cs)
  from-Chain key =
      Chain-right s (before key cs) (from key cs) (rw (before-append-from key cs) inv.chain.1)

  find_node-first : (key : K) → find_node key s ≡ done (first 0 (from key cs)) s
  unfolding find_node
  find_node-first key = rw (descend_start inv key) (found_at inv key)

  -- `search_element` says whether the dictionary has the key, and changes nothing.
  pub search_element-lookup : (key : K) → search_element key s ≡ done (is_some (lookup key cs)) s
  unfolding search_element
  search_element-lookup key = rw (
    find_node-first key,
    matches-head s key (from key cs) (from-Chain key),
    lookup-from key cs inv.sorted,
  )

  get_head :
      (key : K) (ds : List (Cell K))
      → Chain s ds
      → bind_run
          (matches (first 0 ds) key s)
          (λ found. if found then (do n ← load (first 0 ds); pure n.value) else pure [])
        ≡ done (value_or_empty (head_value key ds)) s
  unfolding first
  get_head key [] h = rw (matches-head s key [] h)
  get_head key (c ∷ ds) (h, t) =
      rw (matches-head s key (c ∷ ds) (h, t), first_zero c ds)
        (elim (Bool-cases (o.eq c.key key)) [
          | inl m ↦ rw (m, load-ok s c.ptr (node_of c) h.ne_null h.node)
          | inr m ↦ rw m
        ])

  -- `get_element` returns the value of the key, or the empty string, and changes nothing.
  pub get_element-lookup : (key : K) → get_element key s ≡ done (value_or_empty (lookup key cs)) s
  unfolding get_element
  get_element-lookup key =
      rw (find_node-first key, lookup-from key cs inv.sorted)
        (get_head key (from key cs) (from-Chain key))

  -- `size` is the number of towers.
  pub size-length : size s ≡ done (length cs) s
  unfolding size
  size-length = rw inv.count
