-- ===== src/SkipList/Memory.antt =====
-- The memory that a skip list lives in (skiplist/skiplist.h, class Node and the data members of
-- class SkipList), and the reads and writes of a node.
use co_kv.Prelude.{
  ℕ, ◌≡◌, ◌↔◌, Bool, true, false, ◌&&◌, Option, none, some, List, leb, ◌==◌, if◌then◌else◌,
}
use co_kv.Prelude.Run.{done, fault, Cmd, ◌>>=◌, ◌>>◌, require}

-- `operator<` and `operator==` of the key type, with the laws of a strict total order.
pub record KeyOrder (K : Type 0) : Type 0 where
  pub lt : K → K → Bool
  pub eq : K → K → Bool
  pub eq_iff : (a b : K) → (eq a b ≡ true) ↔ (a ≡ b)
  pub lt_irrefl : (a : K) → lt a a ≡ false
  pub lt_trans : (a b c : K) → lt a b ≡ true → lt b c ≡ true → lt a c ≡ true
  pub lt_total : (a b : K) → lt a b ≡ false → eq a b ≡ false → lt b a ≡ true

-- A std::string as its bytes.
abbrev pub Bytes : Type 0
Bytes = List ℕ

abbrev pub Ptr : Type 0
Ptr = ℕ

abbrev pub null : Ptr
null = 0

-- The members of a Node but its array `forward`, whose length is `node_level + 1`.
pub record Node (K : Type 0) : Type 0 where
  pub key : K
  pub value : Bytes
  pub node_level : ℕ

-- The members of a SkipList, with the nodes that are allocated, the `forward` arrays as one
-- function of node and index, and the numbers that `rand()` will return.
pub record State (K : Type 0) : Type 0 where
  pub node : Ptr → Option (Node K)
  pub forward : Ptr → ℕ → Ptr
  pub max_level : ℕ
  pub skip_list_level : ℕ
  pub header : Ptr
  pub element_count : ℕ
  pub draws : List ℕ

abbrev pub update_at : {A : Type 0} → (Ptr → A) → Ptr → A → Ptr → A
update_at f p a q = if q == p then a else f q

abbrev pub update_at₂ : (Ptr → ℕ → Ptr) → Ptr → ℕ → Ptr → Ptr → ℕ → Ptr
update_at₂ f p i a q j = if (q == p) && (j == i) then a else f q j

module _ {K : Type 0} where
  abbrev pub fetch : Ptr → Option (Node K) → Cmd (State K) (Node K)
  fetch p none s = fault
  fetch p (some n) s = done n s

  -- `*p`: a fault at null and at an address that holds no node.
  unfoldable pub load : Ptr → Cmd (State K) (Node K)
  load p s = if p == null then fault else fetch p (s.node p) s

  -- `p->forward[i]`: a fault behind the end of the array.
  unfoldable pub load_forward : Ptr → ℕ → Cmd (State K) Ptr
  unfolding load
  load_forward p i = do n ← load p; require (leb i n.node_level); (λ s. done (s.forward p i) s)

  -- `p->forward[i] = q`
  unfoldable pub store_forward : Ptr → ℕ → Ptr → Cmd (State K) (Unit {0})
  unfolding load
  store_forward p i q = do
    n ← load p
    require (leb i n.node_level)
    (λ s. done tt (record s { forward = update_at₂ s.forward p i q }))

  -- `delete p`, with its array.
  unfoldable pub free : Ptr → Cmd (State K) (Unit {0})
  unfolding load
  free p = do n ← load p; (λ s. done tt (record s { node = update_at s.node p none }))
