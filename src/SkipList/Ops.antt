-- ===== src/SkipList/Ops.antt =====
-- The operations of class SkipList (skiplist/skiplist.h). The address that `new` returns is the
-- argument `fresh`; a `while` loop over the nodes is given `element_count + 1` rounds.
use co_kv.Prelude.{
  ℕ, zero, suc, ◌+◌, ◌-◌, ◌%◌, Bool, true, false, none, some, List, [], ◌∷◌, ltb, leb, ◌==◌,
  if◌then◌else◌,
}
use co_kv.Prelude.Run.{Run, done, out_of_fuel, Cmd, pure, ◌>>=◌, ◌>>◌, get_state, require, bind_run}
use co_kv.SkipList.Memory.{
  KeyOrder, Bytes, Ptr, null, Node, State, update_at, load, load_forward, store_forward, free,
}

-- The local array `update[max_level + 1]`, all null at first.
abbrev pub Update : Type 0
Update = ℕ → Ptr

abbrev pub set_update : Update → ℕ → Ptr → Update
set_update u i p j = if j == i then p else u j

module _ {K : Type 0} where
  -- `SkipList(int maxlevel)`; `k` is the key that `K k;` leaves in the header.
  unfoldable pub construct : Ptr → K → ℕ → List ℕ → State K
  construct fresh k maxlevel draws = record {
    node =
        update_at (λ _. none) fresh (some (record { key = k; value = []; node_level = maxlevel }));
    forward = λ _ _. null;
    max_level = maxlevel;
    skip_list_level = 0;
    header = fresh;
    element_count = 0;
    draws = draws;
  }

  -- `while(rand() % 2) k++;` over the numbers still to be drawn
  unfoldable pub count_odds : List ℕ → ℕ → Cmd (State K) ℕ
  count_odds [] k s = out_of_fuel
  count_odds (r ∷ rs) k s =
      let more = count_odds rs (k + 1) s in
      if r % 2 == 1 then more else done k (record s { draws = rs })

  unfoldable pub get_random_level : Cmd (State K) ℕ
  get_random_level s =
      bind_run (count_odds s.draws 1 s) λ k s. done (if ltb k s.max_level then k else s.max_level) s

  -- `new Node<K,V>(k,v,level)`, with an array of nulls
  unfoldable pub create_node : Ptr → K → Bytes → ℕ → Cmd (State K) Ptr
  create_node fresh k v level s = done fresh (record s {
    node = update_at s.node fresh (some (record { key = k; value = v; node_level = level }));
    forward = update_at s.forward fresh (λ _. null);
  })

  unfoldable pub size : Cmd (State K) ℕ
  size s = done s.element_count s

module _ {K : Type 0} ⦃o : KeyOrder K⦄ where
  -- `while(current->forward[i] != nullptr && current->forward[i]->get_key() < key)
  --   current = current->forward[i];`
  unfoldable pub advance : ℕ → ℕ → K → Ptr → Cmd (State K) Ptr
  advance zero i key current s = out_of_fuel
  advance (suc fuel) i key current s = bind_run (load_forward current i s) λ next s.
      let stop : Run (State K) Ptr = done current s in
      let go = λ (n : Node K) (s : State K). advance fuel i key next s in
      let look : Run (State K) Ptr =
        bind_run (load next s) λ n s. elim (o.lt n.key key) [ true ↦ go n s | false ↦ stop ] in
      if next == null then stop else look

  -- `for(int i = skip_list_level; i >= 0; i--)` over the loop above: the first argument is `i + 1`
  unfoldable pub descend : ℕ → ℕ → K → Ptr → Cmd (State K) Ptr
  descend zero fuel key current s = done current s
  descend (suc i) fuel key current s =
      bind_run (advance fuel i key current s) λ c s. descend i fuel key c s

  -- The same loop with `update[i] = current;` in it.
  unfoldable pub descend_update : ℕ → ℕ → K → Ptr → Update → Cmd (State K) (Ptr × Update)
  descend_update zero fuel key current u s = done (current, u) s
  descend_update (suc i) fuel key current u s = bind_run (advance fuel i key current s) λ c s.
      bind_run (require (leb i s.max_level) s)
        λ _ s. descend_update i fuel key c (set_update u i c) s

  -- `current != nullptr && current->get_key() == key`
  unfoldable pub matches : Ptr → K → Cmd (State K) Bool
  matches current key s =
      if current == null
      then done false s
      else bind_run (load current s) λ n s. done (o.eq n.key key) s

  -- What `search_element` and `get_element` do first.
  unfoldable pub find_node : K → Cmd (State K) Ptr
  find_node key = do
    s ← get_state
    current ← descend (s.skip_list_level + 1) (s.element_count + 1) key s.header
    load_forward current 0

  unfoldable pub search_element : K → Cmd (State K) Bool
  search_element key = do current ← find_node key; matches current key

  -- A missing key gives the empty string.
  unfoldable pub get_element : K → Cmd (State K) Bytes
  get_element key = do
    current ← find_node key
    found ← matches current key
    if found then (do n ← load current; pure n.value) else pure []

module _ {K : Type 0} where
  -- `for(int i = skip_list_level+1;i<random_level+1;i++) update[i] = header;`
  -- The first argument is the number of rounds.
  unfoldable pub raise_update : ℕ → ℕ → Update → Cmd (State K) Update
  raise_update zero i u s = done u s
  raise_update (suc rounds) i u s =
      bind_run (require (leb i s.max_level) s)
        λ _ s. raise_update rounds (i + 1) (set_update u i s.header) s

  -- `if(random_level > skip_list_level){ … }`
  unfoldable pub raise_level : ℕ → Update → Cmd (State K) Update
  raise_level random_level u = do
    s ← get_state
    u' ← raise_update (random_level - s.skip_list_level) (s.skip_list_level + 1) u
    (λ s. done u' (record s { skip_list_level = random_level }))

  -- `for(int i = 0;i<= random_level;i++)`: links the new node in at each of its levels.
  unfoldable pub link : ℕ → ℕ → Ptr → Update → Cmd (State K) (Unit {0})
  link zero i inserted u s = done tt s
  link (suc rounds) i inserted u s = bind_run (load_forward (u i) i s) λ q s.
      bind_run (store_forward inserted i q s)
        λ _ s. bind_run (store_forward (u i) i inserted s) λ _ s. link rounds (i + 1) inserted u s

  -- `for(int i= 0;i<=skip_list_level;i++)` with its `break`: takes `current` out of each level.
  unfoldable pub unlink : ℕ → ℕ → Ptr → Update → Cmd (State K) (Unit {0})
  unlink zero i current u s = done tt s
  unlink (suc rounds) i current u s = bind_run (load_forward (u i) i s) λ q s.
      let stop : Run (State K) Unit = done tt s in
      let rest : Run (State K) Unit =
        bind_run (load_forward current i s)
          λ r s. bind_run (store_forward (u i) i r s) λ _ s. unlink rounds (i + 1) current u s in
      if q == current then rest else stop

  -- `while(skip_list_level > 0 && header->forward[skip_list_level] == 0) --skip_list_level;`
  -- The argument is `skip_list_level`.
  unfoldable pub lower_level : ℕ → Cmd (State K) (Unit {0})
  lower_level zero s = done tt (record s { skip_list_level = 0 })
  lower_level (suc l) s = bind_run (load_forward s.header (suc l) s) λ q s.
      let stop : Run (State K) Unit = done tt (record s { skip_list_level = suc l }) in
      let rest = lower_level l s in if q == null then rest else stop

module _ {K : Type 0} ⦃o : KeyOrder K⦄ where
  -- The part of `insert_element` under its second `if`.
  unfoldable pub insert_new : Ptr → K → Bytes → Update → Cmd (State K) ℕ
  insert_new fresh key value u = do
    random_level ← get_random_level
    s ← get_state
    u' ← if ltb s.skip_list_level random_level then raise_level random_level u else pure u
    inserted ← create_node fresh key value random_level
    link (random_level + 1) 0 inserted u'
    (λ s. done 0 (record s { element_count = s.element_count + 1 }))

  -- 1 if the key is there already, else 0. Neither branch of the second `if` of the source is
  -- left out, since its test is the negation of the first.
  unfoldable pub insert_element : Ptr → K → Bytes → Cmd (State K) ℕ
  insert_element fresh key value = do
    s ← get_state
    (before, u) ← descend_update (s.skip_list_level + 1) (s.element_count + 1) key s.header (λ _. 0)
    current ← load_forward before 0
    found ← matches current key
    if found then pure 1 else insert_new fresh key value u

  -- The part of `delete_element` under its `if`.
  unfoldable pub delete_found : Ptr → Update → Cmd (State K) (Unit {0})
  delete_found current u = do
    s ← get_state
    unlink (s.skip_list_level + 1) 0 current u
    lower_level s.skip_list_level
    free current
    (λ s. done tt (record s { element_count = s.element_count - 1 }))

  unfoldable pub delete_element : K → Cmd (State K) (Unit {0})
  delete_element key = do
    s ← get_state
    (before, u) ← descend_update (s.skip_list_level + 1) (s.element_count + 1) key s.header (λ _. 0)
    current ← load_forward before 0
    found ← matches current key
    if found then delete_found current u else pure tt

module _ {K : Type 0} where
  -- `clear(cur)`, recursive along level 0; the first argument bounds the depth.
  unfoldable pub clear : ℕ → Ptr → Cmd (State K) (Unit {0})
  clear zero cur s = out_of_fuel
  clear (suc depth) cur s = bind_run (load_forward cur 0 s) λ next s.
      let below = clear depth next s in
      bind_run (if next == null then done tt s else below) λ _ s. free cur s

  -- `~SkipList()`; the two file streams are closed elsewhere.
  unfoldable pub destruct : Cmd (State K) (Unit {0})
  destruct = do
    s ← get_state
    first ← load_forward s.header 0
    if first == null then pure tt else clear (s.element_count + 1) first
    free s.header
