-- ===== src/SkipList/Files/Loading.antt =====
-- `load_file` of skiplist/skiplist.h on a skip list, and the text of `dump_file` read back into a list.
use co_kv.Prelude.{
  ℕ, zero, suc, ◌≡◌, ◌≢◌, refl, sym, ◌∙◌, ap, ◌||◌, Option, none, some, List, [], ◌∷◌, arith,
  length, Bool-cases, inl, inr,
}
use co_kv.Prelude.Run.{Run, done, bind_run}
use co_kv.SkipList.Memory.{KeyOrder, Bytes, Ptr, null, State}
use co_kv.SkipList.Ops.{insert_element}
use co_kv.SkipList.Insert.Correct.{insert_element-IsSkipList}
use co_kv.SkipList.Dict.{Dict, Implements, insert_element-Dict, insert_element-Dict_known}
use co_kv.SkipList.Random.{toss}
use co_kv.SkipList.Files.{
  behind_first, get_key_value, split_line, is_nil, lines, load_lines, load_pairs, load_from,
  load_file,
}
use co_kv.SkipList.Files.Puts.{put_new, puts}

-- `rand` has an even number to come for each of a count of new nodes.
unfoldable pub Enough : ℕ → List ℕ → Type 0
Enough zero ds = Unit
Enough (suc count) ds = (n : ℕ) × (rest : List ℕ) × (toss ds ≡ some (n, rest)) × Enough count rest

Enough-less : (count : ℕ) (ds : List ℕ) → Enough (suc count) ds → Enough count ds
unfolding Enough
Enough-less zero ds h = tt
Enough-less (suc count) ds (n, rest, e, h) = (n, rest, e, Enough-less count rest h)

-- `new` never returns null, nor an address in use, nor an address twice.
pub record Allocates {K : Type 0} (fresh : ℕ → Ptr) (s : State K) : Type 0 where
  pub ne_null : (n : ℕ) → fresh n ≢ null
  pub unused : (n : ℕ) → s.node (fresh n) ≡ none
  pub apart : (n k : ℕ) → fresh n ≡ fresh k → n ≡ k

module _ {K : Type 0} ⦃o : KeyOrder K⦄ where
  same_state : (r : Run (State K) ℕ) (n k : ℕ) (s t : State K) → r ≡ done n s → r ≡ done k t → s ≡ t
  same_state r n k s t e f = cc

  -- A new node leaves the other addresses as they were.
  insert_others :
      (s s' : State K) (m : Dict K)
      → Implements s m
      → (fresh : Ptr) (key : K) (value : Bytes) (n : ℕ) (rest : List ℕ) → m.value key ≡ none
      → fresh ≢ null
      → s.node fresh ≡ none
      → toss s.draws ≡ some (n, rest)
      → insert_element fresh key value s ≡ done 0 s'
      → (q : Ptr) → q ≢ fresh
      → s'.node q ≡ s.node q
  insert_others s s' m im fresh key value n rest e ne un t run q k =
      let (s'', run', inv, draws, level, others) =
        insert_element-IsSkipList im.inv fresh key value n rest (sym (im.values key) ∙ e) ne un t in
      ap (λ (x : State K). x.node q) (same_state _ 0 0 s' s'' run run') ∙ others q k

  Allocates-behind :
      (fresh : ℕ → Ptr) (s s' : State K)
      → Allocates fresh s
      → ((q : Ptr) → q ≢ fresh 0 → s'.node q ≡ s.node q)
      → Allocates (behind_first fresh) s'
  Allocates-behind fresh s s' a others = record {
    ne_null = λ n. a.ne_null (suc n);
    unused = λ n.
        others (fresh (suc n)) (λ e. (let z = a.apart (suc n) 0 e in absurd (omega arith)))
        ∙ a.unused (suc n);
    apart = λ n k e. (let z = a.apart (suc n) (suc k) e in omega arith);
  }

  -- What an insertion leaves, whether the key is new or not.
  record Inserted (count : ℕ) (fresh : ℕ → Ptr) (s' : State K) (m : Dict K) : Type 0 where
    im : Implements s' m
    enough : Enough count s'.draws
    allocates : Allocates (behind_first fresh) s'

  insert_element-put_new :
      (w : Option Bytes) (count : ℕ) (fresh : ℕ → Ptr) (key : K) (value : Bytes) (s : State K)
      (m : Dict K)
      → m.value key ≡ w
      → Implements s m
      → Enough (suc count) s.draws
      → Allocates fresh s
      → (r : ℕ) × (s' : State K) × (insert_element (fresh 0) key value s ≡ done r s')
        × Inserted count fresh s' (put_new m key value)
  unfolding Enough
  insert_element-put_new none count fresh key value s m e im (n, rest, t, enough) a =
      let (s', run, im', draws) =
        insert_element-Dict im (fresh 0) key value n rest e (a.ne_null 0) (a.unused 0) t in
      (
        0,
        s',
        run,
        record {
          im = rw e im';
          enough = rw draws enough;
          allocates = Allocates-behind fresh s s' a (
              insert_others s s' m im (fresh 0) key value n rest e (a.ne_null 0) (a.unused 0) t
                run);
        },
      )
  insert_element-put_new (some v) count fresh key value s m e im enough a = (
    1,
    s,
    insert_element-Dict_known im (fresh 0) key value v e,
    record {
      im = rw e im;
      enough = Enough-less count s.draws enough;
      allocates = Allocates-behind fresh s s a (λ q k. refl);
    },
  )

  -- The insertions of `load_file`, for the pairs that it has read.
  unfoldable pub insert_pairs : List (K × Bytes) → (ℕ → Ptr) → State K → Run (State K) Unit
  insert_pairs [] fresh s = done tt s
  insert_pairs ((k, v) ∷ kvs) fresh s =
      bind_run (insert_element (fresh 0) k v s) λ _ s. insert_pairs kvs (behind_first fresh) s

  pub insert_pairs-puts :
      (kvs : List (K × Bytes)) (fresh : ℕ → Ptr) (s : State K) (m : Dict K)
      → Implements s m
      → Enough (length kvs) s.draws
      → Allocates fresh s
      → (s' : State K) × (insert_pairs kvs fresh s ≡ done tt s') × Implements s' (puts kvs m)
  unfolding insert_pairs puts
  insert_pairs-puts [] fresh s m im enough a = (s, refl, im)
  insert_pairs-puts ((k, v) ∷ kvs) fresh s m im enough a =
      let (r, s', run, ins) =
        insert_element-put_new (m.value k) (length kvs) fresh k v s m refl im enough a in
      let (s'', run', im') =
        insert_pairs-puts kvs (behind_first fresh) s' (put_new m k v) ins.im ins.enough
          ins.allocates in
      (s'', rw run run', im')

  module _ (stoi : Bytes → K) where
    load_from-insert_pairs :
        (ls : List Bytes) (old : Bytes × Bytes) (fresh : ℕ → Ptr) (s : State K)
        → load_from stoi ls old fresh s ≡ insert_pairs (load_lines stoi ls old) fresh s
    unfolding load_from load_lines insert_pairs
    load_from-insert_pairs [] old fresh s = refl
    load_from-insert_pairs (l ∷ ls) old fresh s =
        let kv = get_key_value (split_line l) old in
        elim (Bool-cases (is_nil kv.0 || is_nil kv.1)) [
          | inl e ↦ rw e (load_from-insert_pairs ls kv fresh s)
          | inr e ↦ rw e (λ i.
              bind_run (insert_element (fresh 0) (stoi kv.0) kv.1 s)
                λ _ s. load_from-insert_pairs ls kv (behind_first fresh) s i)
        ]

    -- `load_file` reads any text to its end, and puts the pairs of its valid lines into the dictionary
    -- in their order, where a key that is there keeps its value, if `new` and `rand` go on.
    pub load_file-puts :
        (text : Bytes) (fresh : ℕ → Ptr) (s : State K) (m : Dict K)
        → Implements s m
        → Enough (length (load_pairs stoi text)) s.draws
        → Allocates fresh s
        → (s' : State K) × (load_file stoi text fresh s ≡ done tt s')
          × Implements s' (puts (load_pairs stoi text) m)
    unfolding load_file load_pairs
    load_file-puts text fresh s m im enough a =
        let (s', run, im') =
          insert_pairs-puts (load_lines stoi (lines text) ([], [])) fresh s m im enough a in
        (s', load_from-insert_pairs (lines text) ([], []) fresh s ∙ run, im')
