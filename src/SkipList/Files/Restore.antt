-- ===== src/SkipList/Files/Restore.antt =====
-- The text of `dump_file` of skiplist/skiplist.h, read by `load_file` into an empty skip list.
use co_kv.Prelude.{
  ℕ, suc, ◌≡◌, refl, sym, ◌∙◌, ap, true, some, List, [], ◌∷◌, arith, length, map, All, All-map,
}
use co_kv.Prelude.Run.{done}
use co_kv.SkipList.Memory.{KeyOrder, Bytes, Ptr, State}
use co_kv.SkipList.Cells.{Cell}
use co_kv.SkipList.Sorted.{Sorted, lookup, lt-ne, eq_refl}
use co_kv.SkipList.Dict.{Dict, empty, Implements}
use co_kv.SkipList.Files.{load_pairs, load_file, dump_file}
use co_kv.SkipList.Files.RoundTrip.{Writes, pair, load_pairs-dump_file}
use co_kv.SkipList.Files.Puts.{puts, puts-value, first_pair-lookup, Absent-empty, puts-count}
use co_kv.SkipList.Files.Loading.{Enough, Allocates, load_file-puts}

-- Each pair of the dictionary can be written to a line and read back.
abbrev pub WritesAll : {K : Type 0} → (K → Bytes) → (Bytes → K) → Dict K → Type 0
WritesAll {K = K} show stoi m = (c : Cell K) → m.value c.key ≡ some c.value → Writes show stoi c

length-map : {A B : Type 0} (f : A → B) (xs : List A) → length (map f xs) ≡ length xs
length-map f [] = refl
length-map f (x ∷ xs) = ap suc (length-map f xs)

module _ {K : Type 0} ⦃o : KeyOrder K⦄ (show : K → Bytes) (stoi : Bytes → K) where
  lookup_later :
      (c : Cell K) (ds cs : List (Cell K))
      → All (λ d. o.lt c.key d.key ≡ true) ds
      → All (λ d. lookup d.key cs ≡ some d.value) ds
      → All (λ d. lookup d.key (c ∷ cs) ≡ some d.value) ds
  unfolding lookup
  lookup_later c [] cs h k = tt
  lookup_later c (d ∷ ds) cs (l, h) (e, k) = (rw (lt-ne c.key d.key l) e, lookup_later c ds cs h k)

  -- In a sorted list each tower has its own value.
  lookup_own-All : (cs : List (Cell K)) → Sorted cs → All (λ c. lookup c.key cs ≡ some c.value) cs
  unfolding lookup
  lookup_own-All [] h = tt
  lookup_own-All (c ∷ cs) h =
      (rw (eq_refl c.key) refl, lookup_later c cs cs h.0 (lookup_own-All cs h.1))

  same_Dict :
      (s : State K) (m m' : Dict K)
      → Implements s m
      → ((j : K) → m'.value j ≡ m.value j)
      → m'.count ≡ m.count
      → Implements s m'
  same_Dict s m m' im e f = record {
    top = im.top;
    cells = im.cells;
    inv = im.inv;
    values = λ j. e j ∙ im.values j;
    total = f ∙ im.total;
    tight = im.tight;
  }

  pub restored_value :
      (m : Dict K) (cs : List (Cell K)) (j : K)
      → m.value j ≡ lookup j cs
      → m.value j ≡ (puts (map pair cs) empty).value j
  restored_value m cs j e =
      e ∙ sym (first_pair-lookup j cs) ∙ sym (puts-value (map pair cs) empty j)

  restored :
      (t : State K) (m : Dict K) (cs : List (Cell K))
      → Sorted cs
      → ((j : K) → m.value j ≡ lookup j cs)
      → m.count ≡ length cs
      → Implements t (puts (map pair cs) empty)
      → Implements t m
  restored t m cs so values total im =
      same_Dict t (puts (map pair cs) empty) m im (λ j. restored_value m cs j (values j))
        (let e = puts-count cs empty so (Absent-empty cs) in omega (arith, total, e))

  -- The text that `dump_file` writes for a list, loaded into an empty list, gives a well-formed list
  -- for the same dictionary, whatever its towers, where each pair of the dictionary can be written to a
  -- line and read back, and `new` and `rand` go on.
  pub load_file-dump_file :
      (s t : State K) (m : Dict K) (fresh : ℕ → Ptr)
      → Implements s m
      → WritesAll show stoi m
      → Implements t empty
      → Enough m.count t.draws
      → Allocates fresh t
      → (text : Bytes) × (dump_file show s ≡ done text s)
        × ((t' : State K) × (load_file stoi text fresh t ≡ done tt t') × Implements t' m)
  load_file-dump_file s t m fresh im writes im₀ enough a =
      let own =
        All-map (λ c. lookup c.key im.cells ≡ some c.value) (Writes show stoi) im.cells
          (λ c e. writes c (im.values c.key ∙ e)) (lookup_own-All im.cells im.inv.sorted) in
      let (text, wrote, pairs) = load_pairs-dump_file show stoi s im.top im.cells im.inv own in
      let size : length (load_pairs stoi text) ≡ m.count =
        ap length pairs ∙ length-map pair im.cells ∙ sym im.total in
      let (t', run, im') = load_file-puts stoi text fresh t empty im₀ (rw size enough) a in
      (
        text,
        wrote,
        (t', run, restored t' m im.cells im.inv.sorted im.values im.total (rw (sym pairs) im')),
      )
