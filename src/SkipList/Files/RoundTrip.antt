-- ===== src/SkipList/Files/RoundTrip.antt =====
-- `dump_file` of skiplist/skiplist.h against `load_file`.
use co_kv.Prelude.{append_assoc}
use co_kv.Prelude.{
  ℕ, zero, suc, ◌+◌, ◌<◌, ◌≡◌, refl, ◌∙◌, ap, false, some, List, [], ◌∷◌, ◌++◌, ◌==◌, arith, All,
  length, map,
}
use co_kv.Prelude.Run.{done}
use co_kv.SkipList.Memory.{KeyOrder, Bytes, null, State}
use co_kv.SkipList.Cells.{Cell, node_of, first, first_zero, Chain}
use co_kv.SkipList.Advance.{load-ok, load_forward-ok}
use co_kv.SkipList.Inv.{IsSkipList}
use co_kv.SkipList.Lifetime.{header_first}
use co_kv.SkipList.Files.{
  colon, newline, line, dump_from, dump_file, lines, split_line, is_nil, load_lines, load_pairs,
}

-- The bytes are free of one.
abbrev pub Free : ℕ → Bytes → Type 0
Free d xs = All (λ c. (c == d) ≡ false) xs

lines-nil : lines [] ≡ []
unfolding lines
lines-nil = refl

lines-end : (xs rest : Bytes) → Free newline xs → lines (xs ++ newline ∷ rest) ≡ xs ∷ lines rest
unfolding lines
lines-end [] rest h = refl
lines-end (x ∷ xs) rest h = rw (h.0, lines-end xs rest h.1) refl

split_line-colon : (k v : Bytes) → Free colon k → split_line (k ++ colon ∷ v) ≡ some (k, v)
unfolding split_line
split_line-colon [] v h = refl
split_line-colon (x ∷ k) v h = rw (h.0, split_line-colon k v h.1) refl

Free-append : (d : ℕ) (xs ys : Bytes) → Free d xs → Free d ys → Free d (xs ++ ys)
Free-append d [] ys h k = k
Free-append d (x ∷ xs) ys h k = (h.0, Free-append d xs ys h.1 k)

module _ {K : Type 0} (show : K → Bytes) where
  -- The text for the towers of a list.
  unfoldable pub text_of : List (Cell K) → Bytes
  text_of [] = []
  text_of (c ∷ cs) = line show c.key c.value ++ text_of cs

  dump_from-text :
      (fuel : ℕ) (s : State K) (cs : List (Cell K))
      → Chain s cs
      → length cs < fuel
      → dump_from show fuel (first 0 cs) s ≡ done (text_of cs) s
  unfolding dump_from first text_of
  dump_from-text zero s cs h k = absurd (omega arith)
  dump_from-text (suc fuel) s [] h k = refl
  dump_from-text (suc fuel) s (c ∷ cs) (h, t) k =
      let e : (c.ptr == null) ≡ false = ground (arith, h.ne_null) in
      rw
        (
          first_zero c cs,
          e,
          load-ok s c.ptr (node_of c) h.ne_null h.node,
          load_forward-ok s c.ptr (node_of c) 0 h.ne_null h.node (omega arith),
          h.links 0 (omega arith),
          dump_from-text fuel s cs t (omega arith),
        )
        refl

  module _ ⦃o : KeyOrder K⦄ {s : State K} {top : Cell K} {cs : List (Cell K)}
      (inv : IsSkipList s top cs) where
    pub dump_file-text : dump_file show s ≡ done (text_of cs) s
    unfolding dump_file
    dump_file-text =
        rw (header_first inv)
          (dump_from-text (s.element_count + 1) s cs inv.chain.1 (omega (arith, inv.count)))

-- A tower whose line can be read back.
pub record Writes {K : Type 0} (show : K → Bytes) (stoi : Bytes → K) (c : Cell K) : Type 0 where
  pub reads : stoi (show c.key) ≡ c.key
  pub key_nonempty : is_nil (show c.key) ≡ false
  pub value_nonempty : is_nil c.value ≡ false
  pub no_colon : Free colon (show c.key)
  pub no_newline : Free newline (show c.key)
  pub one_line : Free newline c.value

abbrev pub pair : {K : Type 0} → Cell K → K × Bytes
pair c = (c.key, c.value)

module _ {K : Type 0} (show : K → Bytes) (stoi : Bytes → K) where
  lines-line :
      (c : Cell K) (rest : Bytes)
      → Writes show stoi c
      → lines (line show c.key c.value ++ rest) ≡ (show c.key ++ colon ∷ c.value) ∷ lines rest
  lines-line c rest w =
      ap lines (append_assoc (show c.key ++ colon ∷ c.value) (newline ∷ []) rest)
      ∙ lines-end (show c.key ++ colon ∷ c.value) rest
          (Free-append newline (show c.key) (colon ∷ c.value) w.no_newline (refl, w.one_line))

  load_lines-text :
      (cs : List (Cell K)) (old : Bytes × Bytes)
      → All (Writes show stoi) cs
      → load_lines stoi (lines (text_of show cs)) old ≡ map pair cs
  unfolding load_lines text_of
  load_lines-text [] old h = rw lines-nil refl
  load_lines-text (c ∷ cs) old (w, h) =
      rw
        (
          lines-line c (text_of show cs) w,
          split_line-colon (show c.key) c.value w.no_colon,
          w.key_nonempty,
          w.value_nonempty,
          w.reads,
          load_lines-text cs (show c.key, c.value) h,
        )
        refl

  -- `dump_file` writes a well-formed list to the end, and where each key is read back from its text
  -- and no text is empty or holds a delimiter, `load_file` inserts just the pairs of the list, in order.
  pub load_pairs-dump_file :
      ⦃o : KeyOrder K⦄ (s : State K) (top : Cell K) (cs : List (Cell K))
      → IsSkipList s top cs
      → All (Writes show stoi) cs
      → (text : Bytes) × (dump_file show s ≡ done text s) × (load_pairs stoi text ≡ map pair cs)
  unfolding load_pairs
  load_pairs-dump_file s top cs inv h =
      (text_of show cs, dump_file-text show inv, load_lines-text cs ([], []) h)
