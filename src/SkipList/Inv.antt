-- ===== src/SkipList/Inv.antt =====
-- The invariant of a skip list, and what the searches need of it.
use co_kv.Prelude.{
  ℕ, suc, ◌+◌, ◌≤◌, ◌≡◌, refl, ◌∙◌, ap, List, [], ◌∷◌, ◌++◌, arith, length, length-append,
}
use co_kv.Prelude.Run.{done}
use co_kv.SkipList.Memory.{KeyOrder, Ptr, State, load_forward}
use co_kv.SkipList.Cells.{Cell, node_of, first, height, Holds, Chain}
use co_kv.SkipList.Sorted.{Sorted, before, from, before-append-from, before-Before, from-NotBefore}
use co_kv.SkipList.Walk.{pos_zero, Stands-pos, Stands-lower}
use co_kv.SkipList.Advance.{load_forward-ok}
use co_kv.SkipList.Ops.{Update, descend, descend_update}
use co_kv.SkipList.Descend.{Along, at, walked, descend-pos, descend_update-pos}
use mathlib.Core.Path.{ap₂}
use native.Mathlib.Numerals.{add-one}

-- The memory holds the header `top` and behind it the towers `cs`, sorted by their keys; the level
-- in use is the height of the highest tower, and the count is the number of towers.
pub record IsSkipList {K : Type 0} ⦃o : KeyOrder K⦄ (s : State K) (top : Cell K)
    (cs : List (Cell K)) : Type 0 where
  pub header : s.header ≡ top.ptr
  pub top_level : top.level ≡ s.max_level
  pub chain : Chain s (top ∷ cs)
  pub sorted : Sorted cs
  pub level : s.skip_list_level ≡ height cs
  pub fits : s.skip_list_level ≤ s.max_level
  pub count : s.element_count ≡ length cs

module _ {K : Type 0} ⦃o : KeyOrder K⦄ {s : State K} {top : Cell K} {cs : List (Cell K)}
    (inv : IsSkipList s top cs) (key : K) where
  pub cut : Chain s (top ∷ (before key cs ++ from key cs))
  cut = rw (before-append-from key cs) inv.chain

  pub length-before : length (before key cs) ≤ s.element_count
  length-before = omega (
    arith,
    inv.count,
    length-append (before key cs) (from key cs),
    ap (length {A = Cell K}) (before-append-from key cs),
  )

  pub start-Along :
      Along s key top
        (before key cs)
        (from key cs)
        (before-Before key cs)
        (from-NotBefore key cs inv.sorted)
        s.element_count
        s.skip_list_level
        (top, before key cs)
  start-Along = record {
    stands = record {
      holds = cut.0;
      chain = cut.1;
      high = omega (arith, inv.fits, inv.top_level);
      short = length-before;
    };
    all_before = before-Before key cs;
    meets = λ j h. refl;
  }

  -- Where the searches end: at a tower with the first tower not before the key behind it.
  last_spot :
      (rest : List (Cell K)) (b : Cell K)
      → rest ≡ []
      → Holds s b (rest ++ from key cs)
      → load_forward b.ptr 0 s ≡ done (first 0 (from key cs)) s
  last_spot [] b e h =
      load_forward-ok s b.ptr (node_of b) 0 h.ne_null h.node (omega arith)
      ∙ ap (λ (p : Ptr). done p s) (h.links 0 (omega arith))
  last_spot (r ∷ rest) b e h = cc

  pub found_at : load_forward (at top (before key cs) 0).0.ptr 0 s ≡ done (first 0 (from key cs)) s
  found_at =
      last_spot (at top (before key cs) 0).1 (at top (before key cs) 0).0
        (pos_zero (before key cs) top)
        (Stands-pos 0 s.element_count (before key cs) (top, before key cs)
          (Stands-lower (omega arith) start-Along.stands) cut.1 length-before).holds

  -- The searches of the source start at the header, on the highest level in use.
  pub descend_start :
      descend (s.skip_list_level + 1) (s.element_count + 1) key s.header s
      ≡ done (at top (before key cs) 0).0.ptr s
  descend_start =
      ap (λ (p : Ptr). descend (s.skip_list_level + 1) (s.element_count + 1) key p s) inv.header
      ∙ ap₂ (λ (i n : ℕ). descend i n key top.ptr s) (add-one s.skip_list_level)
          (add-one s.element_count)
      ∙ descend-pos s key top (before key cs) (from key cs) (before-Before key cs)
          (from-NotBefore key cs inv.sorted) s.element_count s.skip_list_level (top, before key cs)
          start-Along

  pub descend_update_start :
      (u : Update)
      → descend_update (s.skip_list_level + 1) (s.element_count + 1) key s.header u s
        ≡ done
            ((at top (before key cs) 0).0.ptr, walked top (before key cs) (suc s.skip_list_level) u)
            s
  descend_update_start u =
      ap (λ (p : Ptr). descend_update (s.skip_list_level + 1) (s.element_count + 1) key p u s)
        inv.header
      ∙ ap₂ (λ (i n : ℕ). descend_update i n key top.ptr u s) (add-one s.skip_list_level)
          (add-one s.element_count)
      ∙ descend_update-pos s key top (before key cs) (from key cs) (before-Before key cs)
          (from-NotBefore key cs inv.sorted) s.element_count s.skip_list_level (top, before key cs)
          u start-Along inv.fits
