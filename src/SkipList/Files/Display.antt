-- ===== src/SkipList/Files/Display.antt =====
-- `display_list` of skiplist/skiplist.h: the levels of a list, printed one below the other.
use co_kv.Prelude.{
  ℕ, zero, suc, ◌+◌, ◌≤◌, ◌<◌, ◌≡◌, refl, ◌∙◌, ap, false, List, [], ◌∷◌, ◌++◌, arith, leb, ◌==◌,
  if◌then◌else◌, length, Bool-cases, inl, inr, leb→le,
}
use co_kv.Prelude.Run.{Run, done, out_of_fuel, Cmd, bind_run}
use co_kv.Text.{to_string}
use co_kv.SkipList.Memory.{KeyOrder, Bytes, Ptr, null, State, load, load_forward}
use co_kv.SkipList.Cells.{Cell, node_of, first, Chain}
use co_kv.SkipList.Advance.{load-ok, load_forward-ok}
use co_kv.SkipList.Inv.{IsSkipList}
use co_kv.SkipList.Files.{colon, newline}

-- "Level" and ": " around the number of a level.
abbrev level_title : ℕ → Bytes
level_title i = 76 ∷ 101 ∷ 118 ∷ 101 ∷ 108 ∷ (to_string i ++ colon ∷ 32 ∷ [])

module _ {K : Type 0} (show : K → Bytes) where
  -- A key and its value, with a semicolon behind them.
  abbrev item : K → Bytes → Bytes
  item k v = (show k ++ colon ∷ v) ++ 59 ∷ []

  -- `while(node!=nullptr)`, along level `i`.
  unfoldable pub display_from : ℕ → ℕ → Ptr → Cmd (State K) Bytes
  display_from zero i p s = out_of_fuel
  display_from (suc fuel) i p s =
      let look : Run (State K) Bytes = bind_run (load p s) λ n s.
        bind_run (load_forward p i s)
          λ q s. bind_run (display_from fuel i q s) λ rest s. done (item n.key n.value ++ rest) s in
      if p == null then done [] s else look

  -- `for(int i = 0;i<=skip_list_level;i++)`; the first argument is the number of rounds.
  unfoldable pub display_levels : ℕ → ℕ → Cmd (State K) Bytes
  display_levels zero i s = done [] s
  display_levels (suc rounds) i s = bind_run (load_forward s.header i s) λ p s.
      bind_run (display_from (s.element_count + 1) i p s) λ t s.
        bind_run (display_levels rounds (i + 1) s)
          λ rest s. done ((level_title i ++ t) ++ newline ∷ rest) s

  unfoldable pub display_list : Cmd (State K) Bytes
  display_list s = display_levels (s.skip_list_level + 1) 0 s

  -- The items of the towers that reach a level.
  unfoldable pub level_items : ℕ → List (Cell K) → Bytes
  level_items i [] = []
  level_items i (c ∷ cs) =
      if leb i c.level then item c.key c.value ++ level_items i cs else level_items i cs

  -- The text for a number of levels.
  unfoldable pub levels_text : ℕ → ℕ → List (Cell K) → Bytes
  levels_text zero i cs = []
  levels_text (suc rounds) i cs =
      (level_title i ++ level_items i cs) ++ newline ∷ levels_text rounds (i + 1) cs

  display_from-level_items :
      (fuel i : ℕ) (s : State K) (cs : List (Cell K))
      → Chain s cs
      → length cs < fuel
      → display_from fuel i (first i cs) s ≡ done (level_items i cs) s
  unfolding display_from first level_items
  display_from-level_items zero i s cs h k = absurd (omega arith)
  display_from-level_items (suc fuel) i s [] h k = refl
  display_from-level_items (suc fuel) i s (c ∷ cs) (h, t) k = elim (Bool-cases (leb i c.level)) [
    | inl e ↦
        let f : (c.ptr == null) ≡ false = ground (arith, h.ne_null) in
        rw
          (
            e,
            f,
            load-ok s c.ptr (node_of c) h.ne_null h.node,
            load_forward-ok s c.ptr (node_of c) i h.ne_null h.node (leb→le i c.level e),
            h.links i (leb→le i c.level e),
            display_from-level_items fuel i s cs t (omega arith),
          )
          refl
    | inr e ↦ rw e (display_from-level_items (suc fuel) i s cs t (omega arith))
  ]

  module _ ⦃o : KeyOrder K⦄ {s : State K} {top : Cell K} {cs : List (Cell K)}
      (inv : IsSkipList s top cs) where
    display_levels-text :
        (rounds i : ℕ)
        → rounds + i ≤ s.max_level + 1
        → display_levels rounds i s ≡ done (levels_text rounds i cs) s
    unfolding display_levels levels_text
    display_levels-text zero i h = refl
    display_levels-text (suc rounds) i h =
        let e : load_forward s.header i s ≡ done (first i cs) s =
          ap (λ (p : Ptr). load_forward p i s) inv.header
          ∙ load_forward-ok s top.ptr (node_of top) i inv.chain.0.ne_null inv.chain.0.node
              (omega (arith, inv.top_level))
          ∙ ap (λ (p : Ptr). done p s) (inv.chain.0.links i (omega (arith, inv.top_level))) in
        rw
          (
            e,
            display_from-level_items (s.element_count + 1) i s cs inv.chain.1
                (omega (arith, inv.count)),
            display_levels-text rounds (i + 1) (omega arith),
          )
          refl

    -- `display_list` prints each level in use, from 0 up, to its end and without a bad read: the
    -- keys and values of just the towers that reach it, in the order of their keys.
    pub display_list-levels : display_list s ≡ done (levels_text (s.skip_list_level + 1) 0 cs) s
    unfolding display_list
    display_list-levels = display_levels-text (s.skip_list_level + 1) 0 (omega (arith, inv.fits))
