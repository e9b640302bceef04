-- ===== src/SkipList/Delete.antt =====
-- The loops of `delete_element` that run over the levels.
pub mod Correct
pub mod Result
use co_kv.Prelude.{
  ℕ, zero, suc, ◌+◌, ◌-◌, ◌≤◌, ◌<◌, ◌≡◌, ◌≢◌, refl, sym, ◌∙◌, ap, subst, Bool, true, false, ◌||◌,
  Option, none, some, List, [], ◌∷◌, ◌++◌, arith, ltb, leb, ◌==◌, if◌then◌else◌, length, All,
  Bool-cases, inl, inr, ==_iff,
}
use co_kv.Prelude.Run.{Run, done, bind_run}
use co_kv.SkipList.Memory.{Ptr, null, Node, State, load_forward, store_forward, update_at₂}
use co_kv.SkipList.Ops.{Update, unlink, lower_level}
use co_kv.SkipList.Cells.{
  Cell, first, has, has-first, has-null, height, height_bounds, reaches, reaches-height,
  not-reaches-first, Chain,
}
use co_kv.SkipList.Link.{
  Reach, load_forward-Reach, store_forward-Reach, Reach-with_forward, with_forward,
}
use co_kv.SkipList.Relink.{has-ne}

-- The pointers behind `rounds` rounds of `unlink`.
unfoldable pub unlinked : ℕ → ℕ → Ptr → Update → (Ptr → ℕ → Ptr) → Ptr → ℕ → Ptr
unlinked zero i p u f = f
unlinked (suc r) i p u f = unlinked r (i + 1) p u (update_at₂ f (u i) i (f p i))

module _ (p : Ptr) (u : Update) where
  pub unlinked_else :
      (r i : ℕ) (f : Ptr → ℕ → Ptr) (q : Ptr) (j : ℕ)
      → (i ≤ j → j < i + r → q ≢ u j)
      → unlinked r i p u f q j ≡ f q j
  unfolding unlinked
  unlinked_else zero i f q j h = refl
  unlinked_else (suc r) i f q j h =
      unlinked_else r (i + 1) (update_at₂ f (u i) i (f p i)) q j
        (λ k l. h (omega arith) (omega arith))
      ∙ elim (Bool-cases (j == i)) [
        | inl e ↦ ground (arith, h (ground arith) (ground arith))
        | inr e ↦ ground arith
      ]

  pub unlinked_spot :
      (r i : ℕ) (f : Ptr → ℕ → Ptr) (j : ℕ)
      → ((k : ℕ) → k < i + r → u k ≢ p)
      → i ≤ j
      → j < i + r
      → unlinked r i p u f (u j) j ≡ f p j
  unfolding unlinked
  unlinked_spot zero i f j ne k l = absurd (omega arith)
  unlinked_spot (suc r) i f j ne k l =
      let g : Ptr → ℕ → Ptr = update_at₂ f (u i) i (f p i) in
      elim (Bool-cases (j == i)) [
        | inl e ↦
            unlinked_else r (i + 1) g (u j) j (λ k' l'. absurd (ground arith))
            ∙ rw ((==_iff j i).0 e) (ground arith)
        | inr e ↦
            unlinked_spot r (i + 1) g j (λ k' l'. ne k' (omega arith)) (ground arith) (omega arith)
            ∙ ground arith
      ]

module _ {K : Type 0} where
  -- The loop takes the node out of the levels that lead to it, and stops at the first that does not.
  pub unlink-unlinked :
      (rounds r i : ℕ) (p : Ptr) (u : Update) (s : State K)
      → r ≤ rounds
      → ((j : ℕ) → i ≤ j → j < i + r → s.forward (u j) j ≡ p)
      → (r < rounds → s.forward (u (i + r)) (i + r) ≢ p)
      → ((j : ℕ) → j < i + rounds → Reach s (u j) j)
      → ((j : ℕ) → j < i + r → Reach s p j)
      → unlink rounds i p u s ≡ done tt (with_forward s (unlinked r i p u s.forward))
  unfolding unlink unlinked
  unlink-unlinked zero zero i p u s h to stop at target = refl
  unlink-unlinked zero (suc r) i p u s h to stop at target = absurd (omega arith)
  unlink-unlinked (suc rounds) zero i p u s h to stop at target =
      let ne : s.forward (u i) i ≢ p =
        subst (λ (m : ℕ). s.forward (u m) m ≢ p) (omega arith) (stop (omega arith)) in
      let e : (s.forward (u i) i == p) ≡ false = ground arith in
      rw (load_forward-Reach (at i (omega arith)), e)
  unlink-unlinked (suc rounds) (suc r) i p u s h to stop at target =
      let e : (s.forward (u i) i == p) ≡ true = ground (arith, to i (omega arith) (omega arith)) in
      let g : Ptr → ℕ → Ptr = update_at₂ s.forward (u i) i (s.forward p i) in
      let k : i + 1 + r ≡ i + suc r = omega arith in
      rw
        (
          load_forward-Reach (at i (omega arith)),
          e,
          load_forward-Reach (target i (omega arith)),
          store_forward-Reach (s.forward p i) (at i (omega arith)),
        )
        (unlink-unlinked rounds r (i + 1) p u (with_forward s g) (omega arith)
          (λ j a b. later j i a ∙ to j (omega arith) (omega arith))
          (λ a.
            subst (λ (m : ℕ). g (u m) m ≢ p) (sym k)
              (λ q. stop (omega arith) (sym (later (i + suc r) i (omega arith)) ∙ q)))
          (λ j b. Reach-with_forward g (at j (omega arith)))
          (λ j b. Reach-with_forward g (target j (omega arith))))
    where
      later :
          (j i : ℕ)
          → i + 1 ≤ j
          → update_at₂ s.forward (u i) i (s.forward p i) (u j) j ≡ s.forward (u j) j
      later j i h = let e : (j == i) ≡ false = ground arith in ground arith

  -- The level falls to the height of the towers.
  pub lower_level-height :
      (l : ℕ) (s : State K) (t : State K) (cs : List (Cell K))
      → Chain t cs
      → height cs ≤ l
      → ((j : ℕ) → j ≤ l → Reach s s.header j)
      → ((j : ℕ) → j ≤ l → s.forward s.header j ≡ first j cs)
      → lower_level l s ≡ done tt (record s { skip_list_level = height cs })
  unfolding lower_level
  lower_level-height zero s t cs ch h at to = let e : height cs ≡ 0 = omega arith in rw e
  lower_level-height (suc l) s t cs ch h at to = elim (Bool-cases (reaches (suc l) cs)) [
    | inl r ↦
        let e : height cs ≡ suc l = elim (Bool-cases (leb (height cs) l)) [
          | inl low ↦ absurd (cc (height_bounds (suc l) cs (ground arith)))
          | inr high ↦ ground arith
        ] in
        let ne : first (suc l) cs ≢ null =
          has-ne (first (suc l) cs) null cs (has-first (suc l) cs r) (has-null t cs ch) in
        let f : (first (suc l) cs == null) ≡ false = ground arith in
        rw (load_forward-Reach (at (suc l) (omega arith)), to (suc l) (omega arith), f, e)
    | inr r ↦
        let low : height cs ≤ l = elim (Bool-cases (leb (height cs) l)) [
          | inl low ↦ ground arith
          | inr high ↦ absurd (cc (r, full l cs h (ground arith)))
        ] in
        let f : (first (suc l) cs == null) ≡ true =
          ground (arith, not-reaches-first (suc l) cs r) in
        rw (load_forward-Reach (at (suc l) (omega arith)), to (suc l) (omega arith), f)
          (lower_level-height l s t cs ch low (λ j k. at j (omega arith))
            (λ j k. to j (omega arith)))
  ]
    where
      full :
          (l : ℕ) (cs : List (Cell K))
          → height cs ≤ suc l
          → l < height cs
          → reaches (suc l) cs ≡ true
      full l cs h k =
          subst (λ (m : ℕ). reaches m cs ≡ true) (omega arith) (reaches-height cs (omega arith))
