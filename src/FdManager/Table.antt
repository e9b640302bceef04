-- ===== src/FdManager/Table.antt =====
-- The table of descriptors as a partial map.
use co_kv.Prelude.{
  ℕ, ◌*◌, ◌/◌, ◌≤◌, ◌<◌, ◌≡◌, ◌≢◌, refl, ◌∙◌, Bool, true, false, Option, none, some, List, [], leb,
  ◌==◌, length, set, length-set, is_some, pos, arith, Bool-cases, inl, inr,
}
use co_kv.Prelude.Run.{done}
use co_kv.Prelude.Vector.{
  slot, length-resize, slot-resize, slot-set_self, slot-set_ne, slot_outside,
}
use co_kv.FdManager.{
  FdCtx, FdTable, new_table, init, enlarge, create, get, del, TimeoutKind, rcvtimeo, other,
  set_timeout, get_timeout,
}

-- The table never gets shorter than it was made.
abbrev pub IsTable : FdTable → Type 0
IsTable t = 64 ≤ length t.datas

pub new_table-IsTable : (flags : ℕ → Bool) → IsTable (new_table flags)
unfolding new_table
new_table-IsTable flags = omega (arith, length-resize {A = FdCtx} 64 [])

-- Two tables agree away from one descriptor.
abbrev pub SameBut : ℕ → FdTable → FdTable → Type 0
SameBut fd t t' = (j : ℕ) → fd ≢ j → slot t'.datas j ≡ slot t.datas j

enlarge-slot :
    (fd : ℕ) (datas : List (Option FdCtx)) (j : ℕ) → slot (enlarge fd datas) j ≡ slot datas j
unfolding enlarge
enlarge-slot fd datas j = elim (Bool-cases (leb (length datas) fd)) [
  | inl e ↦ rw e (slot-resize (fd * 3 / 2) datas j (ground arith))
  | inr e ↦ rw e
]

enlarge-length :
    (fd : ℕ) (datas : List (Option FdCtx))
    → 64 ≤ length datas
    → (fd < length (enlarge fd datas)) × (64 ≤ length (enlarge fd datas))
unfolding enlarge
enlarge-length fd datas h = elim (Bool-cases (leb (length datas) fd)) [
  | inl e ↦ rw (e, length-resize (fd * 3 / 2) datas) (ground arith)
  | inr e ↦ rw e (ground arith)
]

module _ (fstat : ℕ → Option Bool) where
  -- Creating a context fills its slot, keeps the others, and needs no index out of range.
  pub create-slot :
      (fd : ℕ) (t : FdTable)
      → IsTable t
      → (t' : FdTable) × (create fstat fd t ≡ done (some (init fstat fd t.nonblock).0) t')
        × (slot t'.datas fd ≡ some (init fstat fd t.nonblock).0)
        × SameBut fd t t'
        × IsTable t'
        × (t'.nonblock ≡ (init fstat fd t.nonblock).1)
  unfolding create
  create-slot fd t h =
      let room = enlarge fd t.datas in
      let ctx = (init fstat fd t.nonblock).0 in
      let (inside, long) = enlarge-length fd t.datas h in
      let e : leb (length room) fd ≡ false = ground arith in
      (
        record { datas = set room fd (some ctx); nonblock = (init fstat fd t.nonblock).1 },
        rw e,
        slot-set_self room fd (some ctx) inside,
        (λ j ne. slot-set_ne room fd j (some ctx) ne ∙ enlarge-slot fd t.datas j),
        omega (arith, length-set room fd (some ctx)),
        refl,
      )

  -- In a table of at least 64 slots, asking for a descriptor other than 1 with `auto_create` never fails: a known context is
  -- returned and nothing changes, and an unknown one is created.
  pub get-auto_create :
      (fd : ℕ) (t : FdTable)
      → fd ≢ 1
      → IsTable t
      → (ctx : FdCtx) × (t' : FdTable) × (get fstat (pos fd) true t ≡ done (some ctx) t')
        × (slot t'.datas fd ≡ some ctx)
        × SameBut fd t t'
        × IsTable t'
        × ((c : FdCtx) → slot t.datas fd ≡ some c → (ctx ≡ c) × (t' ≡ t))
        × (slot t.datas fd ≡ none → ctx ≡ (init fstat fd t.nonblock).0)
  unfolding get
  get-auto_create fd t ne h = by_slot (slot t.datas fd) refl
    where
      by_slot :
          (o : Option FdCtx)
          → slot t.datas fd ≡ o
          → (ctx : FdCtx) × (t' : FdTable) × (get fstat (pos fd) true t ≡ done (some ctx) t')
            × (slot t'.datas fd ≡ some ctx)
            × SameBut fd t t'
            × IsTable t'
            × ((c : FdCtx) → slot t.datas fd ≡ some c → (ctx ≡ c) × (t' ≡ t))
            × (slot t.datas fd ≡ none → ctx ≡ (init fstat fd t.nonblock).0)
      by_slot none q =
          let (t', run, here, same, ok, flags) = create-slot fd t h in
          let n1 : (fd == 1) ≡ false = ground arith in
          (
            (init fstat fd t.nonblock).0,
            t',
            rw (n1, q, run)
                (elim (Bool-cases (leb (length t.datas) fd)) [ inl e ↦ rw e | inr e ↦ rw e ]),
            here,
            same,
            ok,
            λ c p. absurd (cc),
            λ p. refl,
          )
      by_slot (some c) q =
          let n1 : (fd == 1) ≡ false = ground arith in
          let inside : leb (length t.datas) fd ≡ false =
            elim (Bool-cases (leb (length t.datas) fd)) [
              | inl e ↦ absurd (cc (q, slot_outside t.datas fd (ground arith)))
              | inr e ↦ e
            ] in
          (c, t, rw (n1, inside, q), q, λ j k. refl, h, λ c' p. (cc, refl), λ p. absurd (cc))

  -- Without `auto_create` the table is only read, whatever the descriptor is, but for 1.
  pub get-slot :
      (fd : ℕ) (t : FdTable) → fd ≢ 1 → get fstat (pos fd) false t ≡ done (slot t.datas fd) t
  unfolding get
  get-slot fd t ne = elim (Bool-cases (leb (length t.datas) fd)) [
    | inl e ↦
        let n1 : (fd == 1) ≡ false = ground arith in
        rw (n1, e, slot_outside t.datas fd (ground arith))
    | inr e ↦
        let n1 : (fd == 1) ≡ false = ground arith in
        rw (n1, e) (elim (Bool-cases (is_some (slot t.datas fd))) [ inl k ↦ rw k | inr k ↦ rw k ])
  ]

-- In a table of at least 64 slots `del` empties the slot and keeps the others.
pub del-slot :
    (fd : ℕ) (t : FdTable)
    → IsTable t
    → (t' : FdTable) × (del (pos fd) t ≡ done tt t')
      × (slot t'.datas fd ≡ none)
      × SameBut fd t t'
      × IsTable t'
unfolding del
del-slot fd t h = elim (Bool-cases (leb (length t.datas) fd)) [
  | inl e ↦ (t, rw e, slot_outside t.datas fd (ground arith), (λ j k. refl), h)
  | inr e ↦ (
    record t { datas = set t.datas fd none },
    rw e,
    slot-set_self t.datas fd none (ground arith),
    (λ j k. slot-set_ne t.datas fd j none k),
    omega (arith, length-set t.datas fd none),
  )
]

-- A timeout that is set is read back, and the other kind stays.
pub get_timeout-set_timeout :
    (k j : TimeoutKind) (v : ℕ) (c : FdCtx)
    → ((get_timeout k (set_timeout k v c) ≡ v)
        × (k ≢ j → get_timeout j (set_timeout k v c) ≡ get_timeout j c))
unfolding get_timeout set_timeout
get_timeout-set_timeout rcvtimeo rcvtimeo v c = (refl, λ h. absurd (h refl))
get_timeout-set_timeout rcvtimeo other v c = (refl, λ h. refl)
get_timeout-set_timeout other rcvtimeo v c = (refl, λ h. refl)
get_timeout-set_timeout other other v c = (refl, λ h. absurd (h refl))
