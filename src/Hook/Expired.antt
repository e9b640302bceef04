-- ===== src/Hook/Expired.antt =====
-- How a wait of `io_func` in hook/hook.cpp ends when its timer has expired.
use co_kv.Prelude.{
  ℕ, ◌≡◌, refl, sym, ◌∙◌, ap, subst, Bool, true, false, ◌||◌, Option, none, some, List, [], ◌∷◌,
  ◌++◌, ◌==◌, ==_iff, ==_refl, arith, All, Bool-cases, inl, inr,
}
use co_kv.Prelude.Run.{fault}
use co_kv.Timer.{Manager, renew, collect, split_expired, expire_from, list_expired_cb, cancel}
use co_kv.Timer.Order.{Sorted, Due, Later}
use co_kv.Timer.Expiry.{split_expired-Due}
use co_kv.Timer.Collect.{renew-object}
use co_kv.IoManager.Idle.{Poller, move_expired}
use co_kv.Hook.Suspend.{WaitCall, end_wait, drop_timer}

-- The address is in the list.
unfoldable pub member : ℕ → List ℕ → Bool
member a [] = false
member a (x ∷ xs) = (a == x) || member a xs

member-append : (a : ℕ) (xs ys : List ℕ) → member a (xs ++ ys) ≡ (member a xs || member a ys)
unfolding member
member-append a [] ys = refl
member-append a (x ∷ xs) ys = ground (arith, member-append a xs ys)

member-All : (P : ℕ → Type 0) (a : ℕ) (xs : List ℕ) → member a xs ≡ true → All P xs → P a
unfolding member
member-All P a [] h k = cc
member-All P a (x ∷ xs) h k = elim (Bool-cases (a == x)) [
  | inl e ↦ subst P (sym ((==_iff a x).0 e)) k.0
  | inr e ↦ member-All P a xs (rw e at h) k.1
]

-- The timer runs once, and it has.
record Spent (a : ℕ) (m : Manager) : Type 0 where
  single : (m.object a).recurring ≡ false
  no_cb : (m.object a).cb ≡ none

renew-single :
    (now a x : ℕ) (m : Manager)
    → (m.object a).recurring ≡ false
    → ((renew now x m).object a).recurring ≡ false
renew-single now a x m h = elim (Bool-cases (a == x)) [
  | inl e ↦
      let same : a ≡ x = (==_iff a x).0 e in
      let h' : (m.object x).recurring ≡ false =
        subst (λ n. (m.object n).recurring ≡ false) same h in
      unfold renew in rw (h', e) refl
  | inr e ↦ rw (renew-object now x a m e) h
]

renew_own : (now a : ℕ) (m : Manager) → (m.object a).recurring ≡ false → Spent a (renew now a m)
renew_own now a m h = record {
  single = renew-single now a a m h;
  no_cb = unfold renew in rw (h, ==_refl a) refl;
}

renew-Spent : (now a x : ℕ) (m : Manager) → Spent a m → Spent a (renew now x m)
renew-Spent now a x m h = elim (Bool-cases (a == x)) [
  | inl e ↦
      let same : a ≡ x = (==_iff a x).0 e in
      subst (λ n. Spent a (renew now n m)) same (renew_own now a m h.single)
  | inr e ↦ record {
    single = renew-single now a x m h.single;
    no_cb = rw (renew-object now x a m e) h.no_cb;
  }
]

collect-Spent : (now a : ℕ) (xs : List ℕ) (m : Manager) → Spent a m → Spent a (collect now xs m).1
unfolding collect
collect-Spent now a [] m h = h
collect-Spent now a (x ∷ xs) m h = collect-Spent now a xs (renew now x m) (renew-Spent now a x m h)

collect-member :
    (now a : ℕ) (xs : List ℕ) (m : Manager)
    → (m.object a).recurring ≡ false
    → member a xs ≡ true
    → Spent a (collect now xs m).1
unfolding collect member
collect-member now a [] m h k = cc
collect-member now a (x ∷ xs) m h k = elim (Bool-cases (a == x)) [
  | inl e ↦
      let same : a ≡ x = (==_iff a x).0 e in
      collect-Spent now a xs (renew now x m)
        (subst (λ n. Spent a (renew now n m)) same (renew_own now a m h))
  | inr e ↦ collect-member now a xs (renew now x m) (renew-single now a x m h) (rw e at k)
]

list_expired_cb-Spent :
    (now probe a : ℕ) (m : Manager)
    → Sorted m.object m.timers
    → member a m.timers ≡ true
    → Due m.object now a
    → (m.object a).recurring ≡ false
    → Spent a (list_expired_cb now probe m).1
unfolding list_expired_cb expire_from member
list_expired_cb-Spent now probe a m so k d h = by_timers m.timers so k
  where
    by_timers :
        (xs : List ℕ)
        → Sorted m.object xs
        → member a xs ≡ true
        → Spent a (expire_from now probe xs m).1
    by_timers [] so k = cc
    by_timers (x ∷ xs) so k =
        let r = split_expired m.object now probe (x ∷ xs) in
        let (whole, due, later) = split_expired-Due m.object now probe (x ∷ xs) so in
        let both : (member a r.0 || member a r.1) ≡ true =
          sym (member-append a r.0 r.1) ∙ ap (member a) whole ∙ k in
        let taken : member a r.0 ≡ true = elim (Bool-cases (member a r.1)) [
          | inl e ↦
              let l = member-All (Later m.object now) a r.1 e later in absurd (omega (arith, l, d))
          | inr e ↦ ground (arith, both, e)
        ] in
        collect-member now a r.0 (record m { timers = r.1 }) h taken

-- The timers behind `move_expired`.
move_expired-timers :
    (now probe : ℕ) (p : Poller)
    → (move_expired now probe p).timers ≡ (list_expired_cb now probe p.timers).1
unfolding move_expired
move_expired-timers now probe p = by_cbs (list_expired_cb now probe p.timers) refl
  where
    by_cbs :
        (r : List (Option ℕ) × Manager)
        → list_expired_cb now probe p.timers ≡ r
        → (move_expired now probe p).timers ≡ r.1
    by_cbs ([], m) e =
        rw (move_expired, ap (λ (r : List (Option ℕ) × Manager). r.0) e)
          (ap (λ (r : List (Option ℕ) × Manager). r.1) e)
    by_cbs (cb ∷ rest, m) e =
        rw (move_expired, ap (λ (r : List (Option ℕ) × Manager). r.0) e)
          (ap (λ (r : List (Option ℕ) × Manager). r.1) e)

-- Once the timer of a wait has expired, by a round of the loop of the IOManager, the wait ends in
-- `Timer::cancel` of a timer without callback, which has no `return`, whatever has ended the wait.
pub end_wait-fault :
    (now probe s : ℕ) (w : WaitCall) (cancelled : Bool) (p : Poller)
    → w.to ≡ some s
    → Sorted p.timers.object p.timers.timers
    → member w.timer p.timers.timers ≡ true
    → Due p.timers.object now w.timer
    → (p.timers.object w.timer).recurring ≡ false
    → end_wait w cancelled (move_expired now probe p) ≡ fault
unfolding end_wait drop_timer
end_wait-fault now probe s w cancelled p e so k d h =
    let spent = list_expired_cb-Spent now probe w.timer p.timers so k d h in
    let no_cb : (((move_expired now probe p).timers.object w.timer).cb) ≡ none =
      ap (λ (m : Manager). (m.object w.timer).cb) (move_expired-timers now probe p) ∙ spent.no_cb in
    rw e (unfold cancel in rw no_cb refl)
