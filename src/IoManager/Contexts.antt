-- ===== src/IoManager/Contexts.antt =====
-- The contexts of iomananger/iomanager.cpp: what a well-formed one is, and how many events a list of them has.
use co_kv.Prelude.{
  ℕ, zero, suc, ◌+◌, ◌*◌, ◌/◌, ◌≤◌, ◌≡◌, inl, inr, refl, ap, subst, Bool, true, false, Option, none,
  some, List, [], ◌∷◌, ltb, length, get_elem?, set, All, arith, Bool-cases,
}
use co_kv.IoManager.{
  Event, on_read, on_write, EventContext, blank, FdContext, new_context, Io, has, with_bit,
  get_event_context, put_event_context, triger_event, context_resize, grown, fired, posted,
  cancel_guard,
}

abbrev pub bit : Bool → ℕ
bit true = 1
bit false = 0

abbrev pub weight : FdContext → ℕ
weight c = bit c.events.has_read + bit c.events.has_write

abbrev pub registered : List FdContext → ℕ
registered [] = 0
registered (c ∷ cs) = weight c + registered cs

-- A registered event has a scheduler and either a function or a coroutine; the others have nothing.
pub data Side : Bool → EventContext → Type 0 where
  off : Side false blank
  with_cb : (s f : ℕ) → Side true (record { scheduler = some s; cb = some f; co = none })
  with_co : (s c : ℕ) → Side true (record { scheduler = some s; cb = none; co = some c })

pub record IsContext (c : FdContext) : Type 0 where
  pub read : Side c.events.has_read c.read
  pub write : Side c.events.has_write c.write

pub record Balanced (m : Io) : Type 0 where
  pub each : All IsContext m.contexts
  pub count : m.pending_event_count ≡ registered m.contexts

new_context-IsContext : IsContext new_context
new_context-IsContext = record { read = off; write = off }

resize-All : (n : ℕ) (cs : List FdContext) → All IsContext cs → All IsContext (context_resize n cs)
unfolding context_resize
resize-All zero cs h = tt
resize-All (suc n) [] h = (new_context-IsContext, resize-All n [] tt)
resize-All (suc n) (c ∷ cs) h = (h.0, resize-All n cs h.1)

resize-registered :
    (n : ℕ) (cs : List FdContext) → length cs ≤ n → registered (context_resize n cs) ≡ registered cs
unfolding context_resize
resize-registered zero [] h = refl
resize-registered zero (c ∷ cs) h = absurd (omega arith)
resize-registered (suc n) [] h = omega (arith, resize-registered n [] (omega arith))
resize-registered (suc n) (c ∷ cs) h =
    ap (λ (k : ℕ). weight c + k) (resize-registered n cs (omega arith))

pub grown-All : (fd : ℕ) (cs : List FdContext) → All IsContext cs → All IsContext (grown fd cs)
unfolding grown
grown-All fd cs h = elim (Bool-cases (ltb fd (length cs))) [
  | inl e ↦ rw e h
  | inr e ↦ rw e (resize-All (fd * 3 / 2) cs h)
]

pub grown-registered : (fd : ℕ) (cs : List FdContext) → registered (grown fd cs) ≡ registered cs
unfolding grown
grown-registered fd cs = elim (Bool-cases (ltb fd (length cs))) [
  | inl e ↦ rw e refl
  | inr e ↦ rw e (resize-registered (fd * 3 / 2) cs (ground (arith, e)))
]

pub set-All :
    (cs : List FdContext) (i : ℕ) (c : FdContext)
    → All IsContext cs
    → IsContext c
    → All IsContext (set cs i c)
set-All [] i c h k = tt
set-All (x ∷ xs) zero c h k = (k, h.1)
set-All (x ∷ xs) (suc i) c h k = (h.0, set-All xs i c h.1 k)

abbrev held : FdContext → Option FdContext → FdContext
held d none = d
held d (some c) = c

pub get-All :
    (cs : List FdContext) (i : ℕ) (c : FdContext)
    → All IsContext cs
    → get_elem? cs i ≡ some c
    → IsContext c
get-All [] i c h e = cc
get-All (x ∷ xs) zero c h e = subst IsContext (ap (held x) e) h.0
get-All (x ∷ xs) (suc i) c h e = get-All xs i c h.1 e

pub set-registered :
    (cs : List FdContext) (i : ℕ) (c c' : FdContext)
    → get_elem? cs i ≡ some c
    → registered (set cs i c') + weight c ≡ registered cs + weight c'
set-registered [] i c c' e = cc
set-registered (x ∷ xs) zero c c' e = omega (arith, ap weight (ap (held x) e))
set-registered (x ∷ xs) (suc i) c c' e = omega (arith, set-registered xs i c c' e)

pub Side-fired :
    (b : Bool) (x : EventContext)
    → Side b x
    → b ≡ true
    → (s : ℕ) × (x.scheduler ≡ some s) × (fired x ≡ blank)
Side-fired _ _ off e = cc
Side-fired _ _ (with_cb s f) e = (s, refl, refl)
Side-fired _ _ (with_co s c) e = (s, refl, refl)

-- A context without the event.
pub record Without (ev : Event) (c c' : FdContext) : Type 0 where
  pub ok : IsContext c'
  pub weighs : weight c' + 1 ≡ weight c

pub cleared-Without :
    (ev : Event) (c : FdContext)
    → IsContext c
    → has c.events ev ≡ true
    → Without ev c (put_event_context ev blank (record c { events = with_bit ev false c.events }))
cleared-Without on_read c h e = record {
  ok = record { read = off; write = h.write };
  weighs = omega (arith, ap bit e);
}
cleared-Without on_write c h e = record {
  ok = record { read = h.read; write = off };
  weighs = omega (arith, ap bit e);
}

pub at_side :
    (ev : Event) (c : FdContext) → IsContext c → Side (has c.events ev) (get_event_context ev c)
at_side on_read c h = h.read
at_side on_write c h = h.write

pub triger_event-Without :
    (ev : Event) (c : FdContext)
    → IsContext c
    → has c.events ev ≡ true
    → (s : ℕ) × ((get_event_context ev c).scheduler ≡ some s)
      × (triger_event ev c
          ≡ some (
            put_event_context ev blank (record c { events = with_bit ev false c.events }),
            posted s (get_event_context ev c).cb (get_event_context ev c).co,
          ))
unfolding triger_event
triger_event-Without on_read c h e =
    let (s, sched, clean) = Side-fired c.events.has_read c.read h.read e in
    (s, sched, rw (sched, clean) refl)
triger_event-Without on_write c h e =
    let (s, sched, clean) = Side-fired c.events.has_write c.write h.write e in
    (s, sched, rw (sched, clean) refl)

-- A cancellation goes on where the event is registered.
pub cancel_guard-registered :
    (ev : Event) (c : FdContext) → has c.events ev ≡ true → cancel_guard c.events ev ≡ false
cancel_guard-registered on_read c h = rw h refl
cancel_guard-registered on_write c h = refl
