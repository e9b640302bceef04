-- ===== src/IoManager/Balance.antt =====
-- The count of pending events of iomananger/iomanager.cpp against the registered events.
use co_kv.Prelude.{
  ℕ, ◌+◌, ◌^◌, ◌<◌, ◌≡◌, inl, inr, refl, sym, ap, ◌∙◌, Bool, true, false, Option, none, some,
  if◌then◌else◌, is_some, get_elem?, set, All, arith, Bool-cases,
}
use co_kv.Prelude.Run.{Run, done, fault, out_of_fuel}
use co_kv.IoManager.{
  Event, on_read, on_write, EventContext, blank, FdContext, Io, dec, has, with_bit,
  get_event_context, put_event_context, triger_event, grown, fetch, triger_at, add_event, del_event,
  cancel_event, cancel_guard,
}
use co_kv.IoManager.Contexts.{
  bit, weight, registered, Side, off, with_cb, with_co, IsContext, Balanced, grown-All,
  grown-registered, set-All, get-All, set-registered, cleared-Without, at_side,
  triger_event-Without, cancel_guard-registered,
}

-- One registered event less.
pub drop-Balanced :
    {m : Io} (fd : ℕ) {c : FdContext} (ev : Event)
    → Balanced m
    → get_elem? m.contexts fd ≡ some c
    → has c.events ev ≡ true
    → let c' = put_event_context ev blank (record c { events = with_bit ev false c.events }) in
      All IsContext (set m.contexts fd c')
      × (dec m.pending_event_count ≡ registered (set m.contexts fd c'))
drop-Balanced {m} fd {c} ev b e h =
    let c' = put_event_context ev blank (record c { events = with_bit ev false c.events }) in
    let w = cleared-Without ev c (get-All m.contexts fd c b.each e) h in
    (
      set-All m.contexts fd c' b.each w.ok,
      ground (arith, b.count, w.weighs, set-registered m.contexts fd c c' e),
    )

-- The run ends with this result, and the count is right.
abbrev pub Ends : {A : Type 0} → A → Run Io A → Type 0
Ends a (done b m) = (b ≡ a) × Balanced m
Ends a fault = ⊥
Ends a out_of_fuel = ⊥

pub triger_at-Balanced :
    (fd : ℕ) (ev : Event) (m : Io) (c : FdContext)
    → Balanced m
    → get_elem? m.contexts fd ≡ some c
    → has c.events ev ≡ true
    → Ends tt (triger_at fd ev m)
unfolding triger_at
triger_at-Balanced fd ev m c b e h =
    let (s, _, run) = triger_event-Without ev c (get-All m.contexts fd c b.each e) h in
    let (each, count) = drop-Balanced fd ev b e h in
    rw (e, fetch, run) (refl, record { each = each; count = count })

-- The contexts that an operation works on.
abbrev pub extended : ℕ → Io → Io
extended fd m = record m { contexts = grown fd m.contexts }

pub extended-Balanced : (fd : ℕ) (m : Io) → Balanced m → Balanced (extended fd m)
extended-Balanced fd m b = record {
  each = grown-All fd m.contexts b.each;
  count = b.count ∙ sym (grown-registered fd m.contexts);
}

-- Where the count of pending events is right, `delEvent` reports whether the event was registered
-- and leaves the count right.
pub del_event-Balanced :
    (fd : ℕ) (ev : Event) (m : Io) (c : FdContext)
    → Balanced m
    → get_elem? (grown fd m.contexts) fd ≡ some c
    → Ends (has c.events ev) (del_event fd ev m)
unfolding del_event
del_event-Balanced fd ev m c b e = elim (Bool-cases (has c.events ev)) [
  | inl h ↦
      let (each, count) = drop-Balanced fd ev (extended-Balanced fd m b) e h in
      rw (e, h) (refl, record { each = each; count = count })
  | inr h ↦ rw (e, h) (refl, extended-Balanced fd m b)
]

added : ℕ → ℕ → ℕ → Event → Option ℕ → FdContext → FdContext
added this co fd ev cb c =
    put_event_context ev
      (record { scheduler = some this; cb = cb; co = if is_some cb then none else some co })
      (record c { fd = fd; events = with_bit ev true c.events })

new_side :
    (this co : ℕ) (cb : Option ℕ)
    → Side true
        (record { scheduler = some this; cb = cb; co = if is_some cb then none else some co })
new_side this co none = with_co this co
new_side this co (some f) = with_cb this f

pub Side-blank : (b : Bool) (x : EventContext) → Side b x → b ≡ false → x ≡ blank
Side-blank _ _ off e = refl
Side-blank _ _ (with_cb s f) e = cc
Side-blank _ _ (with_co s c) e = cc

added-IsContext :
    (this co fd : ℕ) (ev : Event) (cb : Option ℕ) (c : FdContext)
    → IsContext c
    → IsContext (added this co fd ev cb c)
unfolding added
added-IsContext this co fd on_read cb c h = record { read = new_side this co cb; write = h.write }
added-IsContext this co fd on_write cb c h = record { read = h.read; write = new_side this co cb }

weight-added :
    (this co fd : ℕ) (ev : Event) (cb : Option ℕ) (c : FdContext)
    → has c.events ev ≡ false
    → weight (added this co fd ev cb c) ≡ weight c + 1
unfolding added
weight-added this co fd on_read cb c h = omega (arith, ap bit h)
weight-added this co fd on_write cb c h = omega (arith, ap bit h)

-- Where the count is right and has room and `epoll_ctl` succeeds, `addEvent` for an event that is
-- not registered passes its assertions and reports success, and the count of pending events is right.
pub add_event-Balanced :
    (this co fd : ℕ) (ev : Event) (cb : Option ℕ) (m : Io) (c : FdContext)
    → Balanced m
    → get_elem? (grown fd m.contexts) fd ≡ some c
    → has c.events ev ≡ false
    → m.pending_event_count + 1 < 2 ^ 64
    → Ends true (add_event true this co fd ev cb m)
unfolding add_event added
add_event-Balanced this co fd ev cb m c b e h room =
    let old = get-All (grown fd m.contexts) fd c (grown-All fd m.contexts b.each) e in
    let c' = added this co fd ev cb c in
    let empty = Side-blank (has c.events ev) (get_event_context ev c) (at_side ev c old) h in
    rw (e, h, empty)
      (
        refl,
        record {
          each =
              set-All (grown fd m.contexts) fd c' (grown-All fd m.contexts b.each)
                (added-IsContext this co fd ev cb c old);
          count = ground (
            arith,
            room,
            b.count,
            grown-registered fd m.contexts,
            weight-added this co fd ev cb c h,
            set-registered (grown fd m.contexts) fd c c' e,
          );
        },
      )

-- `cancelEvent` for an event that is registered, where the count of pending events is right, reports
-- success and leaves the count right.
pub cancel_event-Balanced :
    (fd : ℕ) (ev : Event) (m : Io) (c : FdContext)
    → Balanced m
    → get_elem? (grown fd m.contexts) fd ≡ some c
    → has c.events ev ≡ true
    → Ends true (cancel_event fd ev m)
unfolding cancel_event triger_at
cancel_event-Balanced fd ev m c b e h =
    let b' = extended-Balanced fd m b in
    let (s, _, run) = triger_event-Without ev c (get-All (grown fd m.contexts) fd c b'.each e) h in
    let (each, count) = drop-Balanced fd ev b' e h in
    let guard : cancel_guard c.events ev ≡ false = cancel_guard-registered ev c h in
    rw (e, guard, fetch, run) (refl, record { each = each; count = count })

-- Where the count is right, `cancelEvent` for an event that is not registered reads a null scheduler, unless nothing is
-- registered for the descriptor and the event is READ.
pub cancel_event-fault :
    (fd : ℕ) (ev : Event) (m : Io) (c : FdContext)
    → Balanced m
    → get_elem? (grown fd m.contexts) fd ≡ some c
    → has c.events ev ≡ false
    → cancel_guard c.events ev ≡ false
    → cancel_event fd ev m ≡ fault
unfolding cancel_event triger_at triger_event
cancel_event-fault fd ev m c b e h guard =
    let old = get-All (grown fd m.contexts) fd c (grown-All fd m.contexts b.each) e in
    let empty = Side-blank (has c.events ev) (get_event_context ev c) (at_side ev c old) h in
    rw (e, guard, fetch, empty) refl
