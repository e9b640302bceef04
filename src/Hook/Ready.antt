-- ===== src/Hook/Ready.antt =====
-- A coroutine that waits in `io_func` of hook/hook.cpp, and what gives it back to its scheduler: a report of
-- its event, or the callback of its timer.
use co_kv.Prelude.{
  ℕ, ◌≡◌, refl, sym, ◌∙◌, ap, true, false, not, ◌&&◌, ◌||◌, none, some, List, [], ◌∷◌, ◌++◌, ltb,
  length, get_elem?, set, get_elem?-set_self, Bool-cases, inl, inr, lt→ltb,
}
use co_kv.Prelude.Run.{done}
use co_kv.IoManager.{
  Event, on_read, on_write, Events, EventContext, FdContext, Io, Task, resumes, posted, dec, Op,
  has, with_bit, get_event_context, put_event_context, blank, grown, fetch, triger_at, triger_if,
  cancel_event, handle_ready, cancel_guard, ctl_of,
}
use co_kv.IoManager.Contexts.{cancel_guard-registered, Balanced, get-All, triger_event-Without}
use co_kv.IoManager.Balance.{drop-Balanced}
use co_kv.IoManager.Trigger.{get_elem?-inside, has-cleared, logged, logged-Balanced}
use co_kv.Hook.Suspend.{WaitCall}

-- The coroutine of the wait is registered for its event.
pub record Waits (w : WaitCall) (m : Io) : Type 0 where
  pub ctx : FdContext
  pub here : get_elem? m.contexts w.fd ≡ some ctx
  pub registered : has ctx.events w.event ≡ true
  pub who :
      get_event_context w.event ctx
      ≡ record { scheduler = some w.scheduler; co = some w.co; cb = none }

-- The event is not registered.
abbrev pub Gone : WaitCall → Io → Type 0
Gone w m = (c : FdContext) × (get_elem? m.contexts w.fd ≡ some c) × (has c.events w.event ≡ false)

-- The coroutine has been given to its scheduler, once, and the event is not registered any more.
pub record Woken (w : WaitCall) (m m' : Io) : Type 0 where
  pub balanced : Balanced m'
  pub given : m'.tasks ≡ m.tasks ++ (w.scheduler, resumes w.co) ∷ []
  pub gone : Gone w m'

-- A report of the event alone.
abbrev pub only : Event → Events
only on_read = record { has_read = true; has_write = false }
only on_write = record { has_read = false; has_write = true }

pub grown-inside :
    (fd : ℕ) (cs : List FdContext) (c : FdContext) → get_elem? cs fd ≡ some c → grown fd cs ≡ cs
unfolding grown
grown-inside fd cs c e =
    let inside : ltb fd (length cs) ≡ true = lt→ltb fd (length cs) (get_elem?-inside cs fd c e) in
    rw inside refl

posted-who :
    (s t c : ℕ) (x : EventContext)
    → x ≡ record { scheduler = some t; co = some c; cb = none }
    → x.scheduler ≡ some s
    → posted s x.cb x.co ≡ (t, resumes c) ∷ []
posted-who s t c x e f =
    let g : some t ≡ some s = sym (ap (λ (y : EventContext). y.scheduler) e) ∙ f in
    let k : t ≡ s = cc in
    ap (λ (y : EventContext). posted s y.cb y.co) e ∙ ap (λ (n : ℕ). (n, resumes c) ∷ []) (sym k)

-- The trigger of the event that a coroutine waits for.
triger_at-Woken :
    (w : WaitCall) (m : Io)
    → Balanced m
    → Waits w m
    → (m' : Io) × (triger_at w.fd w.event m ≡ done tt m') × Woken w m m'
unfolding triger_at
triger_at-Woken w m b h =
    let (s, sched, run) =
      triger_event-Without w.event h.ctx (get-All m.contexts w.fd h.ctx b.each h.here)
        h.registered in
    let (each, count) = drop-Balanced w.fd w.event b h.here h.registered in
    let x = get_event_context w.event h.ctx in
    let c' =
      put_event_context w.event blank
        (record h.ctx { events = with_bit w.event false h.ctx.events }) in
    (
      record m {
        contexts = set m.contexts w.fd c';
        tasks = m.tasks ++ posted s x.cb x.co;
        pending_event_count = dec m.pending_event_count;
      },
      rw (h.here, fetch, run) refl,
      record {
        balanced = record { each = each; count = count };
        given =
            ap (λ (ts : List (ℕ × Task)). m.tasks ++ ts)
              (posted-who s w.scheduler w.co (get_event_context w.event h.ctx) h.who sched);
        gone = (
          _,
          get_elem?-set_self m.contexts w.fd _ (get_elem?-inside m.contexts w.fd h.ctx h.here),
          has-cleared w.event h.ctx,
        );
      },
    )

logged-Waits :
    (w : WaitCall) (m : Io) (ctl : List (Op × (ℕ × Events))) → Waits w m → Waits w (logged m ctl)
logged-Waits w m ctl h = record {
  ctx = h.ctx;
  here = h.here;
  registered = h.registered;
  who = h.who;
}

unlogged-Woken :
    (w : WaitCall) (m m' : Io) (ctl : List (Op × (ℕ × Events)))
    → Woken w (logged m ctl) m'
    → Woken w m m'
unlogged-Woken w m m' ctl h = record { balanced = h.balanced; given = h.given; gone = h.gone }

cancel_event-Woken :
    (w : WaitCall) (m : Io)
    → Balanced m
    → Waits w m
    → (m' : Io) × (cancel_event w.fd w.event m ≡ done true m') × Woken w m m'
unfolding cancel_event
cancel_event-Woken w m b h =
    let op = ctl_of (with_bit w.event false h.ctx.events) in
    let ctl = m.ctl ++ (op, (w.fd, h.ctx.events)) ∷ [] in
    let (m', run, woken) =
      triger_at-Woken w (logged m ctl) (logged-Balanced m ctl b) (logged-Waits w m ctl h) in
    let guard : cancel_guard h.ctx.events w.event ≡ false =
      cancel_guard-registered w.event h.ctx h.registered in
    (
      m',
      rw (grown-inside w.fd m.contexts h.ctx h.here, h.here, fetch, guard, run) refl,
      unlogged-Woken w m m' ctl woken,
    )

-- A ready descriptor whose event is not registered is passed over.
handle_ready-Gone :
    (w : WaitCall) (ev : Event) (m : Io)
    → w.event ≡ ev
    → Gone w m
    → handle_ready w.fd (only w.event) false m ≡ done tt m
unfolding handle_ready
handle_ready-Gone w on_read m e (c, here, h) =
    let k : c.events.has_read ≡ false = rw e at h in
    rw (e, here, fetch, k)
      (elim (Bool-cases c.events.has_write) [ inl f ↦ rw f refl | inr f ↦ rw f refl ])
handle_ready-Gone w on_write m e (c, here, h) =
    let k : c.events.has_write ≡ false = rw e at h in
    rw (e, here, fetch, k)
      (elim (Bool-cases c.events.has_read) [ inl f ↦ rw f refl | inr f ↦ rw f refl ])

-- What the system is told of a context whose events are reported.
abbrev told : FdContext → Events → List (Op × (ℕ × Events))
told c ready =
    let left : Events = record {
      has_read = c.events.has_read && not (ready.has_read || (false && c.events.has_read));
      has_write = c.events.has_write && not ready.has_write;
    } in
    (ctl_of left, (c.fd, left)) ∷ []

pub handle_ready-Woken :
    (w : WaitCall) (ev : Event) (m : Io)
    → w.event ≡ ev
    → Balanced m
    → Waits w m
    → (m' : Io) × (handle_ready w.fd (only w.event) false m ≡ done tt m') × Woken w m m'
unfolding handle_ready triger_if
handle_ready-Woken w on_read m e b h =
    let c = h.ctx in
    let ctl = m.ctl ++ told c (only on_read) in
    let (m', run, woken) =
      triger_at-Woken w (logged m ctl) (logged-Balanced m ctl b) (logged-Waits w m ctl h) in
    let r : c.events.has_read ≡ true = rw e at h.registered in
    let k : (c.events.has_read && (true || (false && c.events.has_read)))
          || (c.events.has_write && false)
        ≡ true =
      rw r refl in
    let run' : triger_at w.fd on_read (logged m ctl) ≡ done tt m' = rw e at run in
    (m', rw (e, h.here, fetch, k, run') refl, unlogged-Woken w m m' ctl woken)
handle_ready-Woken w on_write m e b h =
    let c = h.ctx in
    let ctl = m.ctl ++ told c (only on_write) in
    let (m', run, woken) =
      triger_at-Woken w (logged m ctl) (logged-Balanced m ctl b) (logged-Waits w m ctl h) in
    let r : c.events.has_write ≡ true = rw e at h.registered in
    let k : (c.events.has_read && (false || (false && c.events.has_read)))
          || (c.events.has_write && true)
        ≡ true =
      elim (Bool-cases c.events.has_read) [ inl f ↦ rw (r, f) refl | inr f ↦ rw (r, f) refl ] in
    let run' : triger_at w.fd on_write (logged m ctl) ≡ done tt m' = rw e at run in
    (m', rw (e, h.here, fetch, k, run') refl, unlogged-Woken w m m' ctl woken)

-- What the wait of a coroutine leaves in the contexts: it wakes once.
pub record WakesOnce (w : WaitCall) (m : Io) : Type 0 where
  pub by_event :
      (m' : Io) × (handle_ready w.fd (only w.event) false m ≡ done tt m')
      × Woken w m m'
      × (handle_ready w.fd (only w.event) false m' ≡ done tt m')
  pub by_timer :
      (m' : Io) × (cancel_event w.fd w.event m ≡ done true m')
      × Woken w m m'
      × (handle_ready w.fd (only w.event) false m' ≡ done tt m')

-- A coroutine that waits is queued once by a report of its event and once by the callback of its timer,
-- whichever comes first, and another report of the event does not queue it again.
pub Waits-WakesOnce : (w : WaitCall) (m : Io) → Balanced m → Waits w m → WakesOnce w m
Waits-WakesOnce w m b h =
    let (m₁, run₁, woken₁) = handle_ready-Woken w w.event m refl b h in
    let (m₂, run₂, woken₂) = cancel_event-Woken w m b h in
    record {
      by_event = (m₁, run₁, woken₁, handle_ready-Gone w w.event m₁ refl woken₁.gone);
      by_timer = (m₂, run₂, woken₂, handle_ready-Gone w w.event m₂ refl woken₂.gone);
    }
