-- ===== src/IoManager/Told.antt =====
-- What iomananger/iomanager.cpp has told epoll, against the registered events.
use co_kv.Prelude.{
  ℕ, ◌≡◌, refl, ap, ◌∙◌, Bool, true, false, ◌&&◌, some, List, [], ◌∷◌, ◌++◌, ◌==◌, if◌then◌else◌,
  get_elem?, ==_refl,
}
use co_kv.Prelude.Run.{done, fault}
use co_kv.IoManager.{
  Event, on_read, on_write, Events, FdContext, Io, Op, ctl_add, ctl_mod, ctl_del, ctl_of, has,
  with_bit, get_event_context, grown, fetch, triger_event, triger_at, triger_if, cancel_event,
  handle_ready,
}
use co_kv.IoManager.Contexts.{Balanced, get-All, at_side, cancel_guard-registered}
use co_kv.IoManager.Balance.{Side-blank, extended, extended-Balanced}
use co_kv.IoManager.Trigger.{other, triger_if-Fires, logged, logged-Balanced}

abbrev pub no_events : Events
no_events = record { has_read = false; has_write = false }

-- What a call of `epoll_ctl` leaves for its descriptor.
abbrev pub told_as : Op → Events → Events
told_as ctl_add es = es
told_as ctl_mod es = es
told_as ctl_del es = no_events

-- What the calls leave for a descriptor.
unfoldable pub told_by : Events → ℕ → List (Op × (ℕ × Events)) → Events
told_by es fd [] = es
told_by es fd ((op, (q, new)) ∷ rest) = told_by (if q == fd then told_as op new else es) fd rest

abbrev pub told : ℕ → Io → Events
told fd m = told_by no_events fd m.ctl

-- A report of epoll has only events that it has been told of.
abbrev pub Among : Events → Events → Type 0
Among ready es =
    (ready.has_read ≡ true → es.has_read ≡ true) × (ready.has_write ≡ true → es.has_write ≡ true)

told_by-append :
    (es new : Events) (fd : ℕ) (op : Op) (ctl : List (Op × (ℕ × Events)))
    → told_by es fd (ctl ++ (op, (fd, new)) ∷ []) ≡ told_as op new
unfolding told_by
told_by-append es new fd op [] = let e : (fd == fd) ≡ true = ==_refl fd in rw e refl
told_by-append es new fd op ((op', (q, x)) ∷ rest) =
    told_by-append (if q == fd then told_as op' x else es) new fd op rest

triger_at-fault :
    (fd : ℕ) (ev : Event) (m : Io) (c : FdContext)
    → Balanced m
    → get_elem? m.contexts fd ≡ some c
    → has c.events ev ≡ false
    → triger_at fd ev m ≡ fault
unfolding triger_at triger_event
triger_at-fault fd ev m c b e h =
    let empty =
      Side-blank (has c.events ev) (get_event_context ev c)
        (at_side ev c (get-All m.contexts fd c b.each e)) h in
    rw (e, fetch, empty) refl

-- Both events are registered.
abbrev pub both : Events
both = record { has_read = true; has_write = true }

-- A report of both where one is not registered any more.
handle_ready-fault :
    (fd : ℕ) (ev : Event) (m : Io) (c : FdContext)
    → Balanced m
    → get_elem? m.contexts fd ≡ some c
    → c.events ≡ with_bit ev false both
    → handle_ready fd both false m ≡ fault
unfolding handle_ready triger_if
handle_ready-fault fd on_read m c b e f =
    let no_read : c.events.has_read ≡ false = ap (λ (es : Events). es.has_read) f in
    let write : c.events.has_write ≡ true = ap (λ (es : Events). es.has_write) f in
    let ctl = m.ctl ++ (ctl_of no_events, (c.fd, no_events)) ∷ [] in
    let bad = triger_at-fault fd on_read (logged m ctl) c (logged-Balanced m ctl b) e no_read in
    rw (e, fetch, no_read, write, bad) refl
handle_ready-fault fd on_write m c b e f =
    let read : c.events.has_read ≡ true = ap (λ (es : Events). es.has_read) f in
    let no_write : c.events.has_write ≡ false = ap (λ (es : Events). es.has_write) f in
    let ctl = m.ctl ++ (ctl_of no_events, (c.fd, no_events)) ∷ [] in
    let (m₁, run, fires) =
      triger_if-Fires true fd on_read (logged m ctl) c (logged-Balanced m ctl b) e (λ x. read) in
    let bad =
      triger_at-fault fd on_write m₁ fires.ctx fires.balanced fires.here (fires.kept ∙ no_write) in
    rw (e, fetch, read, no_write, run, bad) refl

cancelled_left :
    (ev : Event) (r w : Bool) (es : Events)
    → es.has_read ≡ r
    → es.has_write ≡ w
    → r ≡ true
    → w ≡ true
    → ctl_of (with_bit ev false es) ≡ ctl_mod
cancelled_left on_read r w es e f g h = rw (f, h) refl
cancelled_left on_write r w es e f g h = rw (e, g) refl

other_left :
    (ev : Event) (c d : FdContext)
    → c.events ≡ both
    → has d.events ev ≡ false
    → has d.events (other ev) ≡ has c.events (other ev)
    → d.events ≡ with_bit ev false both
other_left on_read c d e f g =
    let h : d.events.has_write ≡ true = g ∙ ap (λ (es : Events). es.has_write) e in
    λ i. record { has_read = f i; has_write = h i }
other_left on_write c d e f g =
    let h : d.events.has_read ≡ true = g ∙ ap (λ (es : Events). es.has_read) e in
    λ i. record { has_read = h i; has_write = f i }

-- Where both events of a descriptor are registered and the count is right, `cancelEvent` of either of them
-- reports success but tells epoll of both again; if epoll then reports both, the loop of `idle` reads a
-- null scheduler.
pub cancel_event-stale :
    (fd : ℕ) (ev : Event) (m : Io) (c : FdContext)
    → Balanced m
    → get_elem? (grown fd m.contexts) fd ≡ some c
    → c.events ≡ both
    → (m' : Io) × (cancel_event fd ev m ≡ done true m')
      × (told fd m' ≡ both)
      × (handle_ready fd both false m' ≡ fault)
unfolding cancel_event triger_if
cancel_event-stale fd ev m c b e all =
    let h : has c.events ev ≡ true = registered ev in
    let op = ctl_of (with_bit ev false c.events) in
    let ctl = m.ctl ++ (op, (fd, c.events)) ∷ [] in
    let guard = cancel_guard-registered ev c h in
    let (m', run, fires) =
      triger_if-Fires true fd ev (logged (extended fd m) ctl) c
        (logged-Balanced (extended fd m) ctl (extended-Balanced fd m b)) e (λ x. h) in
    (
      m',
      rw (e, fetch, guard, run) refl,
      ap (told_by no_events fd) fires.log
          ∙ told_by-append no_events c.events fd op m.ctl
          ∙ ap (λ (o : Op). told_as o c.events)
              (cancelled_left ev c.events.has_read c.events.has_write c.events refl refl
                (ap (λ (es : Events). es.has_read) all) (ap (λ (es : Events). es.has_write) all))
          ∙ all,
      handle_ready-fault fd ev m' fires.ctx fires.balanced fires.here
          (other_left ev c fires.ctx all (fires.own ∙ not_kept (has c.events ev)) fires.kept),
    )
  where
    registered : (ev : Event) → has c.events ev ≡ true
    registered on_read = ap (λ (es : Events). es.has_read) all
    registered on_write = ap (λ (es : Events). es.has_write) all

    not_kept : (b : Bool) → (b && false) ≡ false
    not_kept true = refl
    not_kept false = refl
