-- ===== src/IoManager/Refused.antt =====
-- `addEvent` of iomananger/iomanager.cpp where `epoll_ctl` fails.
use co_kv.Prelude.{
  ℕ, ◌≡◌, refl, Bool, true, false, Option, none, some, [], ◌∷◌, ◌++◌, length, get_elem?, set,
  get_elem?-set_self, ltb, lt→ltb, is_some, if◌then◌else◌,
}
use co_kv.Prelude.Run.{done, fault}
use co_kv.IoManager.{
  some_event, ctl_mod, ctl_add, Event, on_read, on_write, FdContext, Io, has, with_bit,
  get_event_context, put_event_context, grown, add_event,
}
use co_kv.IoManager.Contexts.{Balanced, get-All, grown-All, at_side}
use co_kv.IoManager.Balance.{Side-blank}
use co_kv.IoManager.Trigger.{get_elem?-inside}

-- The event's bit in the contexts after `addEvent`.
has-put :
    (ev : Event) (fd this : ℕ) (co cb : Option ℕ) (c : FdContext)
    → has
        (put_event_context ev
          (record { scheduler = some this; co = co; cb = cb })
          (record c { fd = fd; events = with_bit ev true c.events })).events
        ev
      ≡ true
has-put on_read fd this co cb c = refl
has-put on_write fd this co cb c = refl

-- An event that is registered is not added again: an assertion fails.
add_event-twice :
    (ok : Bool) (this co fd : ℕ) (ev : Event) (cb : Option ℕ) (m : Io) (c : FdContext)
    → get_elem? m.contexts fd ≡ some c
    → has c.events ev ≡ true
    → add_event ok this co fd ev cb m ≡ fault
unfolding add_event grown
add_event-twice ok this co fd ev cb m c e h =
    let inside : ltb fd (length m.contexts) ≡ true =
      lt→ltb fd (length m.contexts) (get_elem?-inside m.contexts fd c e) in
    rw (inside, e, h) refl

-- Where the count of pending events is right and `epoll_ctl` fails, `addEvent` for an event that is
-- not registered reports the failure and counts nothing, but the next `addEvent` for the same event
-- fails an assertion, whatever `epoll_ctl` would say then.
pub add_event-refused :
    (this co fd : ℕ) (ev : Event) (cb : Option ℕ) (m : Io) (c : FdContext)
    → Balanced m
    → get_elem? (grown fd m.contexts) fd ≡ some c
    → has c.events ev ≡ false
    → (m' : Io) × (add_event false this co fd ev cb m ≡ done false m')
      × (m'.pending_event_count ≡ m.pending_event_count)
      × ((ok : Bool) (this' co' : ℕ) (cb' : Option ℕ) → add_event ok this' co' fd ev cb' m' ≡ fault)
add_event-refused this co fd ev cb m c b e h =
    let cs = grown fd m.contexts in
    let old = get-All cs fd c (grown-All fd m.contexts b.each) e in
    let empty = Side-blank (has c.events ev) (get_event_context ev c) (at_side ev c old) h in
    let c' =
      put_event_context ev
        (record { scheduler = some this; co = if is_some cb then none else some co; cb = cb })
        (record c { fd = fd; events = with_bit ev true c.events }) in
    let m' : Io = record m {
      contexts = set cs fd c';
      ctl =
          m.ctl
          ++ (if some_event c.events then ctl_mod else ctl_add, (fd, with_bit ev true c.events))
            ∷ [];
    } in
    (
      m',
      (unfold add_event in rw (e, h, empty) refl),
      refl,
      λ ok this' co' cb'.
          add_event-twice ok this' co' fd ev cb' m' c'
            (get_elem?-set_self cs fd c' (get_elem?-inside cs fd c e))
            (has-put ev fd this (if is_some cb then none else some co) cb c),
    )
