-- ===== src/Hook/Woken.antt =====
-- The wait in `io_func` of hook/hook.cpp, from its start to what wakes its coroutine.
use co_kv.Prelude.{
  ℕ, ◌+◌, ◌^◌, ◌≡◌, ◌<◌, refl, ◌∙◌, ap, subst, true, false, not, is_some, Option, none, some, List,
  [], ◌∷◌, ◌++◌, get_elem?, set, get_elem?-set_self, if◌then◌else◌,
}
use co_kv.Prelude.Run.{done, fault}
use co_kv.IoManager.{
  Event, on_read, on_write, FdContext, Io, has, with_bit, get_event_context, put_event_context,
  grown, add_event, handle_ready, ctl_mod, ctl_add, some_event, inc,
}
use co_kv.IoManager.Contexts.{Balanced, get-All, grown-All, at_side}
use co_kv.IoManager.Balance.{Ends, Side-blank, add_event-Balanced, cancel_event-fault}
use co_kv.IoManager.Trigger.{get_elem?-inside}
use co_kv.IoManager.Idle.{Poller}
use co_kv.Hook.{millis, overflows}
use co_kv.Hook.Suspend.{WaitCall, timer_in, make_timer, begin_wait, timer_callback}
use co_kv.Hook.Ready.{Waits, only, grown-inside, handle_ready-Woken, WakesOnce, Waits-WakesOnce}

-- The context in which `addEvent` leaves the descriptor.
abbrev added : WaitCall → FdContext → FdContext
added w c =
    put_event_context w.event (record { scheduler = some w.scheduler; cb = none; co = some w.co })
      (record c { fd = w.fd; events = with_bit w.event true c.events })

added-has :
    (w : WaitCall) (ev : Event) (c : FdContext)
    → w.event ≡ ev
    → has (added w c).events w.event ≡ true
added-has w on_read c e = rw e refl
added-has w on_write c e = rw e refl

added-who :
    (w : WaitCall) (ev : Event) (c : FdContext)
    → w.event ≡ ev
    → get_event_context w.event (added w c)
      ≡ record { scheduler = some w.scheduler; co = some w.co; cb = none }
added-who w on_read c e = rw e refl
added-who w on_write c e = rw e refl

-- `addEvent` for the wait.
add_event-Waits :
    (w : WaitCall) (m : Io) (c : FdContext)
    → Balanced m
    → get_elem? (grown w.fd m.contexts) w.fd ≡ some c
    → has c.events w.event ≡ false
    → m.pending_event_count + 1 < 2 ^ 64
    → (m' : Io) × (add_event true w.scheduler w.co w.fd w.event none m ≡ done true m')
      × Balanced m'
      × Waits w m'
      × (m'.tasks ≡ m.tasks)
add_event-Waits w m c b e h room =
    let cs = grown w.fd m.contexts in
    let old = get-All cs w.fd c (grown-All w.fd m.contexts b.each) e in
    let empty =
      Side-blank (has c.events w.event) (get_event_context w.event c) (at_side w.event c old) h in
    let events = with_bit w.event true c.events in
    let m' : Io = record m {
      contexts = set cs w.fd (added w c);
      ctl = m.ctl ++ (if some_event c.events then ctl_mod else ctl_add, (w.fd, events)) ∷ [];
      pending_event_count = inc m.pending_event_count;
    } in
    let run : add_event true w.scheduler w.co w.fd w.event none m ≡ done true m' =
      unfold add_event in rw (e, h, empty) refl in
    let ends =
      subst (Ends true) run
        (add_event-Balanced w.scheduler w.co w.fd w.event none m c b e h room) in
    (
      m',
      run,
      ends.1,
      record {
        ctx = added w c;
        here = get_elem?-set_self cs w.fd (added w c) (get_elem?-inside cs w.fd c e);
        registered = added-has w w.event c refl;
        who = added-who w w.event c refl;
      },
      refl,
    )

make_timer-made :
    (now : ℕ) (w : WaitCall) (to : Option ℕ) (p : Poller)
    → overflows to ≡ false
    → (q : Poller) × (make_timer now w to p ≡ done tt q) × (q.io ≡ p.io)
make_timer-made now w none p h = (p, refl, refl)
make_timer-made now w (some to) p h = by_time (millis to) h
  where
    by_time :
        (o : Option ℕ)
        → not (is_some o) ≡ false
        → (q : Poller) × (timer_in now w o p ≡ done tt q) × (q.io ≡ p.io)
    by_time none h = cc
    by_time (some ms) h = (_, refl, refl)

-- Where the count of pending events is right and has room, `epoll_ctl` succeeds, nothing waits for the event and
-- the timeout in milliseconds does not overflow an int, the call comes to its `yieldtohold` with its timer
-- made, its coroutine registered for the event and no task queued; the report of the event and the callback
-- of the timer each queue the coroutine once, and behind either of them a report does not queue it again.
pub begin_wait-WakesOnce :
    (now : ℕ) (w : WaitCall) (p : Poller) (c : FdContext)
    → Balanced p.io
    → get_elem? (grown w.fd p.io.contexts) w.fd ≡ some c
    → has c.events w.event ≡ false
    → p.io.pending_event_count + 1 < 2 ^ 64
    → overflows w.to ≡ false
    → (p' : Poller) × (begin_wait now true w p ≡ done none p')
      × Balanced p'.io
      × WakesOnce w p'.io
      × (p'.io.tasks ≡ p.io.tasks)
      × (q : Poller) × (make_timer now w w.to p ≡ done tt q)
      × (p'.timers ≡ q.timers)
unfolding begin_wait
begin_wait-WakesOnce now w p c b e h room fits =
    let (q, made, same) = make_timer-made now w w.to p fits in
    let (m', run, b', waits, tasks) = add_event-Waits w p.io c b e h room in
    (
      record q { io = m' },
      rw (made, same, run) refl,
      b',
      Waits-WakesOnce w m' b' waits,
      tasks,
      q,
      made,
      refl,
    )

-- Where a coroutine waits to write and a report of the event comes before the callback of its timer runs,
-- that callback reads a null scheduler.
pub late_callback-fault :
    (w : WaitCall) (p : Poller)
    → Balanced p.io
    → Waits w p.io
    → w.event ≡ on_write
    → (m' : Io) × (handle_ready w.fd (only w.event) false p.io ≡ done tt m')
      × (timer_callback w (record p { io = m' }) ≡ fault)
unfolding timer_callback
late_callback-fault w p b h e =
    let (m', run, woken) = handle_ready-Woken w w.event p.io refl b h in
    let (c, here, gone) = woken.gone in
    let there : get_elem? (grown w.fd m'.contexts) w.fd ≡ some c =
      ap (λ (cs : List FdContext). get_elem? cs w.fd) (grown-inside w.fd m'.contexts c here)
      ∙ here in
    (m', run, rw (cancel_event-fault w.fd w.event m' c woken.balanced there gone (rw e refl)) refl)
