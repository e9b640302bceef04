-- ===== src/IoManager/Trigger.antt =====
-- `cancelAll` and the ready events of iomananger/iomanager.cpp, which trigger one event or two.
use co_kv.Prelude.{
  ℕ, zero, suc, ◌<◌, ◌≡◌, ◌≢◌, refl, ◌∙◌, ap, sym, Bool, true, false, not, ◌&&◌, ◌||◌, Option, none,
  some, List, [], ◌∷◌, ◌++◌, length, get_elem?, set, get_elem?-set_self, get_elem?-set_ne,
  Bool-cases, inl, inr, arith, if◌then◌else◌, append_nil,
}
use co_kv.Prelude.Run.{done}
use co_kv.IoManager.{
  Event, on_read, on_write, Events, EventContext, FdContext, Io, Task, calls, resumes, posted, has,
  with_bit, get_event_context, blank, put_event_context, grown, fetch, triger_at, triger_if,
  cancel_all, handle_ready, some_event, ctl_del, ctl_of, Op, dec,
}
use co_kv.IoManager.Contexts.{Balanced, get-All, triger_event-Without}
use co_kv.IoManager.Balance.{drop-Balanced, extended, extended-Balanced}

abbrev pub other : Event → Event
other on_read = on_write
other on_write = on_read

pub get_elem?-inside :
    (cs : List FdContext) (i : ℕ) (c : FdContext) → get_elem? cs i ≡ some c → i < length cs
get_elem?-inside [] i c e = cc
get_elem?-inside (x ∷ xs) zero c e = omega arith
get_elem?-inside (x ∷ xs) (suc i) c e = omega (arith, get_elem?-inside xs i c e)

-- What waits on one side of a context: a function if there is one, else a coroutine, for its scheduler.
abbrev waiter : Option ℕ → Option ℕ → Option ℕ → List (ℕ × Task)
waiter none cb co = []
waiter (some s) (some f) co = (s, calls f) ∷ []
waiter (some s) none (some c) = (s, resumes c) ∷ []
waiter (some s) none none = []

abbrev pub waiting : EventContext → List (ℕ × Task)
waiting x = waiter x.scheduler x.cb x.co

abbrev pub waiting_if : Bool → EventContext → List (ℕ × Task)
waiting_if b x = if b then waiting x else []

posted-waiting : (s : ℕ) (x : EventContext) → x.scheduler ≡ some s → posted s x.cb x.co ≡ waiting x
posted-waiting s x e = by_sides x.cb x.co ∙ ap (λ (o : Option ℕ). waiter o x.cb x.co) (sym e)
  where
    by_sides : (cb co : Option ℕ) → posted s cb co ≡ waiter (some s) cb co
    by_sides none none = refl
    by_sides none (some c) = refl
    by_sides (some f) co = refl

pub has-cleared :
    (ev : Event) (c : FdContext)
    → has (put_event_context ev blank (record c { events = with_bit ev false c.events })).events ev
      ≡ false
has-cleared on_read c = refl
has-cleared on_write c = refl

has-other :
    (ev : Event) (c : FdContext)
    → has
        (put_event_context ev blank (record c { events = with_bit ev false c.events })).events
        (other ev)
      ≡ has c.events (other ev)
has-other on_read c = refl
has-other on_write c = refl

side-other :
    (ev : Event) (c : FdContext)
    → get_event_context
        (other ev)
        (put_event_context ev blank (record c { events = with_bit ev false c.events }))
      ≡ get_event_context (other ev) c
side-other on_read c = refl
side-other on_write c = refl

-- The event is triggered where `b` says so: what waits for it is given to its scheduler, the other event and
-- the other contexts are as they were, and the count is right.
pub record Fires (fd : ℕ) (ev : Event) (b : Bool) (c : FdContext) (m m' : Io) : Type 0 where
  pub balanced : Balanced m'
  pub ctx : FdContext
  pub here : get_elem? m'.contexts fd ≡ some ctx
  pub own : has ctx.events ev ≡ (has c.events ev && not b)
  pub kept : has ctx.events (other ev) ≡ has c.events (other ev)
  pub other_side : get_event_context (other ev) ctx ≡ get_event_context (other ev) c
  pub tasks : m'.tasks ≡ m.tasks ++ waiting_if b (get_event_context ev c)
  pub others : (q : ℕ) → q ≢ fd → get_elem? m'.contexts q ≡ get_elem? m.contexts q
  pub log : m'.ctl ≡ m.ctl

and_true : (b : Bool) → b ≡ (b && true)
and_true true = refl
and_true false = refl

and_false : (b : Bool) → false ≡ (b && false)
and_false true = refl
and_false false = refl

pub triger_if-Fires :
    (b : Bool) (fd : ℕ) (ev : Event) (m : Io) (c : FdContext)
    → Balanced m
    → get_elem? m.contexts fd ≡ some c
    → (b ≡ true → has c.events ev ≡ true)
    → (m' : Io) × (triger_if b fd ev m ≡ done tt m') × Fires fd ev b c m m'
unfolding triger_if triger_at
triger_if-Fires true fd ev m c h e f =
    let (s, sched, run) = triger_event-Without ev c (get-All m.contexts fd c h.each e) (f refl) in
    let (each, count) = drop-Balanced fd ev h e (f refl) in
    let c' = put_event_context ev blank (record c { events = with_bit ev false c.events }) in
    let x = get_event_context ev c in
    (
      record m {
        contexts = set m.contexts fd c';
        tasks = m.tasks ++ posted s x.cb x.co;
        pending_event_count = dec m.pending_event_count;
      },
      rw (e, fetch, run) refl,
      record {
        balanced = record { each = each; count = count };
        ctx = c';
        here = get_elem?-set_self m.contexts fd _ (get_elem?-inside m.contexts fd c e);
        own = has-cleared ev c ∙ and_false (has c.events ev);
        kept = has-other ev c;
        other_side = side-other ev c;
        tasks =
            ap (λ (ts : List (ℕ × Task)). m.tasks ++ ts)
              (posted-waiting s (get_event_context ev c) sched);
        others = λ q ne. get_elem?-set_ne m.contexts fd q _ (λ e. ne (sym e));
        log = refl;
      },
    )
triger_if-Fires false fd ev m c h e f = (
  m,
  refl,
  record {
    balanced = h;
    ctx = c;
    here = e;
    own = and_true (has c.events ev);
    kept = refl;
    other_side = refl;
    tasks = sym (append_nil m.tasks);
    others = λ q ne. refl;
    log = refl;
  },
)

-- Both events of a descriptor are triggered, each where its Boolean says so.
pub record FiresBoth (fd : ℕ) (r w : Bool) (c : FdContext) (m m' : Io) : Type 0 where
  pub balanced : Balanced m'
  pub ctx : FdContext
  pub here : get_elem? m'.contexts fd ≡ some ctx
  pub read_left : ctx.events.has_read ≡ (c.events.has_read && not r)
  pub write_left : ctx.events.has_write ≡ (c.events.has_write && not w)
  pub tasks : m'.tasks ≡ m.tasks ++ waiting_if r c.read ++ waiting_if w c.write
  pub others : (q : ℕ) → q ≢ fd → get_elem? m'.contexts q ≡ get_elem? m.contexts q

both-Fires :
    (fd : ℕ) (r w : Bool) (m : Io) (c : FdContext)
    → Balanced m
    → get_elem? m.contexts fd ≡ some c
    → (r ≡ true → c.events.has_read ≡ true)
    → (w ≡ true → c.events.has_write ≡ true)
    → (m₁ m₂ : Io) × (triger_if r fd on_read m ≡ done tt m₁)
      × (triger_if w fd on_write m₁ ≡ done tt m₂)
      × FiresBoth fd r w c m m₂
both-Fires fd r w m c h e f g =
    let (m₁, run₁, a) = triger_if-Fires r fd on_read m c h e f in
    let (m₂, run₂, b) =
      triger_if-Fires w fd on_write m₁ a.ctx a.balanced a.here (λ x. a.kept ∙ g x) in
    (
      m₁,
      m₂,
      run₁,
      run₂,
      record {
        balanced = b.balanced;
        ctx = b.ctx;
        here = b.here;
        read_left = b.kept ∙ a.own;
        write_left = b.own ∙ ap (λ (x : Bool). x && not w) a.kept;
        tasks =
            b.tasks
            ∙ ap (λ (x : EventContext). m₁.tasks ++ waiting_if w x) a.other_side
            ∙ ap (λ (ts : List (ℕ × Task)). ts ++ waiting_if w c.write) a.tasks;
        others = λ q ne. b.others q ne ∙ a.others q ne;
      },
    )

nothing-FiresBoth :
    (fd : ℕ) (r w : Bool) (m : Io) (c : FdContext)
    → Balanced m
    → get_elem? m.contexts fd ≡ some c
    → r ≡ false
    → w ≡ false
    → FiresBoth fd r w c m m
nothing-FiresBoth fd r w m c h e no_read no_write =
    rw (no_read, no_write)
      (record {
        balanced = h;
        ctx = c;
        here = e;
        read_left = and_true c.events.has_read;
        write_left = and_true c.events.has_write;
        tasks = sym (append_nil (m.tasks ++ []) ∙ append_nil m.tasks);
        others = λ q ne. refl;
      })

-- The calls of `epoll_ctl` are of no account here.
abbrev pub logged : Io → List (Op × (ℕ × Events)) → Io
logged m ctl = record m { ctl = ctl }

pub logged-Balanced :
    (m : Io) (ctl : List (Op × (ℕ × Events))) → Balanced m → Balanced (logged m ctl)
logged-Balanced m ctl b = record { each = b.each; count = b.count }

unlogged-FiresBoth :
    (fd : ℕ) (r w : Bool) (c : FdContext) (m m' : Io) (ctl : List (Op × (ℕ × Events)))
    → FiresBoth fd r w c (logged m ctl) m'
    → FiresBoth fd r w c m m'
unlogged-FiresBoth fd r w c m m' ctl f = record {
  balanced = f.balanced;
  ctx = f.ctx;
  here = f.here;
  read_left = f.read_left;
  write_left = f.write_left;
  tasks = f.tasks;
  others = f.others;
}

-- Where the count of pending events is right, `cancelAll` reports whether anything was registered, and
-- triggers each registered event without a bad read.
pub cancel_all-Fires :
    (fd : ℕ) (m : Io) (c : FdContext)
    → Balanced m
    → get_elem? (grown fd m.contexts) fd ≡ some c
    → (m' : Io) × (cancel_all fd m ≡ done (some_event c.events) m')
      × FiresBoth fd c.events.has_read c.events.has_write c (extended fd m) m'
unfolding cancel_all
cancel_all-Fires fd m c h e =
    let h' = extended-Balanced fd m h in
    let ctl = m.ctl ++ (ctl_del, (fd, record { has_read = false; has_write = false })) ∷ [] in
    elim (Bool-cases (some_event c.events)) [
      | inl k ↦
          let (m₁, m₂, run₁, run₂, fires) =
            both-Fires fd c.events.has_read c.events.has_write (logged (extended fd m) ctl) c
              (logged-Balanced (extended fd m) ctl h') e (λ x. x) (λ x. x) in
          (m₂, rw (e, fetch, k, run₁, run₂) refl, unlogged-FiresBoth fd _ _ c _ m₂ ctl fires)
      | inr k ↦ (
        extended fd m,
        rw (e, fetch, k) refl,
        nothing-FiresBoth fd c.events.has_read c.events.has_write (extended fd m) c h' e
            (ground (arith, k)) (ground (arith, k)),
      )
    ]

-- The read event that a report stands for: EPOLLERR and EPOLLHUP count as one, where it is registered.
abbrev pub reads : Events → Bool → FdContext → Bool
reads ready failed c = ready.has_read || (failed && c.events.has_read)

-- Where the count of pending events is right and a ready descriptor reports only events that are
-- registered, its events are triggered without a bad read.
pub handle_ready-Fires :
    (fd : ℕ) (ready : Events) (failed : Bool) (m : Io) (c : FdContext)
    → Balanced m
    → get_elem? m.contexts fd ≡ some c
    → (ready.has_read ≡ true → c.events.has_read ≡ true)
    → (ready.has_write ≡ true → c.events.has_write ≡ true)
    → (m' : Io) × (handle_ready fd ready failed m ≡ done tt m')
      × FiresBoth fd (reads ready failed c) ready.has_write c m m'
unfolding handle_ready
handle_ready-Fires fd ready failed m c h e asks_read asks_write =
    let read = reads ready failed c in
    let hit = (c.events.has_read && read) || (c.events.has_write && ready.has_write) in
    let left : Events = record {
      has_read = c.events.has_read && not read;
      has_write = c.events.has_write && not ready.has_write;
    } in
    let ctl = m.ctl ++ (ctl_of left, (c.fd, left)) ∷ [] in
    let asks : read ≡ true → c.events.has_read ≡ true =
      registered ready.has_read failed c.events.has_read asks_read in
    elim (Bool-cases hit) [
      | inl k ↦
          let (m₁, m₂, run₁, run₂, fires) =
            both-Fires fd read ready.has_write (logged m ctl) c (logged-Balanced m ctl h) e asks
              asks_write in
          (m₂, rw (e, fetch, k, run₁, run₂) refl, unlogged-FiresBoth fd _ _ c m m₂ ctl fires)
      | inr k ↦ (
        m,
        rw (e, fetch, k) refl,
        nothing-FiresBoth fd read ready.has_write m c h e
            (missed c.events.has_read read asks (ground (arith, k)))
            (missed c.events.has_write ready.has_write asks_write (ground (arith, k))),
      )
    ]
  where
    registered : (r f b : Bool) → (r ≡ true → b ≡ true) → r || (f && b) ≡ true → b ≡ true
    registered true f b g x = g refl
    registered false true b g x = x
    registered false false b g x = cc

    missed : (b r : Bool) → (r ≡ true → b ≡ true) → (b && r) ≡ false → r ≡ false
    missed b false g k = refl
    missed true true g k = k
    missed false true g k = sym (g refl)
