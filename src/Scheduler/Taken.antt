-- ===== src/Scheduler/Taken.antt =====
-- What a round of `Scheduler::run` does with a callback that it takes (scheduler/scheduler.cpp).
use co_kv.Prelude.{
  ℕ, ◌≡◌, ◌≢◌, refl, sym, ◌∙◌, ap, subst, true, false, Bool, Option, none, some, List, [], ◌∷◌,
  ◌++◌, ◌==◌, ==_refl, if◌then◌else◌, arith, append_nil, append_assoc, ◌+◌, ◌-◌, ◌&&◌, ◌||◌, not,
  Bool-cases, inl, inr,
}
use co_kv.Prelude.Run.{done}
use co_kv.Selfco.{
  Script, hold, outside, Co, Local, Switch, construct, destroy, set_this, set_state, is_behind,
  is_exec, resuem,
}
use co_kv.Selfco.Held.{
  is_nil, is_nil-remaining, OnHold, segments, remaining, Resumes, resuem-Resumes,
}
use co_kv.Scheduler.{Task, Sched, add_task, add_task_no_lock, is_task, tickle_if, take_task}
use co_kv.Scheduler.Loop.{
  World, again, queue_holds, unused_co, release_co, post, less_active, settle_cb, after_switch,
  run_cb, with_cb, run_in, run_taken, run_round,
}

-- The tasks among these; the others are not queued.
abbrev pub queued : List Task → List Task
queued [] = []
queued (t ∷ ts) = if is_task t then t ∷ queued ts else queued ts

pub tickle_if-tasks : (b : Bool) (s : Sched) → (tickle_if b s).tasks ≡ s.tasks
tickle_if-tasks true s = refl
tickle_if-tasks false s = refl

pub add_task-queued : (t : Task) (s : Sched) → (add_task t s).tasks ≡ s.tasks ++ queued (t ∷ [])
unfolding add_task add_task_no_lock
add_task-queued t s = tickle_if-tasks _ _ ∙ by_kind (is_task t)
  where
    by_kind :
        (b : Bool)
        → (if b then s.tasks ++ t ∷ [] else s.tasks) ≡ s.tasks ++ (if b then t ∷ [] else [])
    by_kind true = refl
    by_kind false = sym (append_nil s.tasks)

pub queued-cons : (t : Task) (ts : List Task) → queued (t ∷ []) ++ queued ts ≡ queued (t ∷ ts)
queued-cons t ts = by_kind (is_task t)
  where
    by_kind :
        (b : Bool)
        → (if b then t ∷ [] else []) ++ queued ts ≡ (if b then t ∷ queued ts else queued ts)
    by_kind true = refl
    by_kind false = refl

post-queued : (ts : List Task) (s : Sched) → (post ts s).tasks ≡ s.tasks ++ queued ts
unfolding post
post-queued [] s = sym (append_nil s.tasks)
post-queued (t ∷ ts) s =
    post-queued ts (add_task t s)
    ∙ ap (λ (xs : List Task). xs ++ queued ts) (add_task-queued t s)
    ∙ append_assoc s.tasks (queued (t ∷ [])) (queued ts)
    ∙ ap (λ (xs : List Task). s.tasks ++ xs) (queued-cons t ts)

-- What becomes of the coroutine of a callback: it is destroyed, or on hold with the rest to come.
abbrev pub After : (ℕ → Script Task) → ℕ → List (List Task) → Local Task → Bool → Type 0
After program p rest l true = l.freed p ≡ true
After program p rest l false =
    (l.freed p ≡ false)
    × ((l.object p).state ≡ hold)
    × (remaining program (l.object p).ctx (l.object p).cb ≡ rest)

-- The callback has ended, and no task holds its coroutine.
abbrev pub dropped : ℕ → List (List Task) → List Task → Bool
dropped p rest ts = is_nil rest && not (queue_holds p ts)

-- What a round leaves: the posts of the callback are queued behind what was left in the queue, and the
-- coroutine that ran it is destroyed if the callback has ended and no task holds it, and else on hold.
pub record Ran (program : ℕ → Script Task) (fresh : ℕ) (w w' : World) (s : Sched) (ts : List Task)
    (rest : List (List Task)) : Type 0 where
  pub tasks : w'.sched.tasks ≡ s.tasks ++ queued ts
  pub outcome : After program fresh rest w'.local (dropped fresh rest (s.tasks ++ queued ts))
  pub count :
      w'.local.count
      ≡ (if dropped fresh rest (s.tasks ++ queued ts) then w.local.count else w.local.count + 1)
  pub others :
      (q : ℕ)
      → q ≢ fresh
      → (w'.local.object q ≡ w.local.object q) × (w'.local.freed q ≡ w.local.freed q)
  pub kept : w'.cb_co ≡ none
  pub idle : w'.idle_co ≡ w.idle_co

destroy_lem :
    (p : ℕ) (l : Local Task)
    → ((destroy p l).object ≡ l.object)
      × ((destroy p l).freed ≡ (λ q. if q == p then true else l.freed q))
      × ((destroy p l).count ≡ l.count - 1)
unfolding destroy set_this
destroy_lem p l = elim (Bool-cases ((l.object p).stack_size == 0)) [
  | inl z ↦ rw z (refl, refl, refl)
  | inr z ↦ rw z (refl, refl, refl)
]

module _ (program : ℕ → Script Task) (thread fresh f : ℕ) (w : World) where
  -- The coroutine that is made for the callback.
  abbrev made : Local Task
  made = construct fresh (some f) 0 w.local

  made-Resumes : Resumes program fresh made (segments (program f)) (resuem program fresh made)
  unfolding construct
  made-Resumes =
      let e : (fresh == fresh) ≡ true = ==_refl fresh in
      rw e at (resuem-Resumes program fresh made (rw e (λ h. cc)))

  -- The world behind `setState(HOLD)`.
  abbrev on_hold : Sched → List Task → Local Task → World
  on_hold s ts l = record w {
    sched = less_active (post ts s);
    local = set_state fresh hold l;
    cb_co = none;
  }

  unused_co-dropped :
      (s : Sched) (ts : List Task) (rest : List (List Task)) (l : Local Task)
      → w.idle_co ≢ fresh
      → remaining program (l.object fresh).ctx (l.object fresh).cb ≡ rest
      → (l.object fresh).ctx ≢ outside
      → unused_co fresh (on_hold s ts l) ≡ dropped fresh rest (s.tasks ++ queued ts)
  unused_co-dropped s ts rest l apart left inner =
      let e : (fresh == fresh) ≡ true = ==_refl fresh in
      let g : (w.idle_co == fresh) ≡ false = ground (arith, apart) in
      let ended : is_behind (l.object fresh).ctx ≡ is_nil rest =
        sym (is_nil-remaining program (l.object fresh).ctx (l.object fresh).cb inner)
        ∙ ap is_nil left in
      rw (e, g, ended, post-queued ts s)
        (by_held (is_nil rest) (queue_holds fresh (s.tasks ++ queued ts)))
    where
      by_held : (b h : Bool) → (b && not (h || (false || false))) ≡ (b && not h)
      by_held b true = refl
      by_held b false = refl

  -- A coroutine on hold, and one that is destroyed.
  hold-Ran :
      (s : Sched) (ts : List Task) (rest : List (List Task)) (l : Local Task)
      → OnHold fresh made l
      → remaining program (l.object fresh).ctx (l.object fresh).cb ≡ rest
      → dropped fresh rest (s.tasks ++ queued ts) ≡ false
      → Ran program fresh w (on_hold s ts l) s ts rest
  unfolding construct
  hold-Ran s ts rest l on left d =
      let e : (fresh == fresh) ≡ true = ==_refl fresh in
      let was : l.freed fresh ≡ false = ap (λ (g : ℕ → Bool). g fresh) on.freed ∙ rw e refl in
      record {
        tasks = post-queued ts s;
        outcome = rw (d, e) (was, refl, left);
        count = rw d on.count;
        others = λ q ne.
            (let g : (q == fresh) ≡ false = ground (arith, ne) in
              rw g (on.others q ne ∙ rw g refl, ap (λ (k : ℕ → Bool). k q) on.freed ∙ rw g refl));
        kept = refl;
        idle = refl;
      }

  gone-Ran :
      (s : Sched) (ts : List Task) (rest : List (List Task)) (l : Local Task)
      → OnHold fresh made l
      → dropped fresh rest (s.tasks ++ queued ts) ≡ true
      → Ran program fresh w
          (record (on_hold s ts l) { local = destroy fresh (set_state fresh hold l) })
          s
          ts
          rest
  unfolding construct
  gone-Ran s ts rest l on d =
      let e : (fresh == fresh) ≡ true = ==_refl fresh in
      let (objects, freed, count) = destroy_lem fresh (set_state fresh hold l) in
      record {
        tasks = post-queued ts s;
        outcome = rw d (ap (λ (g : ℕ → Bool). g fresh) freed ∙ rw e refl);
        count = rw d (omega (arith, count, on.count));
        others = λ q ne.
            (let g : (q == fresh) ≡ false = ground (arith, ne) in
              (
                ap (λ (k : ℕ → Co Task). k q) objects ∙ rw g (on.others q ne ∙ rw g refl),
                ap (λ (k : ℕ → Bool). k q) freed
                    ∙ rw g (ap (λ (k : ℕ → Bool). k q) on.freed ∙ rw g refl),
              ));
        kept = refl;
        idle = refl;
      }

  back-Ran :
      (s : Sched) (ts : List Task) (rest : List (List Task)) (l : Local Task)
      → w.idle_co ≢ fresh
      → OnHold fresh made l
      → remaining program (l.object fresh).ctx (l.object fresh).cb ≡ rest
      → (l.object fresh).ctx ≢ outside
      → Ran program fresh w
          (settle_cb fresh (record w { sched = less_active (post ts s); local = l }))
          s
          ts
          rest
  unfolding release_co
  back-Ran s ts rest l apart on left inner =
      let same = unused_co-dropped s ts rest l apart left inner in
      elim (Bool-cases (dropped fresh rest (s.tasks ++ queued ts))) [
        | inl d ↦
            let u : unused_co fresh (on_hold s ts l) ≡ true = same ∙ d in
            rw (on.state, u) (gone-Ran s ts rest l on d)
        | inr d ↦
            let u : unused_co fresh (on_hold s ts l) ≡ false = same ∙ d in
            rw (on.state, u) (hold-Ran s ts rest l on left d)
      ]

  -- A round that takes a callback runs it to its first `yieldtohold` or to its end, in a new coroutine at an
  -- address other than that of `idle_co`: what it posts is queued behind the tasks that are left, in its
  -- order, and no other coroutine is touched. If the callback has ended and no task holds the coroutine, it is
  -- destroyed, and the count of coroutines is what it was; else it is on hold with the rest to come.
  pub run_round-Ran :
      (s : Sched) (n : Option ℕ) (ts : List Task) (rest : List (List Task))
      → w.cb_co ≡ none
      → w.idle_co ≢ fresh
      → take_task (λ c. is_exec (w.local.object c).state) thread w.sched
        ≡ done (some (record { cb = some f; selfco = none; thread_num = n })) s
      → segments (program f) ≡ ts ∷ rest
      → (w' : World) × (run_round program thread fresh w ≡ again w')
        × Ran program fresh w w' s ts rest
  unfolding run_round run_cb run_in construct
  run_round-Ran s n ts rest none_kept apart taken posts =
      let (l, run, on, left, inner) =
        subst (λ segs. Resumes program fresh made segs (resuem program fresh made)) posts
          made-Resumes in
      (
        _,
        ap (run_taken program fresh w) taken
            ∙ ap
                (λ (o : Option ℕ).
                  run_in program (with_cb fresh o f w.local) (record w { sched = s }))
                none_kept
            ∙ ap
                (λ (r : Switch Task).
                  after_switch r (record w { sched = s; local = made }) less_active
                    (settle_cb fresh))
                run,
        back-Ran s ts rest l apart on left inner,
      )
