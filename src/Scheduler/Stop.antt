-- ===== src/Scheduler/Stop.antt =====
-- How the loop of `Scheduler::run` comes to its end (scheduler/scheduler.cpp).
use co_kv.Prelude.{
  ℕ, ◌+◌, ◌-◌, ◌≡◌, ◌≢◌, refl, ◌∙◌, ap, subst, Bool, true, false, none, List, [], ◌∷◌, ◌==◌, arith,
  Bool-cases, inl, inr, ==_refl,
}
use co_kv.Prelude.Run.{done}
use co_kv.Selfco.{
  Script, Context, entry, inside, behind, outside, hold, term, exec, Local, back, is_exec, is_term,
  set_state, set_this, run_script, yield_co, leave_at, put,
}
use co_kv.Scheduler.{Task, Sched, take_task, stopping, pick}
use co_kv.Scheduler.Loop.{
  World, Round, again, exits, post, settle_idle, go_idle, resume_idle, run_idle, run_taken,
  run_round, run_rounds, next_round,
}
use co_kv.Scheduler.Rounds.{NoTerm, Fine, run_round-Fine}

pub stopping-empty : (s : Sched) → stopping s ≡ true → s.tasks ≡ []
unfolding stopping
stopping-empty s h = by_tasks s.tasks refl
  where
    by_tasks : (ts : List Task) → s.tasks ≡ ts → s.tasks ≡ []
    by_tasks [] e = e
    by_tasks (t ∷ ts) e = absurd (ground (arith, e, h))

take_task-stopping :
    (is_exec : ℕ → Bool) (thread : ℕ) (s : Sched)
    → stopping s ≡ true
    → take_task is_exec thread s ≡ done none s
unfolding take_task pick
take_task-stopping is_exec thread s h = let e = stopping-empty s h in ground (arith, e)

-- `idle` has left its loop, and `MainFunc` has switched back.
ended : Local Task → Local Task
ended l =
    yield_co l.co
      (leave_at l.co behind (put l.co (record (l.object l.co) { cb = none; state = term }) l))

go_idle-ended :
    (s : Sched) (k : Context Task) (l : Local Task)
    → stopping s ≡ true
    → k ≢ behind
    → k ≢ outside
    → go_idle l.co s k l ≡ back [] (ended l)
unfolding run_script ended
go_idle-ended s entry l h n m = rw h refl
go_idle-ended s (inside _) l h n m = rw h refl
go_idle-ended s behind l h n m = absurd (n refl)
go_idle-ended s outside l h n m = absurd (m refl)

-- The scheduler is still stopping, and `idle_co` has nothing left to do.
pub record Over (w : World) : Type 0 where
  pub stops : stopping w.sched ≡ true
  pub over : (w.local.object w.idle_co).ctx ≡ behind

ended_lem :
    (l : Local Task)
    → (((ended l).object l.co).state ≡ hold) × (((ended l).object l.co).ctx ≡ behind)
unfolding ended yield_co set_this
ended_lem l = let e : (l.co == l.co) ≡ true = ==_refl l.co in (rw e refl, rw e refl)

settle_idle-pool : (w : World) → (settle_idle w).sched ≡ w.sched
settle_idle-pool w = elim (Bool-cases (is_term (w.local.object w.idle_co).state)) [
  | inl e ↦ rw e refl
  | inr e ↦ rw e refl
]

settle_idle-Over :
    (w : World)
    → stopping w.sched ≡ true
    → (w.local.object w.idle_co).state ≡ hold
    → (w.local.object w.idle_co).ctx ≡ behind
    → Over (settle_idle w)
settle_idle-Over w h st e =
    let f : (w.idle_co == w.idle_co) ≡ true = ==_refl w.idle_co in
    rw st (record { stops = h; over = rw f e })

run_idle-again :
    (w : World)
    → stopping w.sched ≡ true
    → is_term (w.local.object w.idle_co).state ≡ false
    → (w.local.object w.idle_co).ctx ≢ behind
    → (w.local.object w.idle_co).ctx ≢ outside
    → (w' : World) × (run_idle w ≡ again w') × Over w' × (w'.sched.threadpoll ≡ w.sched.threadpoll)
unfolding run_idle resume_idle post set_this stopping
run_idle-again w h st n m =
    let s = record w.sched { idle_threads = w.sched.idle_threads + 1 } in
    let l : Local Task = set_state w.idle_co exec (set_this w.idle_co w.local) in
    let run : go_idle w.idle_co s (w.local.object w.idle_co).ctx l ≡ back [] (ended l) =
      go_idle-ended s (w.local.object w.idle_co).ctx l h n m in
    let w' : World = record w {
      sched = record s { idle_threads = s.idle_threads - 1 };
      local = ended l;
    } in
    let (held, over) = ended_lem l in
    (
      settle_idle w',
      rw (st, run) refl,
      settle_idle-Over w' h held over,
      ap (λ (m : Sched). m.threadpoll) (settle_idle-pool w'),
    )

-- The thread has ended, and left a scheduler that is stopping, with the same pool.
abbrev pub Ends : Sched → Round → Type 0
Ends s r = (m : Sched) × (r ≡ exits m) × (stopping m ≡ true) × (m.threadpoll ≡ s.threadpoll)

run_idle-Ends :
    (w : World)
    → stopping w.sched ≡ true
    → is_term (w.local.object w.idle_co).state ≡ false
    → (w.local.object w.idle_co).ctx ≡ behind
    → Ends w.sched (run_idle w)
unfolding run_idle resume_idle stopping
run_idle-Ends w h st e =
    (record w.sched { idle_threads = w.sched.idle_threads + 1 }, rw (st, e, go_idle) refl, h, refl)

module _ (program : ℕ → Script Task) (thread : ℕ) where
  round-idle :
      (fresh : ℕ) (w : World)
      → stopping w.sched ≡ true
      → run_round program thread fresh w ≡ run_idle w
  unfolding run_round
  round-idle fresh w h =
      ap (run_taken program fresh w)
        (take_task-stopping (λ c. is_exec (w.local.object c).state) thread w.sched h)

  -- When `stopping()` holds, the queue is empty and no thread is active: the loop of a thread then ends
  -- after at most one more full round, by the end of the thread, since nothing follows the last
  -- `yield` of `idle_co`. The `break` is not reached.
  pub run_rounds-Ends :
      (f g : ℕ) (rest : List ℕ) (w : World)
      → NoTerm w
      → stopping w.sched ≡ true
      → (w.local.object w.idle_co).ctx ≢ outside
      → Ends w.sched (run_rounds program thread (f ∷ g ∷ rest) w)
  unfolding run_rounds
  run_rounds-Ends f g rest w n h m = by_context (w.local.object w.idle_co).ctx refl
    where
      last :
          (g : ℕ) (fs : List ℕ) (w : World)
          → NoTerm w
          → Over w
          → Ends w.sched (run_rounds program thread (g ∷ fs) w)
      last g fs w n o =
          let (m, run, stops, pool) = run_idle-Ends w o.stops (n.states w.idle_co) o.over in
          (
            m,
            ap (λ (r : Round). next_round r (run_rounds program thread fs))
                (round-idle g w o.stops ∙ run),
            stops,
            pool,
          )

      two :
          (w' : World)
          → run_idle w ≡ again w'
          → Over w'
          → w'.sched.threadpoll ≡ w.sched.threadpoll
          → Ends w.sched (run_rounds program thread (f ∷ g ∷ rest) w)
      two w' run o same =
          let e = round-idle f w h ∙ run in
          let (n', _, _) = subst (Fine w.sched) e (run_round-Fine program thread f w n) in
          let (m, runs, stops, pool) = last g rest w' n' o in
          (
            m,
            ap (λ (r : Round). next_round r (run_rounds program thread (g ∷ rest))) e ∙ runs,
            stops,
            pool ∙ same,
          )

      by_context :
          (k : Context Task)
          → (w.local.object w.idle_co).ctx ≡ k
          → Ends w.sched (run_rounds program thread (f ∷ g ∷ rest) w)
      by_context behind e = last f (g ∷ rest) w n (record { stops = h; over = e })
      by_context outside e = absurd (m e)
      by_context entry e =
          let (w', run, o, same) = run_idle-again w h (n.states w.idle_co) (λ x. cc) m in
          two w' run o same
      by_context (inside k) e =
          let (w', run, o, same) = run_idle-again w h (n.states w.idle_co) (λ x. cc) m in
          two w' run o same
