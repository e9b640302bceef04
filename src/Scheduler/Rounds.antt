-- ===== src/Scheduler/Rounds.antt =====
-- What a round of the loop of `Scheduler::run` keeps (scheduler/scheduler.cpp).
use co_kv.Prelude.{
  ℕ, ◌+◌, ◌-◌, ◌≡◌, refl, ◌∙◌, sym, subst, false, Option, none, some, [], ◌==◌, if◌then◌else◌,
  arith, Bool-cases, inl, inr,
}
use co_kv.Prelude.Run.{Run, done, fault, out_of_fuel}
use co_kv.Selfco.{
  Script, ends, Context, entry, inside, behind, outside, hold, exec, Co, Local, Switch, back,
  thread_exit, no_context, is_exec, is_term, set_state, construct, resuem, set_this, destroy,
}
use co_kv.Selfco.Held.{OnHold, Held, resuem-Held, run_script-Resumes, Resumes-Held, OnHold-resumed}
use co_kv.Scheduler.{Task, Sched}
use co_kv.Scheduler.Queue.{AllTasks}
use co_kv.Scheduler.Loop.{
  World, Round, again, leaves, exits, lost, failed, post, less_active, settle_task, settle_cb,
  release_co, unused_co, settle_idle, after_switch, go_idle, idle_script, resume_idle, run_co,
  with_cb, run_in, run_cb, run_idle, live, run_parts, run_taken, run_round,
}
use co_kv.Scheduler.Counts.{post-SameCounts, Taking, take_task-Taking}

-- No coroutine is in the state TERM, and `cb_co` is empty.
pub record NoTerm (w : World) : Type 0 where
  pub tasks : AllTasks w.sched.tasks
  pub states : (q : ℕ) → is_term (w.local.object q).state ≡ false
  pub cb : w.cb_co ≡ none

-- A round that goes on keeps this, and the counts of threads; no round leaves by the `break`, and none
-- fails an assertion.
abbrev pub Fine : Sched → Round → Type 0
Fine s (again w) =
    NoTerm w × (w.sched.active_threads ≡ s.active_threads) × (w.sched.idle_threads ≡ s.idle_threads)
Fine s (leaves w) = ⊥
Fine s (exits s') = Unit
Fine s lost = Unit
Fine s failed = ⊥

abbrev States : Local Task → Type 0
States l = (q : ℕ) → is_term (l.object q).state ≡ false

put-States :
    (p : ℕ) (c : Co Task) (l : Local Task)
    → States l
    → is_term c.state ≡ false
    → (q : ℕ) → is_term (if q == p then c else l.object q).state ≡ false
put-States p c l h k q = elim (Bool-cases (q == p)) [ inl e ↦ rw e k | inr e ↦ rw e (h q) ]

OnHold-States : {p : ℕ} {l l' : Local Task} → OnHold p l l' → States l → States l'
OnHold-States {p} {l} {l'} h k q = elim (Bool-cases (q == p)) [
  | inl e ↦
      let f : q ≡ p = ground (arith, e) in
      subst (λ j. is_term (l'.object j).state ≡ false) (sym f) (rw h.state refl)
  | inr e ↦ rw (h.others q (λ f. ground (arith, e, f))) (k q)
]

-- A switch that comes back on hold is settled by one of these.
abbrev Settles : (World → World) → ℕ → Type 0
Settles settle p =
    (w : World)
    → (w.local.object p).state ≡ hold
    → AllTasks w.sched.tasks
    → States w.local
    → (w.cb_co ≡ none)
    → Fine w.sched (again (settle w))

-- The destruction of a coroutine that nothing holds.
release_co-Fine :
    (c : ℕ) (s : Sched) (w : World) → Fine s (again w) → Fine s (again (release_co c w))
unfolding release_co destroy set_this
release_co-Fine c s w (n, active, idle) = elim (Bool-cases (unused_co c w)) [
  | inl e ↦ elim (Bool-cases ((w.local.object c).stack_size == 0)) [
    | inl z ↦ rw (e, z) (record { tasks = n.tasks; states = n.states; cb = n.cb }, active, idle)
    | inr z ↦ rw (e, z) (record { tasks = n.tasks; states = n.states; cb = n.cb }, active, idle)
  ]
  | inr e ↦ rw e (n, active, idle)
]

module _ (p : ℕ) where
  -- The world behind `setState(HOLD)`.
  abbrev on_hold : World → World
  on_hold w = record w { local = set_state p hold w.local; cb_co = none }

  on_hold-Fine :
      (w : World) → AllTasks w.sched.tasks → States w.local → Fine w.sched (again (on_hold w))
  on_hold-Fine w ts st = (
    record {
      tasks = ts;
      states = put-States p (record (w.local.object p) { state = hold }) w.local st refl;
      cb = refl;
    },
    refl,
    refl,
  )

  settle_task-Settles : Settles (settle_task p) p
  settle_task-Settles w e ts st cb = rw e (
      release_co-Fine p w.sched (record w { local = set_state p hold w.local })
        (
          record {
            tasks = ts;
            states = put-States p (record (w.local.object p) { state = hold }) w.local st refl;
            cb = cb;
          },
          refl,
          refl,
        ))

  settle_cb-Settles : Settles (settle_cb p) p
  settle_cb-Settles w e ts st cb =
      rw e (release_co-Fine p w.sched (on_hold w) (on_hold-Fine w ts st))

settle_idle-Settles :
    (p : ℕ) (w : World)
    → w.idle_co ≡ p
    → (w.local.object p).state ≡ hold
    → AllTasks w.sched.tasks
    → States w.local
    → (w.cb_co ≡ none)
    → Fine w.sched (again (settle_idle w))
settle_idle-Settles p w i e ts st cb =
    let e' : (w.local.object w.idle_co).state ≡ hold =
      subst (λ q. (w.local.object q).state ≡ hold) (sym i) e in
    rw e' (
      record {
        tasks = ts;
        states =
            put-States w.idle_co (record (w.local.object w.idle_co) { state = hold }) w.local st
              refl;
        cb = cb;
      },
      refl,
      refl,
    )

Fine-again :
    (s s' : Sched) (w : World)
    → s'.active_threads ≡ s.active_threads
    → s'.idle_threads ≡ s.idle_threads
    → Fine s' (again w)
    → Fine s (again w)
Fine-again s s' w a i (n, b, c) = (n, b ∙ a, c ∙ i)

-- The counts of `s'` with what the round adds to them taken off are those of `s`.
record Counted (count : Sched → Sched) (s' s : Sched) : Type 0 where
  tasks : (t : Sched) → AllTasks t.tasks → AllTasks (count t).tasks
  active :
      (t : Sched)
      → t.active_threads ≡ s'.active_threads
      → (count t).active_threads ≡ s.active_threads
  idle : (t : Sched) → t.idle_threads ≡ s'.idle_threads → (count t).idle_threads ≡ s.idle_threads

after_switch-Fine :
    (p : ℕ) (l : Local Task) (r : Switch Task) (w : World) (count : Sched → Sched)
    (settle : World → World) (s : Sched)
    → Held p l r
    → States l
    → AllTasks w.sched.tasks
    → Counted count w.sched s
    → ((s' : Sched) (l' : Local Task)
        → (l'.object p).state ≡ hold
        → AllTasks s'.tasks
        → States l'
        → Fine s' (again (settle (record w { sched = s'; local = l' }))))
    → Fine s (after_switch r w count settle)
after_switch-Fine p l (back ts l') w count settle s h st tasks c f =
    let k = post-SameCounts ts w.sched in
    let s' = count (post ts w.sched) in
    Fine-again s s' (settle (record w { sched = s'; local = l' })) (c.active _ k.active)
      (c.idle _ k.idle) (f s' l' h.state (c.tasks _ (k.tasks tasks)) (OnHold-States h st))
after_switch-Fine p l thread_exit w count settle s h st tasks c f = tt
after_switch-Fine p l no_context w count settle s h st tasks c f = tt

less_active-Counted :
    (s' s : Sched)
    → s'.active_threads ≡ s.active_threads + 1
    → s'.idle_threads ≡ s.idle_threads
    → Counted less_active s' s
less_active-Counted s' s a i = record {
  tasks = λ t h. h;
  active = λ t e. omega (arith, e, a);
  idle = λ t e. e ∙ i;
}

module _ (program : ℕ → Script Task) (s : Sched) (w : World) (n : NoTerm w)
    (active : w.sched.active_threads ≡ s.active_threads + 1)
    (idle : w.sched.idle_threads ≡ s.idle_threads) where
  run_co-Fine : (c : ℕ) → Fine s (run_co program c w)
  unfolding run_co
  run_co-Fine c =
      after_switch-Fine c w.local (resuem program c w.local) w less_active (settle_task c) s
        (resuem-Held program c w.local) n.states n.tasks (less_active-Counted w.sched s active idle)
        (λ s' l' e ts st. settle_task-Settles c (record w { sched = s'; local = l' }) e ts st n.cb)

  run_cb-Fine : (fresh f : ℕ) → Fine s (run_cb program fresh f w)
  unfolding run_cb run_in construct
  run_cb-Fine fresh f =
      let l : Local Task = construct fresh (some f) 0 w.local in
      let st : States l = put-States fresh _ w.local n.states refl in
      subst (λ (o : Option ℕ). Fine s (run_in program (with_cb fresh o f w.local) w)) (sym n.cb)
        (after_switch-Fine fresh l (resuem program fresh l) (record w { local = l }) less_active
          (settle_cb fresh) s (resuem-Held program fresh l) st n.tasks
          (less_active-Counted w.sched s active idle)
          (λ s' l' e ts st'.
            settle_cb-Settles fresh (record w { sched = s'; local = l' }) e ts st' n.cb))

  run_parts-Fine : (fresh : ℕ) (c cb : Option ℕ) → Fine s (run_parts program fresh c cb w)
  run_parts-Fine fresh (some c) cb = run_co-Fine c
  run_parts-Fine fresh none (some f) = run_cb-Fine fresh f
  run_parts-Fine fresh none none =
      (record { tasks = n.tasks; states = n.states; cb = n.cb }, omega (arith, active), idle)

-- The posts of coroutines play no part where `idle` is resumed.
abbrev silent : ℕ → Script Task
silent _ = ends []

go_idle-Held : (s : Sched) (k : Context Task) (l : Local Task) → Held l.co l (go_idle l.co s k l)
go_idle-Held s entry l =
    Resumes-Held silent l.co l _ _ (run_script-Resumes silent (idle_script s) l)
go_idle-Held s (inside _) l =
    Resumes-Held silent l.co l _ _ (run_script-Resumes silent (idle_script s) l)
go_idle-Held s behind l = tt
go_idle-Held s outside l = tt

Held-resumed :
    (p : ℕ) (l : Local Task) (r : Switch Task)
    → Held p (set_state p exec (set_this p l)) r
    → Held p l r
Held-resumed p l (back ts l') h = OnHold-resumed silent p l l' h
Held-resumed p l thread_exit h = tt
Held-resumed p l no_context h = tt

resume_idle-Held : (p : ℕ) (s : Sched) (l : Local Task) → Held p l (resume_idle p s l)
unfolding resume_idle set_this
resume_idle-Held p s l =
    Held-resumed p l _ (go_idle-Held s (l.object p).ctx (set_state p exec (set_this p l)))

run_idle-Fine : (w : World) → NoTerm w → Fine w.sched (run_idle w)
unfolding run_idle
run_idle-Fine w n =
    let s = record w.sched { idle_threads = w.sched.idle_threads + 1 } in
    rw (n.states w.idle_co) (
      after_switch-Fine w.idle_co w.local (resume_idle w.idle_co s w.local) (record w { sched = s })
        (λ s. record s { idle_threads = s.idle_threads - 1 }) settle_idle w.sched
        (resume_idle-Held w.idle_co s w.local) n.states n.tasks
        (record { tasks = λ t h. h; active = λ t e. e; idle = λ t e. omega (arith, e) })
        (λ s' l' e ts st.
          settle_idle-Settles w.idle_co (record w { sched = s'; local = l' }) refl e ts st n.cb))

Fine-counts :
    (s s' : Sched) (r : Round)
    → s'.active_threads ≡ s.active_threads
    → s'.idle_threads ≡ s.idle_threads
    → Fine s' r
    → Fine s r
Fine-counts s s' (again w) a i h = Fine-again s s' w a i h
Fine-counts s s' (leaves w) a i h = h
Fine-counts s s' (exits s₁) a i h = tt
Fine-counts s s' lost a i h = tt
Fine-counts s s' failed a i h = h

module _ (program : ℕ → Script Task) where
  run_taken-Fine :
      (fresh : ℕ) (w : World) (r : Run Sched (Option Task))
      → NoTerm w
      → Taking w.sched r
      → Fine w.sched (run_taken program fresh w r)
  run_taken-Fine fresh w (done none s) n t =
      Fine-counts w.sched s (run_idle (record w { sched = s })) (omega (arith, t.active)) t.idle (
        run_idle-Fine (record w { sched = s })
          (record { tasks = t.tasks; states = n.states; cb = n.cb }))
  run_taken-Fine fresh w (done (some task) s) n t =
      run_parts-Fine program w.sched (record w { sched = s })
        (record { tasks = t.tasks; states = n.states; cb = n.cb }) t.active t.idle fresh
        (live task.selfco w.local) task.cb
  run_taken-Fine fresh w fault n t = t
  run_taken-Fine fresh w out_of_fuel n t = t

  -- In a round of `run` from a state in which only tasks are queued, no coroutine is in the state TERM
  -- and `cb_co` is empty, no assertion fails and the loop does not leave by its `break`. Where the round
  -- comes to its end, the next begins in such a state, with the counts of active and of idle threads
  -- that this one began with.
  pub run_round-Fine :
      (thread fresh : ℕ) (w : World) → NoTerm w → Fine w.sched (run_round program thread fresh w)
  unfolding run_round
  run_round-Fine thread fresh w n =
      run_taken-Fine fresh w _ n
        (take_task-Taking (λ c. is_exec (w.local.object c).state) thread w.sched n.tasks)
