-- ===== src/Scheduler/Stopped.antt =====
-- How `Scheduler::stop` comes to its end (scheduler/scheduler.cpp), with the threads that it joins.
use co_kv.Prelude.{
  ℕ, zero, suc, ◌+◌, ◌≡◌, ◌≢◌, refl, ◌∙◌, ap, subst, Bool, true, false, not, ◌&&◌, is_some, none,
  List, [], ◌∷◌, ◌==◌, if◌then◌else◌, arith, Bool-cases, inl, inr, sym, Option, some, ◌++◌, All,
  length, append_nil, append_assoc,
}
use co_kv.Prelude.Run.{done}
use co_kv.Selfco.{Script, outside, is_term}
use co_kv.Scheduler.{Task, Sched, stopping}
use co_kv.Scheduler.Loop.{World, Round, again, leaves, exits, lost, failed, run_rounds}
use co_kv.Scheduler.Queue.{AllTasks}
use co_kv.Scheduler.Control.{
  Owner, Joins, stop, halt, join_all, after_join, resume_self, tickle_times, rests,
}
use co_kv.Scheduler.Stop.{stopping-empty, run_rounds-Ends}

-- A thread of the pool where it is joined: its coroutines and the addresses for its next ones. The scheduler in its
-- world is the one that it finds then.
pub record Worker : Type 0 where
  pub world : World
  pub fresh : List ℕ

abbrev end_of : Round → Option Sched
end_of (again w) = none
end_of (leaves w) = some w.sched
end_of (exits s) = some s
end_of lost = none
end_of failed = none

-- The rest of `run` on a thread: `none` where its rounds do not come to their end.
unfoldable pub run_out : (ℕ → Script Task) → (ℕ → Worker) → Joins
unfolding run_rounds
run_out program worker t s =
    end_of (run_rounds program t (worker t).fresh (record (worker t).world { sched = s }))

-- The thread is between two rounds, with addresses for two more.
pub record Loops (t : Worker) : Type 0 where
  pub first : ℕ
  pub second : ℕ
  pub rest : List ℕ
  pub fresh : t.fresh ≡ first ∷ second ∷ rest
  pub states : (q : ℕ) → is_term (t.world.local.object q).state ≡ false
  pub cb : t.world.cb_co ≡ none
  pub made : (t.world.local.object t.world.idle_co).ctx ≢ outside

stopping-empty_pool : (s : Sched) → stopping (record s { threadpoll = [] }) ≡ stopping s
unfolding stopping
stopping-empty_pool s = refl

run_out-stopping :
    (program : ℕ → Script Task) (worker : ℕ → Worker) (t : ℕ) (s : Sched)
    → Loops (worker t)
    → stopping s ≡ true
    → (m : Sched) × (run_out program worker t s ≡ some m)
      × (stopping m ≡ true)
      × (m.threadpoll ≡ s.threadpoll)
unfolding run_out
run_out-stopping program worker t s k h =
    let none_left : AllTasks s.tasks = rw (stopping-empty s h) tt in
    let (m, run, stops, pool) =
      run_rounds-Ends program t k.first k.second k.rest (record (worker t).world { sched = s })
        (record { tasks = none_left; states = k.states; cb = k.cb }) h k.made in
    (m, rw k.fresh (ap end_of run), stops, pool)

-- What `stop` leaves: the scheduler is stopping, its pool is empty, and these threads have been joined.
pub record Stopped (ts : List ℕ) (s : Owner) : Type 0 where
  pub stops : stopping s.sched ≡ true
  pub pool : s.sched.threadpoll ≡ []
  pub joined : s.joined ≡ ts

module _ (program : ℕ → Script Task) (worker : ℕ → Worker) where
  join_all-Stopped :
      (ts : List ℕ) (s : Owner)
      → All (λ t. Loops (worker t)) ts
      → stopping s.sched ≡ true
      → s.sched.threadpoll ≡ []
      → (s' : Owner) × (join_all (run_out program worker) ts s ≡ done tt s')
        × Stopped (s.joined ++ ts) s'
  unfolding join_all
  join_all-Stopped [] s k h pool =
      (s, refl, record { stops = h; pool = pool; joined = sym (append_nil s.joined) })
  join_all-Stopped (t ∷ ts) s (k, ks) h pool =
      let (m, run, stops, same) = run_out-stopping program worker t s.sched k h in
      let (s', runs, e) =
        join_all-Stopped ts (record s { sched = m; joined = s.joined ++ t ∷ [] }) ks stops
          (same ∙ pool) in
      (
        s',
        ap (after_join t s (join_all (run_out program worker) ts)) run ∙ runs,
        record {
          stops = e.stops;
          pool = e.pool;
          joined = e.joined ∙ append_assoc s.joined (t ∷ []) ts;
        },
      )

-- What `tickle` leaves alone.
tickle_times-kept :
    (n : ℕ) (s : Sched)
    → (stopping (tickle_times n s) ≡ stopping s) × ((tickle_times n s).threadpoll ≡ s.threadpoll)
unfolding tickle_times stopping
tickle_times-kept zero s = (refl, refl)
tickle_times-kept (suc n) s = tickle_times-kept n (record s { tickles = s.tickles + 1 })

resume_self-joined : (s : Owner) → (resume_self s).joined ≡ s.joined
unfolding resume_self
resume_self-joined s = by_co s.scheduler_co refl
  where
    by_co : (o : Option _) → s.scheduler_co ≡ o → (resume_self s).joined ≡ s.joined
    by_co none e = rw (resume_self, e) refl
    by_co (some _) e = rw (resume_self, e) refl

empty-stopping :
    (s : Sched)
    → s.tasks ≡ []
    → s.active_threads ≡ 0
    → stopping (record s { autostop = true; stopping_flag = true }) ≡ true
unfolding stopping
empty-stopping s e a = rw (e, a) refl

halt-Stopped :
    (program : ℕ → Script Task) (worker : ℕ → Worker) (s : Owner)
    → s.sched.tasks ≡ []
    → s.sched.active_threads ≡ 0
    → All (λ t. Loops (worker t)) s.sched.threadpoll
    → (s' : Owner) × (halt (run_out program worker) s ≡ done tt s')
      × Stopped (s.joined ++ s.sched.threadpoll) s'
unfolding halt
halt-Stopped program worker s e a ks =
    let m : Sched = record s.sched { autostop = true; stopping_flag = true } in
    let n = if is_some s.scheduler_co then 1 else 0 in
    let m₁ = tickle_times m.thread_count m in
    let m' = tickle_times n m₁ in
    let (stops, pool) = tickle_times-kept n m₁ in
    let (stops₁, pool₁) = tickle_times-kept m.thread_count m in
    let ts : m'.threadpoll ≡ s.sched.threadpoll = pool ∙ pool₁ in
    let resumed = resume_self (record s { sched = m' }) in
    let (s', run, k) =
      join_all-Stopped program worker m'.threadpoll
        (record resumed { sched = record m' { threadpoll = [] } })
        (subst (All (λ t. Loops (worker t))) (sym ts) ks)
        (stopping-empty_pool m' ∙ stops ∙ stops₁ ∙ empty-stopping s.sched e a) refl in
    (
      s',
      run,
      record {
        stops = k.stops;
        pool = k.pool;
        joined =
            k.joined
            ∙ ap (λ (js : List ℕ). js ++ m'.threadpoll)
                (resume_self-joined (record s { sched = m' }))
            ∙ ap (λ (js : List ℕ). s.joined ++ js) ts;
      },
    )

empty_pool : (ts : List ℕ) → length ts ≡ 0 → ts ≡ []
empty_pool [] e = refl
empty_pool (t ∷ ts) e = absurd (omega (arith, e))

-- From where its assertions allow it, with no task left, no thread active, and a pool of as many threads as it
-- counts, each of them between two rounds, `stop` comes to its end: the loop of each thread of the pool
-- ends after at most one more full round, with the thread, so that every `join` comes back. All threads
-- of the pool have been joined then, once and in their order, the pool is empty, and `stopping()` holds.
pub stop-Stopped :
    (program : ℕ → Script Task) (worker : ℕ → Worker) (is_this : Bool) (s : Owner)
    → (if is_some s.root_thread then is_this else not is_this) ≡ true
    → s.sched.tasks ≡ []
    → s.sched.active_threads ≡ 0
    → length s.sched.threadpoll ≡ s.sched.thread_count
    → All (λ t. Loops (worker t)) s.sched.threadpoll
    → (s' : Owner) × (stop (run_out program worker) is_this s ≡ done tt s')
      × Stopped (s.joined ++ s.sched.threadpoll) s'
unfolding stop
stop-Stopped program worker is_this s ok e a size ks =
    let s' = record s { sched = record s.sched { autostop = true } } in
    let early = rests s.scheduler_co && (s.sched.thread_count == 0) && stopping s'.sched in
    elim (Bool-cases early) [
      | inl h ↦
          let pool : s.sched.threadpoll ≡ [] =
            empty_pool s.sched.threadpoll (ground (arith, size, h)) in
          (
            s',
            rw h refl,
            record {
              stops = ground (arith, h);
              pool = pool;
              joined = sym (ap (λ (ts : List ℕ). s.joined ++ ts) pool ∙ append_nil s.joined);
            },
          )
      | inr h ↦ let (s₁, run, k) = halt-Stopped program worker s' e a ks in (s₁, rw (h, ok) run, k)
    ]
