-- ===== src/Scheduler/Fifo.antt =====
-- The callbacks of a queue in the rounds of `Scheduler::run` (scheduler/scheduler.cpp).
use co_kv.Prelude.{
  ℕ, ◌≡◌, ◌≢◌, refl, sym, ◌∙◌, ap, not, ◌+◌, Bool, none, some, List, [], ◌∷◌, ◌++◌, append_nil,
  append_assoc, All, subst, ◌&&◌, true, false,
}
use co_kv.Prelude.Run.{done}
use co_kv.Selfco.{Script, ends, yields, Local, is_exec}
use co_kv.Selfco.Held.{is_nil, segments}
use co_kv.Scheduler.{Task, Sched, pick, take_task, tickle_if, is_empty}
use co_kv.Scheduler.Loop.{World, again, queue_holds, run_round, run_rounds}
use co_kv.Scheduler.Taken.{tickle_if-tasks, queued, After, dropped, run_round-Ran}

-- A callback for any thread.
abbrev pub callback : ℕ → Task
callback f = record { cb = some f; selfco = none; thread_num = none }

-- Callbacks, each with the address of the coroutine that is made for it.
abbrev pub Jobs : Type 0
Jobs = List (ℕ × ℕ)

abbrev pub addresses : Jobs → List ℕ
addresses [] = []
addresses ((f, p) ∷ js) = p ∷ addresses js

abbrev pub callbacks : Jobs → List Task
callbacks [] = []
callbacks ((f, p) ∷ js) = callback f ∷ callbacks js

-- The address is not among these.
abbrev pub Apart : ℕ → List ℕ → Type 0
Apart p = All (λ q. p ≢ q)

abbrev pub AllApart : List ℕ → Type 0
AllApart [] = Unit
AllApart (p ∷ ps) = Apart p ps × AllApart ps

module _ {A : Type 0} where
  abbrev pub head : List (List A) → List A
  head [] = []
  head (xs ∷ rest) = xs

  abbrev pub tail : List (List A) → List (List A)
  tail [] = []
  tail (xs ∷ rest) = rest

  segments-parts : (k : Script A) → segments k ≡ head (segments k) ∷ tail (segments k)
  segments-parts (ends ts) = refl
  segments-parts (yields ts rest) = refl

-- A thread takes a callback that is first.
take_task-callback :
    (exec : ℕ → Bool) (thread f : ℕ) (ts : List Task) (s : Sched)
    → s.tasks ≡ callback f ∷ ts
    → (s' : Sched) × (take_task exec thread s ≡ done (some (callback f)) s') × (s'.tasks ≡ ts)
unfolding take_task pick
take_task-callback exec thread f ts s e = (
  tickle_if (not (is_empty ts)) (record s { tasks = ts; active_threads = s.active_threads + 1 }),
  rw e refl,
  tickle_if-tasks (not (is_empty ts))
      (record s { tasks = ts; active_threads = s.active_threads + 1 }),
)

module _ (program : ℕ → Script Task) where
  -- What the callbacks post up to their first `yieldtohold`, in the order of the queue.
  unfoldable pub first_posts : Jobs → List Task
  first_posts [] = []
  first_posts ((f, p) ∷ js) = queued (head (segments (program f))) ++ first_posts js

  -- What the callback posts up to its first `yieldtohold`.
  abbrev pub posts_of : ℕ → List Task
  posts_of f = queued (head (segments (program f)))

  -- What has become of the coroutine of a callback, behind which these tasks were queued.
  abbrev pub Begun : World → List Task → ℕ → ℕ → Type 0
  Begun w ts f p =
      After program p (tail (segments (program f))) w.local
        (dropped p (tail (segments (program f))) ts)

  -- The tasks that are not callbacks of these jobs grow by the posts.
  abbrev pub AllBegun : World → List Task → Jobs → Type 0
  AllBegun w others [] = Unit
  AllBegun w others ((f, p) ∷ js) =
      Begun w (others ++ posts_of f) f p × AllBegun w (others ++ posts_of f) js

  -- What the rounds leave.
  pub record Served (w w' : World) (js : Jobs) (others : List Task) : Type 0 where
    pub tasks : w'.sched.tasks ≡ others ++ first_posts js
    pub begun : AllBegun w' others js
    pub kept :
        (q : ℕ)
        → Apart q (addresses js)
        → (w'.local.object q ≡ w.local.object q) × (w'.local.freed q ≡ w.local.freed q)
    pub no_cb : w'.cb_co ≡ none

  -- Callbacks hold no coroutine.
  queue_holds-callbacks :
      (p : ℕ) (js : Jobs) (ts : List Task) → queue_holds p (callbacks js ++ ts) ≡ queue_holds p ts
  unfolding queue_holds
  queue_holds-callbacks p [] ts = refl
  queue_holds-callbacks p ((f, q) ∷ js) ts = queue_holds-callbacks p js ts

  After-same :
      (p : ℕ) (rest : List (List Task)) (l l' : Local Task) (b : Bool)
      → l'.object p ≡ l.object p
      → l'.freed p ≡ l.freed p
      → After program p rest l b
      → After program p rest l' b
  After-same p rest l l' true e f h = f ∙ h
  After-same p rest l l' false e f (g, h, k) = (f ∙ g, rw e h, rw e k)

  module _ (thread : ℕ) where
    round-callback :
        (f p : ℕ) (js : Jobs) (others : List Task) (w : World)
        → w.cb_co ≡ none
        → w.idle_co ≢ p
        → w.sched.tasks ≡ callback f ∷ callbacks js ++ others
        → (w' : World) × (run_round program thread p w ≡ again w')
          × (w'.sched.tasks ≡ callbacks js ++ (others ++ posts_of f))
          × Begun w' (others ++ posts_of f) f p
          × ((q : ℕ)
              → q ≢ p
              → (w'.local.object q ≡ w.local.object q) × (w'.local.freed q ≡ w.local.freed q))
          × (w'.cb_co ≡ none)
          × (w'.idle_co ≡ w.idle_co)
    round-callback f p js others w none_kept apart e =
        let (s, taken, left) =
          take_task-callback (λ c. is_exec (w.local.object c).state) thread f
            (callbacks js ++ others) w.sched e in
        let (w', run, ran) =
          run_round-Ran program thread p f w s none (head (segments (program f)))
            (tail (segments (program f))) none_kept apart taken (segments-parts (program f)) in
        let all : s.tasks ++ posts_of f ≡ callbacks js ++ (others ++ posts_of f) =
          ap (λ (xs : List Task). xs ++ posts_of f) left
          ∙ append_assoc (callbacks js) others (posts_of f) in
        let held : queue_holds p (s.tasks ++ posts_of f) ≡ queue_holds p (others ++ posts_of f) =
          ap (queue_holds p) all ∙ queue_holds-callbacks p js (others ++ posts_of f) in
        (
          w',
          run,
          ran.tasks ∙ all,
          subst
              (λ (h : Bool).
                After program p (tail (segments (program f))) w'.local
                  (is_nil (tail (segments (program f))) && not h))
              held ran.outcome,
          ran.others,
          ran.kept,
          ran.idle,
        )

    -- A thread whose queue begins with callbacks for any thread begins them in their order, one in each round: as
    -- many rounds later, the tasks behind them come first in the queue, and behind these what the callbacks
    -- have posted, in their order. The coroutine of a callback that has ended is destroyed, unless a task
    -- held it then; those of the other callbacks are on hold with the rest to come; and no other coroutine
    -- is touched. The addresses of the new coroutines differ from each other and from that of `idle_co`.
    pub run_rounds-Served :
        (js : Jobs) (others : List Task) (w : World)
        → w.cb_co ≡ none
        → w.sched.tasks ≡ callbacks js ++ others
        → AllApart (addresses js)
        → Apart w.idle_co (addresses js)
        → (w' : World) × (run_rounds program thread (addresses js) w ≡ again w')
          × Served w w' js others
    unfolding run_rounds first_posts
    run_rounds-Served [] others w none_kept e apart idle = (
      w,
      refl,
      record {
        tasks = e ∙ sym (append_nil others);
        begun = tt;
        kept = λ q h. (refl, refl);
        no_cb = none_kept;
      },
    )
    run_rounds-Served ((f, p) ∷ js) others w none_kept e (apart, aparts) (idle, idles) =
        let (w₁, run, tasks, begun, kept, no_cb, same_idle) =
          round-callback f p js others w none_kept idle e in
        let idles' = subst (λ (q : ℕ). Apart q (addresses js)) (sym same_idle) idles in
        let (w₂, runs, later) =
          run_rounds-Served js (others ++ posts_of f) w₁ no_cb tasks aparts idles' in
        let (object, freed) = later.kept p apart in
        (
          w₂,
          rw run runs,
          record {
            tasks = later.tasks ∙ append_assoc others (posts_of f) (first_posts js);
            begun = (
              After-same p (tail (segments (program f))) w₁.local w₂.local _ object freed begun,
              later.begun,
            );
            kept = λ q h.
                ((later.kept q h.1).0 ∙ (kept q h.0).0, (later.kept q h.1).1 ∙ (kept q h.0).1);
            no_cb = later.no_cb;
          },
        )
