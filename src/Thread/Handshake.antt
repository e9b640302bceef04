-- ===== src/Thread/Handshake.antt =====
-- What the constructor of a Thread and `join` promise (thread/thread.cpp), in any order of steps.
use co_kv.Prelude.{ℕ, ◌≡◌, ◌⊎◌, refl, subst, Option, none, some, [], ◌∷◌, inl, inr}
use co_kv.Thread.{
  Maker, creating, waiting, made, joined, Runner, unborn, begun, named, swapped, notified, finished,
  Pair, construct, maker_step, runner_step, wait, notify, join,
}

module _ (me : ℕ) where
  -- A step of one of the two.
  pub data Step (t : Pair) : Pair → Type 0 where
    makes : {u : Pair} → maker_step t.maker t ≡ some u → Step t u
    runs : {u : Pair} → runner_step me t.runner t ≡ some u → Step t u

  pub data Reach (t : Pair) : Pair → Type 0 where
    here : Reach t t
    next : {u v : Pair} → Reach t u → Step u v → Reach t v

-- Where the two can stand together.
abbrev Allowed : Maker → Runner → Type 0
Allowed creating unborn = Unit
Allowed creating _ = ⊥
Allowed waiting unborn = ⊥
Allowed waiting _ = Unit
Allowed made notified = Unit
Allowed made finished = Unit
Allowed made _ = ⊥
Allowed joined finished = Unit
Allowed joined _ = ⊥

abbrev posts : Maker → Runner → ℕ
posts waiting notified = 1
posts waiting finished = 1
posts _ _ = 0

-- What the members hold where the two stand there.
abbrev shape : ℕ → ℕ → Maker → Runner → Pair
shape me f m r = record {
  maker = m;
  runner = r;
  semaphore = posts m r;
  id = elim r [ unborn ↦ none | begun ↦ none | _ ↦ some me ];
  cb = elim r [ unborn ↦ some f | begun ↦ some f | named ↦ some f | _ ↦ none ];
  local_cb = elim r [ unborn ↦ none | begun ↦ none | named ↦ none | _ ↦ some f ];
  called = elim r [ finished ↦ f ∷ [] | _ ↦ [] ];
}

module _ (me f : ℕ) where
  data Stage : Pair → Type 0 where
    at : (m : Maker) (r : Runner) → Allowed m r → Stage (shape me f m r)

  -- A step that can be taken leads to a stage.
  abbrev Leads : Option Pair → Type 0
  Leads none = Unit
  Leads (some u) = Stage u

  maker_step-Leads : (m : Maker) (r : Runner) → Allowed m r → Leads (maker_step m (shape me f m r))
  unfolding maker_step wait join
  maker_step-Leads creating unborn a = at waiting begun tt
  maker_step-Leads creating _ a = absurd a
  maker_step-Leads waiting unborn a = absurd a
  maker_step-Leads waiting notified a = at made notified tt
  maker_step-Leads waiting finished a = at made finished tt
  maker_step-Leads waiting _ a = tt
  maker_step-Leads made finished a = at joined finished tt
  maker_step-Leads made _ a = tt
  maker_step-Leads joined r a = tt

  runner_step-Leads :
      (m : Maker) (r : Runner) → Allowed m r → Leads (runner_step me r (shape me f m r))
  unfolding runner_step notify
  runner_step-Leads m unborn a = tt
  runner_step-Leads waiting begun a = at waiting named tt
  runner_step-Leads waiting named a = at waiting swapped tt
  runner_step-Leads waiting swapped a = at waiting notified tt
  runner_step-Leads waiting notified a = at waiting finished tt
  runner_step-Leads made notified a = at made finished tt
  runner_step-Leads m finished a = tt
  runner_step-Leads creating _ a = absurd a
  runner_step-Leads made _ a = absurd a
  runner_step-Leads joined _ a = absurd a

  Step-Stage : {t u : Pair} → Stage t → Step me t u → Stage u
  Step-Stage (at m r a) (makes e) = subst Leads e (maker_step-Leads m r a)
  Step-Stage (at m r a) (runs e) = subst Leads e (runner_step-Leads m r a)

  Reach-Stage : {t : Pair} → Reach me (construct f) t → Stage t
  unfolding construct
  Reach-Stage here = at creating unborn tt
  Reach-Stage (next r st) = Step-Stage (Reach-Stage r) st

  -- What holds once the constructor has returned, and once a `join` has.
  abbrev pub Promised : Maker → Pair → Type 0
  Promised creating t = Unit
  Promised waiting t = Unit
  Promised made t = (t.id ≡ some me) × (t.cb ≡ none)
  Promised joined t = (t.id ≡ some me) × (t.cb ≡ none) × (t.called ≡ f ∷ [])

  pub record Handshake (t : Pair) : Type 0 where
    pub promised : Promised t.maker t
    pub once : (t.called ≡ []) ⊎ (t.called ≡ f ∷ [])
    pub goes_on : ((t.maker ≡ joined) × (t.runner ≡ finished)) ⊎ ((u : Pair) × Step me t u)

  shape-Promised : (m : Maker) (r : Runner) → Allowed m r → Promised m (shape me f m r)
  shape-Promised creating r a = tt
  shape-Promised waiting r a = tt
  shape-Promised made notified a = (refl, refl)
  shape-Promised made finished a = (refl, refl)
  shape-Promised made _ a = absurd a
  shape-Promised joined finished a = (refl, refl, refl)
  shape-Promised joined _ a = absurd a

  shape-once :
      (m : Maker) (r : Runner) → ((shape me f m r).called ≡ []) ⊎ ((shape me f m r).called ≡ f ∷ [])
  shape-once m finished = inr refl
  shape-once m _ = inl refl

  shape-goes_on :
      (m : Maker) (r : Runner)
      → Allowed m r
      → ((m ≡ joined) × (r ≡ finished)) ⊎ ((u : Pair) × Step me (shape me f m r) u)
  unfolding maker_step runner_step wait join
  shape-goes_on creating unborn a = inr (_, makes refl)
  shape-goes_on creating _ a = absurd a
  shape-goes_on waiting unborn a = absurd a
  shape-goes_on waiting finished a = inr (_, makes refl)
  shape-goes_on waiting _ a = inr (_, runs refl)
  shape-goes_on made notified a = inr (_, runs refl)
  shape-goes_on made finished a = inr (_, makes refl)
  shape-goes_on made _ a = absurd a
  shape-goes_on joined finished a = inl (refl, refl)
  shape-goes_on joined _ a = absurd a

  Stage-Handshake : {t : Pair} → Stage t → Handshake t
  Stage-Handshake (at m r a) = record {
    promised = shape-Promised m r a;
    once = shape-once m r;
    goes_on = shape-goes_on m r a;
  }

  -- In whatever order the maker of a thread and the thread go on: once the constructor has returned,
  -- the thread's number is known and its callback is taken out of the members; once a `join` has returned,
  -- the callback has been called; it is never called twice; and one of the two can go on, until the
  -- thread is finished and joined.
  pub Reach-Handshake : {t : Pair} → Reach me (construct f) t → Handshake t
  Reach-Handshake r = Stage-Handshake (Reach-Stage r)
