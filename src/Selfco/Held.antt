-- ===== src/Selfco/Held.antt =====
-- What the scheduler finds when a coroutine that it has resumed switches back (selfco/selfco.cpp).
use co_kv.Prelude.{
  ℕ, ◌≡◌, ◌≢◌, refl, ◌∙◌, subst, sym, true, false, Option, none, some, List, [], ◌∷◌, ◌==◌, arith,
  Bool, ==_refl,
}
use co_kv.Selfco.{
  exec, hold, Script, ends, yields, Context, entry, inside, behind, outside, Local, Switch, back,
  thread_exit, no_context, run_script, main_func, resuem, yield_co, yieldtohold, set_this,
  set_state, start_cb, go_on, is_behind,
}

module _ {A : Type 0} where
  -- The coroutine is on hold, the others are as they were, none has been made or destroyed, and the main
  -- coroutine is the current one.
  pub record OnHold (p : ℕ) (w w' : Local A) : Type 0 where
    pub state : (w'.object p).state ≡ hold
    pub others : (q : ℕ) → q ≢ p → w'.object q ≡ w.object q
    pub current : w'.co ≡ w.main_co
    pub main : w'.main_co ≡ w.main_co
    pub count : w'.count ≡ w.count
    pub freed : w'.freed ≡ w.freed

  -- The posts of a callback from where it stands, one list for each time that it switches back.
  abbrev pub segments : Script A → List (List A)
  segments (ends ts) = ts ∷ []
  segments (yields ts rest) = ts ∷ segments rest

module _ {A : Type 0} (program : ℕ → Script A) where
  -- What a coroutine still posts, one list for each resumption that comes back.
  abbrev pub remaining : Context A → Option ℕ → List (List A)
  remaining entry none = [] ∷ []
  remaining entry (some f) = segments (program f)
  remaining (inside k) cb = segments k
  remaining behind cb = []
  remaining outside cb = []

  -- A resumption with something left comes back with the first of it, and leaves the rest, on hold.
  abbrev pub Resumes : ℕ → Local A → List (List A) → Switch A → Type 0
  Resumes p w [] r = r ≡ thread_exit
  Resumes p w (ts ∷ rest) r =
      (w' : Local A) × (r ≡ back ts w')
      × OnHold p w w'
      × (remaining (w'.object p).ctx (w'.object p).cb ≡ rest)
      × ((w'.object p).ctx ≢ outside)

  pub run_script-Resumes :
      (k : Script A) (w : Local A) → Resumes w.co w (segments k) (run_script w.co k w)
  unfolding run_script yieldtohold yield_co set_this
  run_script-Resumes (ends ts) w =
      let e : (w.co == w.co) ≡ true = ==_refl w.co in
      (
        _,
        refl,
        record {
          state = rw e;
          others = λ q ne. ground (arith, ne);
          current = refl;
          main = refl;
          count = refl;
          freed = refl;
        },
        rw e refl,
        rw e (cc),
      )
  run_script-Resumes (yields ts rest) w =
      let e : (w.co == w.co) ≡ true = ==_refl w.co in
      (
        _,
        refl,
        record {
          state = rw e;
          others = λ q ne. ground (arith, ne);
          current = refl;
          main = refl;
          count = refl;
          freed = refl;
        },
        rw e refl,
        rw e (cc),
      )

  pub OnHold-resumed :
      (p : ℕ) (w w' : Local A) → OnHold p (set_state p exec (set_this p w)) w' → OnHold p w w'
  unfolding set_this
  OnHold-resumed p w w' h = record {
    state = h.state;
    others = λ q ne. h.others q ne ∙ (let f : (q == p) ≡ false = ground (arith, ne) in rw f refl);
    current = h.current;
    main = h.main;
    count = h.count;
    freed = h.freed;
  }

  Resumes-resumed :
      (p : ℕ) (w : Local A) (segs : List (List A)) (r : Switch A)
      → Resumes p (set_state p exec (set_this p w)) segs r
      → Resumes p w segs r
  Resumes-resumed p w [] r h = h
  Resumes-resumed p w (ts ∷ rest) r (w', run, held, left, made) =
      (w', run, OnHold-resumed p w w' held, left, made)

  abbrev resumed : ℕ → Local A → Local A
  resumed p w = set_state p exec (set_this p w)

  main_func-Resumes :
      (w : Local A) (cb : Option ℕ)
      → (w.object w.co).cb ≡ cb
      → Resumes w.co w (remaining entry cb) (start_cb program w.co cb w)
  unfolding yield_co set_this
  main_func-Resumes w none h =
      let e : (w.co == w.co) ≡ true = ==_refl w.co in
      (
        _,
        refl,
        record {
          state = rw e;
          others = λ q ne. ground (arith, ne);
          current = refl;
          main = refl;
          count = refl;
          freed = refl;
        },
        rw e refl,
        rw e (cc),
      )
  main_func-Resumes w (some f) h = run_script-Resumes (program f) w

  go_on-Resumes :
      (k : Context A) (w : Local A)
      → k ≢ outside
      → Resumes w.co w (remaining k (w.object w.co).cb) (go_on program w.co k w)
  unfolding main_func
  go_on-Resumes entry w h = main_func-Resumes w (w.object w.co).cb refl
  go_on-Resumes (inside k) w h = run_script-Resumes k w
  go_on-Resumes behind w h = refl
  go_on-Resumes outside w h = absurd (h refl)

  -- One resumption of a coroutine that has a context.
  pub resuem-Resumes :
      (p : ℕ) (w : Local A)
      → (w.object p).ctx ≢ outside
      → Resumes p w (remaining (w.object p).ctx (w.object p).cb) (resuem program p w)
  unfolding resuem set_this
  resuem-Resumes p w h =
      let e : (p == p) ≡ true = ==_refl p in
      Resumes-resumed p w (remaining (w.object p).ctx (w.object p).cb) (resuem program p w)
        (rw e at (go_on-Resumes (w.object p).ctx (resumed p w) h))

  pub resuem-outside :
      (p : ℕ) (w : Local A) → (w.object p).ctx ≡ outside → resuem program p w ≡ no_context
  unfolding resuem set_this
  resuem-outside p w e = rw (e, go_on) refl

  -- Resumed again and again, the coroutine posts these lists, one each time, and is on hold behind
  -- each; the resumption behind the last ends the thread.
  abbrev pub Drains : ℕ → Local A → List (List A) → Type 0
  Drains p w [] = resuem program p w ≡ thread_exit
  Drains p w (ts ∷ rest) =
      (w' : Local A) × (resuem program p w ≡ back ts w') × OnHold p w w' × Drains p w' rest

  -- A coroutine that has a context, resumed again and again, posts what its callback posts, in order,
  -- and switches back once more than the callback yields. Each time the scheduler finds it on hold,
  -- also when the callback has ended, since the last `yield` overwrites `TERM`; the others are as they
  -- were. The resumption behind the last ends the thread.
  pub resuem-Drains :
      (p : ℕ) (w : Local A)
      → (w.object p).ctx ≢ outside
      → Drains p w (remaining (w.object p).ctx (w.object p).cb)
  resuem-Drains p w h = drain (remaining (w.object p).ctx (w.object p).cb) w refl h
    where
      drain :
          (segs : List (List A)) (w : Local A)
          → remaining (w.object p).ctx (w.object p).cb ≡ segs
          → (w.object p).ctx ≢ outside
          → Drains p w segs
      drain [] w e h =
          subst (λ segs. Resumes p w segs (resuem program p w)) e (resuem-Resumes p w h)
      drain (ts ∷ rest) w e h =
          let (w', run, held, left, made) =
            subst (λ segs. Resumes p w segs (resuem program p w)) e (resuem-Resumes p w h) in
          (w', run, held, drain rest w' left made)

abbrev pub is_nil : {A : Type 0} → List A → Bool
is_nil [] = true
is_nil (x ∷ xs) = false

-- A coroutine has nothing left where its callback has ended.
pub is_nil-remaining :
    {A : Type 0} (program : ℕ → Script A) (k : Context A) (cb : Option ℕ)
    → k ≢ outside
    → is_nil (remaining program k cb) ≡ is_behind k
is_nil-remaining {A} program k cb h = by_context k cb h
  where
    some_left : (s : Script A) → is_nil (segments s) ≡ false
    some_left (ends ts) = refl
    some_left (yields ts rest) = refl

    by_context :
        (k : Context A) (cb : Option ℕ)
        → k ≢ outside
        → is_nil (remaining program k cb) ≡ is_behind k
    by_context entry none h = refl
    by_context entry (some f) h = some_left (program f)
    by_context (inside s) cb h = some_left s
    by_context behind cb h = refl
    by_context outside cb h = absurd (h refl)

-- Whoever switches to a coroutine and is switched back to finds it on hold.
abbrev pub Held : {A : Type 0} → ℕ → Local A → Switch A → Type 0
Held p w (back ts w') = OnHold p w w'
Held p w thread_exit = Unit
Held p w no_context = Unit

module _ {A : Type 0} (program : ℕ → Script A) where
  pub Resumes-Held :
      (p : ℕ) (w : Local A) (segs : List (List A)) (r : Switch A)
      → Resumes program p w segs r
      → Held p w r
  Resumes-Held p w [] r h = subst (Held p w) (sym h) tt
  Resumes-Held p w (ts ∷ rest) r (w', run, held, left, made) = subst (Held p w) (sym run) held

  pub resuem-Held : (p : ℕ) (w : Local A) → Held p w (resuem program p w)
  resuem-Held p w = by_context (w.object p).ctx refl
    where
      from_made : (w.object p).ctx ≢ outside → Held p w (resuem program p w)
      from_made h =
          Resumes-Held p w (remaining program (w.object p).ctx (w.object p).cb) (resuem program p w)
            (resuem-Resumes program p w h)

      by_context : (k : Context A) → (w.object p).ctx ≡ k → Held p w (resuem program p w)
      by_context outside e = subst (Held p w) (sym (resuem-outside program p w e)) tt
      by_context entry e = from_made (λ h. cc)
      by_context (inside k) e = from_made (λ h. cc)
      by_context behind e = from_made (λ h. cc)
