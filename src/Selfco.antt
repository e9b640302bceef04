-- ===== src/Selfco.antt =====
-- selfco/selfco.h and selfco/selfco.cpp: coroutines of one thread. Switching contexts (ucontext) is
-- taken as documented: `swapcontext` goes on where the other context was left, and a context that
-- returns with a null `uc_link` ends the thread. What the callbacks do is an argument.
pub mod Held
use co_kv.Prelude.{
  ℕ, zero, suc, ◌+◌, ◌-◌, ◌*◌, Bool, true, false, Option, none, some, List, ◌==◌, if◌then◌else◌,
  is_some,
}

pub data CoState : Type 0 where
  init exec hold term ready : CoState

-- What a callback posts before it ends, or before it calls `yieldtohold` and goes on.
pub data Script (A : Type 0) : Type 0 where
  ends : List A → Script A
  yields : List A → Script A → Script A

-- Where a coroutine goes on when it is switched to: at the start of `MainFunc`, inside its callback,
-- or behind the `p->yield()` that ends `MainFunc`; `outside` is a context that no function was made for.
pub data Context (A : Type 0) : Type 0 where
  entry : Context A
  inside : Script A → Context A
  behind : Context A
  outside : Context A

-- The members of a Selfco; `stack_size` is 0 where `m_stack` is null.
pub record Co (A : Type 0) : Type 0 where
  pub ctx : Context A
  pub stack_size : ℕ
  pub cb : Option ℕ
  pub state : CoState

-- The thread-local `co` and `main_co` (0 is null), the counter `s_co`, the coroutines by address, and which of
-- them have been destroyed.
pub record Local (A : Type 0) : Type 0 where
  pub co : ℕ
  pub main_co : ℕ
  pub count : ℕ
  pub object : ℕ → Co A
  pub freed : ℕ → Bool

-- How a switch to a coroutine ends for the one that switched: it is switched back to, with what has
-- been posted; or the thread has ended; or the switch went to a context that is not made.
pub data Switch (A : Type 0) : Type 0 where
  back : List A → Local A → Switch A
  thread_exit : Switch A
  no_context : Switch A

abbrev pub is_exec : CoState → Bool
is_exec exec = true
is_exec _ = false

abbrev pub is_term : CoState → Bool
is_term term = true
is_term _ = false

abbrev pub is_ready : CoState → Bool
is_ready ready = true
is_ready _ = false

abbrev pub is_behind : {A : Type 0} → Context A → Bool
is_behind behind = true
is_behind _ = false

module _ {A : Type 0} where
  abbrev pub put : ℕ → Co A → Local A → Local A
  put p c w = record w { object = λ q. if q == p then c else w.object q }

  abbrev pub set_state : ℕ → CoState → Local A → Local A
  set_state p st w = put p (record (w.object p) { state = st }) w

  abbrev pub mark_freed : ℕ → Bool → Local A → Local A
  mark_freed p b w = record w { freed = λ q. if q == p then b else w.freed q }

  unfoldable pub set_this : ℕ → Local A → Local A
  set_this p w = record w { co = p }

  -- `Selfco()`, for the address of the new coroutine.
  unfoldable pub construct_main : ℕ → Local A → Local A
  unfolding set_this
  construct_main fresh w =
      let c : Co A = record { ctx = outside; stack_size = 0; cb = none; state = exec } in
      let w' = set_this fresh (put fresh c (mark_freed fresh false w)) in
      record w' { count = w'.count + 1 }

  -- `Selfco(cb, stacksize, use_caller)`; both branches on `use_caller` are the same.
  unfoldable pub construct : ℕ → Option ℕ → ℕ → Local A → Local A
  construct fresh cb stacksize w =
      let size = if stacksize == 0 then 1024 * 1024 else stacksize in
      let c : Co A = record { ctx = entry; stack_size = size; cb = cb; state = init } in
      put fresh c (mark_freed fresh false (record w { count = w.count + 1 }))

  -- `~Selfco`: without a stack the test is an assignment, which holds wherever `this` does.
  unfoldable pub destroy : ℕ → Local A → Local A
  unfolding set_this
  destroy p w =
      let w' = mark_freed p true (record w { count = w.count - 1 }) in
      if (w.object p).stack_size == 0 then set_this 0 w' else w'

  -- `getThis`, for the address of a main coroutine that is made if there is none.
  unfoldable pub get_this : ℕ → Local A → ℕ × Local A
  unfolding construct_main
  get_this fresh w =
      let w' = construct_main fresh w in
      if w.co == 0 then (fresh, record w' { main_co = fresh }) else (w.co, w)

  -- `yield` up to the switch: the scheduler goes on with what it returns.
  unfoldable pub yield_co : ℕ → Local A → Local A
  unfolding set_this
  yield_co p w = set_state p hold (set_this w.main_co w)

  -- `yieldtohold`, called with a running coroutine.
  unfoldable pub yieldtohold : Local A → Local A
  unfolding yield_co
  yieldtohold w = yield_co w.co (set_state w.co hold w)

  -- `reset(cb)`
  unfoldable pub reset : ℕ → Option ℕ → Local A → Local A
  reset p cb w = put p (record (w.object p) { cb = cb; ctx = entry; state = init }) w

  abbrev pub leave_at : ℕ → Context A → Local A → Local A
  leave_at p k w = put p (record (w.object p) { ctx = k }) w

  -- The callback from where it stands, and the rest of `MainFunc` behind it, for the running `p`.
  unfoldable pub run_script : ℕ → Script A → Local A → Switch A
  unfolding yieldtohold yield_co
  run_script p (ends ts) w =
      let over = put p (record (w.object p) { cb = none; state = term }) w in
      back ts (yield_co p (leave_at p behind over))
  run_script p (yields ts rest) w = back ts (yieldtohold (leave_at p (inside rest) w))

-- What a callback does, by its number.
module _ {A : Type 0} (program : ℕ → Script A) where
  abbrev pub start_cb : ℕ → Option ℕ → Local A → Switch A
  start_cb p none w = back List.[] (yield_co p (leave_at p behind w))
  start_cb p (some f) w = run_script p (program f) w

  -- `MainFunc` from its start, for the running coroutine.
  unfoldable pub main_func : Local A → Switch A
  unfolding run_script yield_co
  main_func w = start_cb w.co (w.object w.co).cb w

  abbrev pub go_on : ℕ → Context A → Local A → Switch A
  go_on p entry w = main_func w
  go_on p (inside k) w = run_script p k w
  go_on p behind w = thread_exit
  go_on p outside w = no_context

  -- `resuem`
  unfoldable pub resuem : ℕ → Local A → Switch A
  unfolding main_func run_script set_this
  resuem p w = go_on p (w.object p).ctx (set_state p exec (set_this p w))
