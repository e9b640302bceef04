-- ===== src/Hook/Follows.antt =====
-- `io_func` of hook/hook.cpp on the parts of a real IOManager against its retries alone.
use co_kv.Prelude.{
  ℕ, ◌≡◌, refl, sym, subst, Bool, true, false, ◌||◌, Option, none, some, List, [], ◌∷◌,
  if◌then◌else◌, map, get_elem?, is_some, not, Bool-cases, inl, inr,
}
use co_kv.Prelude.Run.{Run, done, fault, out_of_fuel, bind_run}
use co_kv.FdManager.{FdCtx, get_timeout}
use co_kv.IoManager.{Event, FdContext, Io, add_event, grown, has, get_event_context, fetch}
use co_kv.IoManager.Idle.{Poller}
use co_kv.Hook.{
  Result, value, interrupted, again, failed, Wait, refused, woken, timed_out, Reply, not_added,
  timeout, Trace, called, waited, retry, raw, io_func, timeout_of, millis, overflows,
}
use co_kv.Hook.Suspend.{
  WaitCall, timer_in, make_timer, drop_timer, behind_add, on_contexts, begin_wait, end_wait,
}
use co_kv.Hook.Wrappers.{
  given_back, Meanwhile, or_else, resume_wait, wait_for, attempt, straight, timed, io_call,
}

-- How a wait ends, for what it meets.
abbrev pub ends_as : Meanwhile → Wait
ends_as x = if x.ok then (if x.cancelled then timed_out else woken) else refused

-- The reply that a wait leads to.
abbrev reply_of : Wait → Option Reply
reply_of refused = some not_added
reply_of timed_out = some timeout
reply_of woken = none

-- A run that ends gives this.
abbrev Says : {S A : Type 0} → A → Run S A → Type 0
Says a (done b s) = b ≡ a
Says a fault = Unit
Says a out_of_fuel = Unit

add_event-Says :
    (ok : Bool) (this co fd : ℕ) (ev : Event) (cb : Option ℕ) (m : Io)
    → Says ok (add_event ok this co fd ev cb m)
unfolding add_event
add_event-Says ok this co fd ev cb m = by_context (get_elem? (grown fd m.contexts) fd) refl
  where
    by_context :
        (o : Option FdContext)
        → get_elem? (grown fd m.contexts) fd ≡ o
        → Says ok (add_event ok this co fd ev cb m)
    by_context none e = rw (add_event, e, fetch) tt
    by_context (some c) e =
        let x = get_event_context ev c in
        let guard = has c.events ev || (is_some x.scheduler || (is_some x.cb || is_some x.co)) in
        elim (Bool-cases guard) [
          | inl g ↦ rw (add_event, e, fetch, g) tt
          | inr g ↦ elim (Bool-cases ok) [
            | inl k ↦ rw (add_event, e, fetch, g, k) refl
            | inr k ↦ rw (add_event, e, fetch, g, k) refl
          ]
        ]

-- The rest of a run after a command without a result.
then-Says : {S A : Type 0} (a : A) (r : Run S (Unit {0})) → Says a (bind_run r (λ _ s. done a s))
then-Says a (done _ s) = refl
then-Says a fault = tt
then-Says a out_of_fuel = tt

end_wait-Says :
    (w : WaitCall) (cancelled : Bool) (p : Poller)
    → Says (reply_of (if cancelled then timed_out else woken)) (end_wait w cancelled p)
unfolding end_wait
end_wait-Says w true p = then-Says (some timeout) (drop_timer w w.to p)
end_wait-Says w false p = then-Says none (drop_timer w w.to p)

behind_add-Says :
    (w : WaitCall) (now : ℕ) (ok cancelled : Bool) (others : Poller → Poller) (p : Poller)
    → let x : Meanwhile = record { now = now; ok = ok; others = others; cancelled = cancelled } in
      Says (reply_of (ends_as x)) (bind_run (behind_add w ok p) (resume_wait w x))
behind_add-Says w now true cancelled others p = elim (Bool-cases (given_back w p (others p))) [
  | inl g ↦ rw g (end_wait-Says w cancelled (others p))
  | inr g ↦ rw g tt
]
behind_add-Says w now false cancelled others p = by_drop (drop_timer w w.to p)
  where
    by_drop :
        (r : Run Poller (Unit {0}))
        → Says (some not_added) (
            bind_run (bind_run r λ _ p. done (some not_added) p) (
              resume_wait w
                (record { now = now; ok = false; others = others; cancelled = cancelled })))
    by_drop (done _ p) = refl
    by_drop fault = tt
    by_drop out_of_fuel = tt

-- A wait leads to the reply that its kind stands for.
wait-Says :
    (w : WaitCall) (x : Meanwhile) (p : Poller) → Says (reply_of (ends_as x)) (wait_for w x p)
unfolding wait_for begin_wait
wait-Says w x p = by_timer (make_timer x.now w w.to p)
  where
    by_add :
        (p₁ : Poller) (r : Run Io Bool)
        → Says x.ok r
        → Says (reply_of (ends_as x)) (bind_run (on_contexts r p₁ (behind_add w)) (resume_wait w x))
    by_add p₁ (done b m) e =
        subst
          (λ c.
            Says (reply_of (ends_as x))
              (bind_run (behind_add w c (record p₁ { io = m })) (resume_wait w x)))
          (sym e) (behind_add-Says w x.now x.ok x.cancelled x.others (record p₁ { io = m }))
    by_add p₁ fault e = tt
    by_add p₁ out_of_fuel e = tt

    by_timer :
        (r : Run Poller (Unit {0}))
        → Says (reply_of (ends_as x)) (
            bind_run
              (bind_run r λ _ p₁.
                on_contexts
                  (add_event x.ok w.scheduler w.co w.fd w.event none p₁.io)
                  p₁
                  (behind_add w))
              (resume_wait w x))
    by_timer (done _ p₁) =
        by_add p₁ (add_event x.ok w.scheduler w.co w.fd w.event none p₁.io)
          (add_event-Says x.ok w.scheduler w.co w.fd w.event none p₁.io)
    by_timer fault = tt
    by_timer out_of_fuel = tt

-- A timeout that overflows is a fault.
make_timer-fault :
    (now : ℕ) (w : WaitCall) (to : Option ℕ) (p : Poller)
    → overflows to ≡ true
    → make_timer now w to p ≡ fault
make_timer-fault now w none p h = cc
make_timer-fault now w (some to) p h = by_time (millis to) h
  where
    by_time : (o : Option ℕ) → not (is_some o) ≡ true → timer_in now w o p ≡ fault
    by_time none h = refl
    by_time (some ms) h = cc

wait-fault :
    (w : WaitCall) (x : Meanwhile) (p : Poller) → overflows w.to ≡ true → wait_for w x p ≡ fault
unfolding wait_for begin_wait
wait-fault w x p h = rw (make_timer-fault x.now w w.to p h) refl

-- A run of the whole that ends gives the reply of the other.
abbrev Follows : Run Poller Reply → Run Trace Reply → Type 0
Follows (done r p) s = (t : Trace) × (s ≡ done r t)
Follows fault s = Unit
Follows out_of_fuel s = Unit

attempt-retry :
    (w : WaitCall) (rs : List Result) (xs : List Meanwhile) (p : Poller) (t : Trace)
    → Follows (attempt w rs xs p) (retry w.to rs (map ends_as xs) t)
unfolding attempt retry
attempt-retry w [] xs p t = tt
attempt-retry w (value n ∷ rs) xs p t = (called t, refl)
attempt-retry w (failed e ∷ rs) xs p t = (called t, refl)
attempt-retry w (interrupted ∷ rs) xs p t = attempt-retry w rs xs p (called t)
attempt-retry w (again ∷ rs) [] p t = tt
attempt-retry w (again ∷ rs) (x ∷ xs) p t = elim (Bool-cases (overflows w.to)) [
  | inl o ↦
      subst
        (λ (r : Run Poller (Option Reply)).
          Follows (bind_run r λ r p. or_else r (attempt w rs xs) p)
            (retry w.to (again ∷ rs) (map ends_as (x ∷ xs)) t))
        (sym (wait-fault w x p o)) tt
  | inr o ↦
      by_run o (wait_for w x p) (ends_as x) (wait-Says w x p)
        (λ p'. attempt-retry w rs xs p' (waited w.to (called t)))
]
  where
    by_run :
        overflows w.to ≡ false
        → (r : Run Poller (Option Reply)) (k : Wait) → Says (reply_of k) r
        → ((p' : Poller)
            → Follows
                (attempt w rs xs p')
                (retry w.to rs (map ends_as xs) (waited w.to (called t))))
        → Follows
            (bind_run r λ r p. or_else r (attempt w rs xs) p)
            (retry w.to (again ∷ rs) (k ∷ map ends_as xs) t)
    by_run f (done o p') refused e next =
        subst
          (λ o.
            Follows (or_else o (attempt w rs xs) p')
              (retry w.to (again ∷ rs) (refused ∷ map ends_as xs) t))
          (sym e) (rw f (waited w.to (called t), refl))
    by_run f (done o p') timed_out e next =
        subst
          (λ o.
            Follows (or_else o (attempt w rs xs) p')
              (retry w.to (again ∷ rs) (timed_out ∷ map ends_as xs) t))
          (sym e) (rw f (waited w.to (called t), refl))
    by_run f (done o p') woken e next =
        subst
          (λ o.
            Follows (or_else o (attempt w rs xs) p')
              (retry w.to (again ∷ rs) (woken ∷ map ends_as xs) t))
          (sym e) (rw f (next p'))
    by_run f fault k e next = tt
    by_run f out_of_fuel k e next = tt

straight-raw : (rs : List Result) (p : Poller) (t : Trace) → Follows (straight rs p) (raw rs t)
unfolding straight raw
straight-raw [] p t = tt
straight-raw (value n ∷ rs) p t = (called t, refl)
straight-raw (failed e ∷ rs) p t = (called t, refl)
straight-raw (interrupted ∷ rs) p t = (called t, refl)
straight-raw (again ∷ rs) p t = (called t, refl)

-- Where the call ends, with the timers and the contexts of a real IOManager and whatever the other
-- coroutines do while it waits, it gives the reply of its retries alone, for the way in which each wait ends.
pub io_call-io_func :
    (enabled : Bool) (ctx : Option FdCtx) (w : WaitCall) (rs : List Result) (xs : List Meanwhile)
    (p p' : Poller) (r : Reply) (t : Trace)
    → io_call enabled ctx w rs xs p ≡ done r p'
    → (t' : Trace) × (io_func enabled ctx rs (map ends_as xs) t ≡ done r t')
unfolding io_call io_func get_timeout
io_call-io_func enabled ctx w rs xs p p' r t e =
    subst (λ s. Follows s (io_func enabled ctx rs (map ends_as xs) t)) e (follows enabled ctx)
  where
    follows :
        (enabled : Bool) (ctx : Option FdCtx)
        → Follows (io_call enabled ctx w rs xs p) (io_func enabled ctx rs (map ends_as xs) t)
    follows enabled none = straight-raw rs p t
    follows false (some c) = straight-raw rs p t
    follows true (some c) = elim (Bool-cases c.is_closed) [
      | inl k ↦ rw (io_call, io_func, k) (t, refl)
      | inr k ↦ elim (Bool-cases c.is_socket) [
        | inl j ↦ rw (io_call, io_func, k, j) (attempt-retry (timed w (timeout_of c)) rs xs p t)
        | inr j ↦ rw (io_call, io_func, k, j) (straight-raw rs p t)
      ]
    ]
