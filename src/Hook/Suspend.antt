-- ===== src/Hook/Suspend.antt =====
-- The wait of `io_func` in hook/hook.cpp on the parts of a real IOManager: the timer that it makes, the event
-- that it adds, the callback of the timer, and what it does when its coroutine goes on. The addresses of
-- the timer, the coroutine and the scheduler, and the number of the callback, are arguments.
use co_kv.Prelude.{ℕ, Bool, true, false, Option, none, some, if◌then◌else◌}
use co_kv.Prelude.Run.{Run, done, fault, out_of_fuel, Cmd, bind_run}
use co_kv.Timer.{Manager, add_timer, cancel}
use co_kv.IoManager.{Event, Io, add_event, cancel_event}
use co_kv.IoManager.Idle.{Poller, with_timers}
use co_kv.Hook.{Reply, timeout, not_added, millis}

-- What the wait is for, and what it runs on.
pub record WaitCall : Type 0 where
  pub fd : ℕ
  pub event : Event
  pub to : Option ℕ
  pub timer : ℕ
  pub callback : ℕ
  pub co : ℕ
  pub scheduler : ℕ

-- An operation of the timers, and one of the contexts.
abbrev pub on_timers :
    {A B : Type 0} → Run Manager A → Poller → (A → Poller → Run Poller B) → Run Poller B
on_timers (done a m) p k = k a (with_timers m p)
on_timers fault p k = fault
on_timers out_of_fuel p k = out_of_fuel

abbrev pub on_contexts :
    {A B : Type 0} → Run Io A → Poller → (A → Poller → Run Poller B) → Run Poller B
on_contexts (done a m) p k = k a (record p { io = m })
on_contexts fault p k = fault
on_contexts out_of_fuel p k = out_of_fuel

abbrev pub timer_in : ℕ → WaitCall → Option ℕ → Cmd Poller (Unit {0})
timer_in now w none p = fault
timer_in now w (some ms) p =
    done tt (with_timers (add_timer now w.timer ms (some w.callback) false p.timers) p)

-- `if(to != -1) timer = iom->addTimer(to*1000, …);`
abbrev pub make_timer : ℕ → WaitCall → Option ℕ → Cmd Poller (Unit {0})
make_timer now w none p = done tt p
make_timer now w (some to) p = timer_in now w (millis to) p

-- `if(timer) timer->cancel();`
unfoldable pub drop_timer : WaitCall → Option ℕ → Cmd Poller (Unit {0})
unfolding cancel
drop_timer w none p = done tt p
drop_timer w (some s) p = on_timers (cancel w.timer p.timers) p λ _ p. done tt p

-- What comes behind `addEvent`, for whether it has succeeded.
abbrev pub behind_add : WaitCall → Bool → Cmd Poller (Option Reply)
behind_add w true p = done none p
behind_add w false p = bind_run (drop_timer w w.to p) λ _ p. done (some not_added) p

-- From the timer to `yieldtohold`, for the result of `epoll_ctl`. `none` says that the coroutine waits.
unfoldable pub begin_wait : ℕ → Bool → WaitCall → Cmd Poller (Option Reply)
unfolding add_timer add_event
begin_wait now ok w p =
    bind_run (make_timer now w w.to p)
      λ _ p₁. on_contexts (add_event ok w.scheduler w.co w.fd w.event none p₁.io) p₁ (behind_add w)

-- The callback of the timer, on the variable `cancel` of the wait.
unfoldable pub timer_callback : WaitCall → Cmd Poller Bool
unfolding cancel_event
timer_callback w p = on_contexts (cancel_event w.fd w.event p.io) p λ _ p. done true p

-- What comes behind `yieldtohold`, for the variable `cancel`. `none` is `goto Retry`.
unfoldable pub end_wait : WaitCall → Bool → Cmd Poller (Option Reply)
unfolding drop_timer
end_wait w cancelled p =
    bind_run (drop_timer w w.to p) λ _ p. done (if cancelled then some timeout else none) p
