-- ===== src/Examples/Clocks.antt =====
-- Timers that are added one after the other, of which two are taken and one recurs (time/time.cpp).
use co_kv.Prelude.{refl, true, false, some}
use co_kv.Timer.{Manager, add_timer, add, insert, list_expired_cb}
use co_kv.Timer.Order.{Sorted}
use co_kv.Timer.Notify.{Steps, adds, expires, here, next}
use co_kv.Timer.Ordered.{Allocated, Steps-Sorted}
use co_kv.Examples.Tables.{no_timers, two_timers}

abbrev later : Manager
later = (list_expired_cb 150 9 two_timers).1

abbrev steps : Steps no_timers later
steps =
    next (next (next here (adds 100 1 50 (some 0) false _)) (adds 100 2 5 (some 1) true _))
      (expires 150 9 _)

steps-Allocated : Allocated steps
unfolding Allocated add_timer add insert
steps-Allocated = ((refl, tt), (tt, tt))

Steps-Sorted_example : Sorted later.object later.timers
Steps-Sorted_example = Steps-Sorted steps steps-Allocated tt
