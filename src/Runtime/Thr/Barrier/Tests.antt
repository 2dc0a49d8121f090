-- ===== src/Runtime/Thr/Barrier/Tests.antt =====
-- Tests of the barrier of src/hphpc/runtime/hphp_thr.c.
use holyphp.Prelude.Int.{pos}
use holyphp.Prelude.{[], arith, false, refl, ◌*◌, ◌+◌, ◌∷◌, ◌≡◌, ◌≤◌}
use holyphp.Runtime.Thr.Barrier.{
  BarHistory, BarState, BarWaiter, after_arrive, arrive, barrier_arrive, barrier_waits, created,
  fresh_barrier, hpbi_barrier_new, then_step,
}
use holyphp.Runtime.Thr.Barrier.Rounds.{barrier_arrived-frees, barrier_leave-arrived}

-- A barrier for two, one thread waiting at it.
abbrev one_waits : BarState
one_waits = after_arrive (fresh_barrier (pos 2))

abbrev one_waits-history : BarHistory (pos 2) one_waits
one_waits-history = then_step created (arrive (fresh_barrier (pos 2)))

abbrev both_arrived : BarState
both_arrived = after_arrive one_waits

abbrev first_waiter : BarWaiter
first_waiter = record { round = 0; idx = 0 }

barrier_leave-arrived_example : 0 * 2 + 2 ≤ 2
unfolding after_arrive barrier_arrive barrier_waits hpbi_barrier_new
barrier_leave-arrived_example =
    barrier_leave-arrived (pos 2) {s = both_arrived} [] [] first_waiter
      (then_step one_waits-history (arrive one_waits)) refl refl

-- The next round has begun, and the first waiter has not woken.
abbrev third_arrived : BarState
third_arrived = after_arrive both_arrived

abbrev third_waiter : BarWaiter
third_waiter = record { round = 1; idx = 0 }

abbrev third-history : BarHistory (pos 2) third_arrived
third-history = then_step (then_step one_waits-history (arrive one_waits)) (arrive both_arrived)

barrier_arrived-frees_example : barrier_waits third_arrived.bar first_waiter ≡ false
unfolding after_arrive barrier_arrive hpbi_barrier_new
barrier_arrived-frees_example =
    barrier_arrived-frees (pos 2) {s = third_arrived} (third_waiter ∷ []) [] first_waiter
      third-history refl (omega arith)
