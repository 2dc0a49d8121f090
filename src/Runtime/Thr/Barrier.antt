-- ===== src/Runtime/Thr/Barrier.antt =====
-- The barrier of src/hphpc/runtime/hphp_thr.c: BarRec, hpbi_barrier_new and hpbi_barrier_wait, whose
-- lock is held from its arrival to its wait. The registry of barriers is left out, and the numbers have
-- no bound, where the source has size_t.
pub mod Rounds
mod Tests
use holyphp.Prelude.{
  Bool, List, [], false, if◌then◌else◌, ltb, not, ℕ, ◌&&◌, ◌++◌, ◌+◌, ◌-◌, ◌==◌, ◌∷◌, ◌≡◌,
}
use holyphp.Prelude.Int.{pos_part, ℤ}

pub record BarRec : Type 0 where
  pub need : ℕ
  pub seen : ℕ
  pub round : ℕ

-- if (need < 1) need = 1
unfoldable pub hpbi_barrier_new : ℤ → BarRec
hpbi_barrier_new n = record {
  need = if ltb (pos_part n) 1 then 1 else pos_part n;
  seen = 0;
  round = 0;
}

-- A thread inside the wait loop: `round` and `idx` are its local variables.
pub record BarWaiter : Type 0 where
  pub round : ℕ
  pub idx : ℕ

-- What an arrival ends in: the last one returns its number, the others wait.
pub data Arrival : Type 0 where
  last : ℕ → Arrival
  waits : BarWaiter → Arrival

-- From the lock to the return of the last arrival, or to the wait loop.
unfoldable pub barrier_arrive : BarRec → BarRec × Arrival
barrier_arrive b =
    if b.seen + 1 == b.need
    then (record b { seen = 0; round = b.round + 1 }, last (b.need - 1))
    else (record b { seen = b.seen + 1 }, waits (record { round = b.round; idx = b.seen }))

-- The test of the wait loop, for a thread that wakes: true where it goes on waiting.
unfoldable pub barrier_waits : BarRec → BarWaiter → Bool
barrier_waits b w = w.round == b.round && not (b.seen == 0)

-- A barrier with the threads in its wait loop; `arrived` counts the calls of hpbi_barrier_wait.
pub record BarState : Type 0 where
  pub bar : BarRec
  pub waiting : List BarWaiter
  pub arrived : ℕ

abbrev pub joined : List BarWaiter → Arrival → List BarWaiter
joined ws (last n) = ws
joined ws (waits w) = w ∷ ws

unfoldable pub after_arrive : BarState → BarState
unfolding barrier_arrive
after_arrive s =
    let (b, a) = barrier_arrive s.bar in
    record { bar = b; waiting = joined s.waiting a; arrived = s.arrived + 1 }

-- A thread arrives, or one that waits wakes, finds its test false and leaves. A thread that wakes and
-- waits on changes nothing.
pub data BarStep : BarState → BarState → Type 0 where
  arrive : (s : BarState) → BarStep s (after_arrive s)
  leave :
      (s : BarState) (pre post : List BarWaiter) (w : BarWaiter)
      → s.waiting ≡ pre ++ w ∷ post
      → barrier_waits s.bar w ≡ false
      → BarStep s (record s { waiting = pre ++ post })

abbrev pub fresh_barrier : ℤ → BarState
fresh_barrier n = record { bar = hpbi_barrier_new n; waiting = []; arrived = 0 }

-- What can happen at a barrier since its creation.
pub data BarHistory (n : ℤ) : BarState → Type 0 where
  created : BarHistory n (fresh_barrier n)
  then_step : {s t : BarState} → BarHistory n s → BarStep s t → BarHistory n t
