-- ===== src/Runtime/Thr/Barrier/Rounds.antt =====
-- No thread leaves a barrier of src/hphpc/runtime/hphp_thr.c before all of its round have arrived, and
-- then every one may.
use mathlib.Core.Path.{subst}
use holyphp.Prelude.{
  All, List, [], arith, dec_lt, false, if_lem, inl, inr, refl, ℕ, ◌*◌, ◌++◌, ◌+◌, ◌<◌, ◌==◌, ◌∷◌,
  ◌≡◌, ◌≤◌, ◌⊎◌,
}
use holyphp.Prelude.{}
use holyphp.Prelude.Int.{ℤ}
use holyphp.Runtime.Thr.Barrier.{
  Arrival, BarHistory, BarRec, BarState, BarStep, BarWaiter, after_arrive, arrive, barrier_arrive,
  barrier_waits, created, fresh_barrier, hpbi_barrier_new, joined, leave, then_step,
}

-- A thread of an old round, or one of this round that is counted in `seen`.
abbrev Counted : BarRec → BarWaiter → Type 0
Counted b w = (w.round < b.round) ⊎ ((w.round ≡ b.round) × (w.idx < b.seen))

record IsRound (s : BarState) : Type 0 where
  pub room : s.bar.seen < s.bar.need
  pub total : s.arrived ≡ s.bar.round * s.bar.need + s.bar.seen
  pub counted : All (Counted s.bar) s.waiting

All-map : {A : Type 0} (P Q : A → Type 0) (l : List A) → ((a : A) → P a → Q a) → All P l → All Q l
All-map P Q [] f h = tt
All-map P Q (x ∷ l) f h = (f x h.0, All-map P Q l f h.1)

All-without :
    {A : Type 0} (P : A → Type 0) (pre post : List A) (w : A)
    → All P (pre ++ w ∷ post)
    → P w × All P (pre ++ post)
All-without P [] post w h = h
All-without P (x ∷ pre) post w h =
    let (here, rest) = All-without P pre post w h.1 in (here, (h.0, rest))

-- Where the last of a round arrives, all are of old rounds.
Counted-last :
    (b : BarRec) (w : BarWaiter)
    → Counted b w
    → Counted (record b { seen = 0; round = b.round + 1 }) w
Counted-last b w (inl old) = inl (omega arith)
Counted-last b w (inr (same, lt)) = inl (omega arith)

Counted-more :
    (b : BarRec) (w : BarWaiter) → Counted b w → Counted (record b { seen = b.seen + 1 }) w
Counted-more b w (inl old) = inl old
Counted-more b w (inr (same, lt)) = inr (same, omega arith)

arrive-IsRound : (s : BarState) → IsRound s → IsRound (after_arrive s)
unfolding after_arrive barrier_arrive
arrive-IsRound s v =
    let b = s.bar in
    if_lem
      (λ (p : BarRec × Arrival).
        IsRound (record { bar = p.0; waiting = joined s.waiting p.1; arrived = s.arrived + 1 }))
      (b.seen + 1 == b.need)
      (λ full.
        let all : b.seen + 1 ≡ b.need = ground arith in
        let total = v.total in
        record {
          room = omega (arith, v.room);
          total = grind arith;
          counted = All-map (Counted b) _ s.waiting (Counted-last b) v.counted;
        })
      (λ short.
        let room = v.room in
        let total = v.total in
        record {
          room = ground arith;
          total = omega arith;
          counted =
              (inr (refl, omega arith), All-map (Counted b) _ s.waiting (Counted-more b) v.counted);
        })

step-IsRound : {s t : BarState} → BarStep s t → IsRound s → IsRound t
step-IsRound (arrive s) v = arrive-IsRound s v
step-IsRound (leave s pre post w same free) v =
    let counted = subst (All (Counted s.bar)) same v.counted in
    let (here, rest) = All-without (Counted s.bar) pre post w counted in
    record { room = v.room; total = v.total; counted = rest }

fresh-IsRound : (n : ℤ) → IsRound (fresh_barrier n)
unfolding hpbi_barrier_new
fresh-IsRound n = record { room = ground arith; total = ground arith; counted = tt }

BarHistory-IsRound : (n : ℤ) {s : BarState} → BarHistory n s → IsRound s
BarHistory-IsRound n created = fresh-IsRound n
BarHistory-IsRound n (then_step h st) = step-IsRound st (BarHistory-IsRound n h)

leaves_old :
    (b : BarRec) (w : BarWaiter) → Counted b w → barrier_waits b w ≡ false → w.round < b.round
unfolding barrier_waits
leaves_old b w (inl old) free = old
leaves_old b w (inr (same, lt)) free = absurd (ground arith)

rounds_le : (r k n : ℕ) → r < k → r * n + n ≤ k * n
rounds_le r k n h = grind arith

-- In every history of a barrier, a thread in the wait loop that finds its test false has a round such
-- that `need` threads for each of the rounds up to it, itself included, have arrived.
pub barrier_leave-arrived :
    (n : ℤ) {s : BarState} (pre post : List BarWaiter) (w : BarWaiter)
    → BarHistory n s
    → s.waiting ≡ pre ++ w ∷ post
    → barrier_waits s.bar w ≡ false
    → w.round * s.bar.need + s.bar.need ≤ s.arrived
barrier_leave-arrived n {s} pre post w h same free =
    let v = BarHistory-IsRound n h in
    let (here, rest) =
      All-without (Counted s.bar) pre post w (subst (All (Counted s.bar)) same v.counted) in
    let old = leaves_old s.bar w here free in
    omega (arith, v.total, rounds_le w.round s.bar.round s.bar.need old)

old_free : (b : BarRec) (w : BarWaiter) → w.round < b.round → barrier_waits b w ≡ false
unfolding barrier_waits
old_free b w h = ground arith

product_le : (k r n : ℕ) → k ≤ r → k * n ≤ r * n
product_le k r n h = grind arith

rounds_lt : (r k n s : ℕ) → s < n → r * n + n ≤ k * n + s → r < k
rounds_lt r k n s lt h = elim (dec_lt r k) [
  | yes below ↦ below
  | no above ↦ let at_most : k ≤ r = omega arith in absurd (omega (arith, product_le k r n at_most))
]

-- In every history of a barrier, a thread that waits finds the test of the wait loop false as soon as
-- `need` threads for each of the rounds up to its own have arrived, whatever has happened since.
pub barrier_arrived-frees :
    (n : ℤ) {s : BarState} (pre post : List BarWaiter) (w : BarWaiter)
    → BarHistory n s
    → s.waiting ≡ pre ++ w ∷ post
    → w.round * s.bar.need + s.bar.need ≤ s.arrived
    → barrier_waits s.bar w ≡ false
barrier_arrived-frees n {s} pre post w h same all =
    let v = BarHistory-IsRound n h in
    old_free s.bar w
      (rounds_lt w.round s.bar.round s.bar.need s.bar.seen v.room (omega (arith, v.total)))
