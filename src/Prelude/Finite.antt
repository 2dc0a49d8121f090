-- ===== src/Prelude/Finite.antt =====
-- Tests of all numbers below a bound.
use Prim.Native.Nat.{ℕ, zero, suc, ◌<◌}
use mathlib.Core.Path.{◌≡◌}
use mathlib.Core.Logic.{inl, inr}
use mathlib.Core.Bool.{Bool, true, ◌&&◌}
use native.Mathlib.Omega.{arith}
use holyphp.Prelude.Tests.{Bool-cases, ◌==◌}

-- A test that holds for every number below `n`.
unfoldable pub all_below : ℕ → (ℕ → Bool) → Bool
all_below zero p = true
all_below (suc n) p = p n && all_below n p

pub all_below_lem : (n : ℕ) (p : ℕ → Bool) → all_below n p ≡ true → (k : ℕ) → k < n → p k ≡ true
unfolding all_below
all_below_lem zero p h k lt = absurd (omega arith)
all_below_lem (suc n) p h k lt = elim (Bool-cases (p n)) [
  | inr e ↦ absurd (ground arith)
  | inl e ↦ elim (Bool-cases (k == n)) [
    | inl same ↦ let at_n : k ≡ n = ground arith in rw at_n e
    | inr other ↦ all_below_lem n p (ground arith) k (ground arith)
  ]
]
