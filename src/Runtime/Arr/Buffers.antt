-- ===== src/Runtime/Arr/Buffers.antt =====
-- Lemmas on the buffers of an array: what a write leaves, and prefixes of a buffer.
use holyphp.Prelude.{
  List, [], ap, arith, get_or, length, refl, suc, take, zero, ℕ, ◌++◌, ◌+◌, ◌<◌, ◌∷◌, ◌≡◌, ◌≢◌, ◌≤◌,
}
use holyphp.Runtime.Value.{Hval}
use holyphp.Runtime.Arr.Ops.{write}

pub length-take-le : {D : Type 0} (n : ℕ) (xs : List (Hval D)) → length (take n xs) ≤ n
length-take-le zero xs = omega arith
length-take-le (suc n) [] = omega arith
length-take-le (suc n) (x ∷ xs) = omega (arith, length-take-le n xs)

module _ {D : Type 0} (junk : Hval D) where
  pub write_self : (xs : List (Hval D)) (i : ℕ) (v d : Hval D) → get_or (write junk xs i v) i d ≡ v
  unfolding write
  write_self [] zero v d = refl
  write_self [] (suc i) v d = write_self [] i v d
  write_self (x ∷ xs) zero v d = refl
  write_self (x ∷ xs) (suc i) v d = write_self xs i v d

  pub write_other :
      (xs : List (Hval D)) (i j : ℕ) (v d : Hval D)
      → i ≢ j
      → j < length xs
      → get_or (write junk xs i v) j d ≡ get_or xs j d
  unfolding write
  write_other [] i j v d ne lt = absurd (omega arith)
  write_other (x ∷ xs) zero zero v d ne lt = absurd (ne refl)
  write_other (x ∷ xs) zero (suc j) v d ne lt = refl
  write_other (x ∷ xs) (suc i) zero v d ne lt = refl
  write_other (x ∷ xs) (suc i) (suc j) v d ne lt =
      write_other xs i j v d (λ e. ne (ap suc e)) (omega arith)

  pub take-write :
      (xs : List (Hval D)) (n : ℕ) (v : Hval D)
      → n ≤ length xs
      → take (n + 1) (write junk xs n v) ≡ take n xs ++ v ∷ []
  unfolding write
  take-write [] zero v h = ground arith
  take-write [] (suc n) v h = absurd (omega arith)
  take-write (x ∷ xs) zero v h = ground arith
  take-write (x ∷ xs) (suc n) v h =
      let e : suc n + 1 ≡ suc (n + 1) = omega arith in
      rw e (ap (λ r. x ∷ r) (take-write xs n v (omega arith)))

  pub length-write-ge :
      (xs : List (Hval D)) (i : ℕ) (v : Hval D) → length xs ≤ length (write junk xs i v)
  unfolding write
  length-write-ge [] i v = omega arith
  length-write-ge (x ∷ xs) zero v = omega arith
  length-write-ge (x ∷ xs) (suc i) v = omega (arith, length-write-ge xs i v)

  pub length-write-gt : (xs : List (Hval D)) (i : ℕ) (v : Hval D) → i < length (write junk xs i v)
  unfolding write
  length-write-gt [] zero v = omega arith
  length-write-gt [] (suc i) v = omega (arith, length-write-gt [] i v)
  length-write-gt (x ∷ xs) zero v = omega arith
  length-write-gt (x ∷ xs) (suc i) v = omega (arith, length-write-gt xs i v)

  pub get_or-take :
      (xs : List (Hval D)) (n i : ℕ) → i < n → get_or (take n xs) i junk ≡ get_or xs i junk
  get_or-take [] zero i h = refl
  get_or-take [] (suc n) i h = refl
  get_or-take (x ∷ xs) zero i h = absurd (omega arith)
  get_or-take (x ∷ xs) (suc n) zero h = refl
  get_or-take (x ∷ xs) (suc n) (suc i) h = get_or-take xs n i (omega arith)
