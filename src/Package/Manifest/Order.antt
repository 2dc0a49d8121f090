-- ===== src/Package/Manifest/Order.antt =====
-- `pkg_version_cmp` of src/hphpc/pkgcore.c as an order.
use holyphp.Prelude.{
  Bool-cases, Bytes, List, Option-cases, [], ap, arith, if◌then◌else◌, inl, inr, length,
  length-replicate, refl, suc, sym, zero, ℕ, ◌<◌, ◌==◌, ◌↔◌, ◌∙◌, ◌∷◌, ◌≡◌, ◌⊎◌,
}
use holyphp.Prelude.Int.{ltb_ℤ, negsuc, pos, ℤ}
use holyphp.Runtime.Str.{Sign, less, more, opposite, same}
use holyphp.Runtime.Value.{eq_ℤ}
use holyphp.Package.Manifest.{compare_parts, pkg_version_cmp, scan_long, version_parts}

abbrev sign : ℤ → ℤ → Sign
sign a b = if eq_ℤ a b then same else if ltb_ℤ a b then less else more

abbrev then_sign : Sign → Sign → Sign
then_sign less s = less
then_sign same s = s
then_sign more s = more

sign-flip : (a b : ℤ) → sign b a ≡ opposite (sign a b)
sign-flip (pos m) (pos n) = ground arith
sign-flip (pos m) (negsuc n) = ground arith
sign-flip (negsuc m) (pos n) = ground arith
sign-flip (negsuc m) (negsuc n) = ground arith

sign_same : (a b : ℤ) → sign a b ≡ same → a ≡ b
sign_same (pos m) (pos n) h = ground arith
sign_same (pos m) (negsuc n) h = ground arith
sign_same (negsuc m) (pos n) h = ground arith
sign_same (negsuc m) (negsuc n) h = ground arith

sign_trans : (a b c : ℤ) → sign a b ≡ less → sign b c ≡ less → sign a c ≡ less
sign_trans (pos m) (pos n) (pos k) h g = ground arith
sign_trans (negsuc m) (negsuc n) (negsuc k) h g = ground arith
sign_trans (negsuc m) (negsuc n) (pos k) h g = ground arith
sign_trans (negsuc m) (pos n) (pos k) h g = ground arith
sign_trans a b c h g = ground arith

parts_cons :
    (a b : ℤ) (r t : List ℤ)
    → compare_parts (a ∷ r) (b ∷ t) ≡ then_sign (sign a b) (compare_parts r t)
unfolding compare_parts
parts_cons a b r t = elim (Bool-cases (eq_ℤ a b)) [
  | inl e ↦ rw e refl
  | inr e ↦ elim (Bool-cases (ltb_ℤ a b)) [ inl f ↦ rw (e, f) refl | inr f ↦ rw (e, f) refl ]
]

then_flip : (s t : Sign) → opposite (then_sign s t) ≡ then_sign (opposite s) (opposite t)
then_flip less t = refl
then_flip same t = refl
then_flip more t = refl

parts-flip : (r t : List ℤ) → length r ≡ length t → compare_parts t r ≡ opposite (compare_parts r t)
unfolding compare_parts
parts-flip [] [] h = refl
parts-flip [] (b ∷ t) h = absurd (omega arith)
parts-flip (a ∷ r) [] h = absurd (omega arith)
parts-flip (a ∷ r) (b ∷ t) h =
    parts_cons b a t r
    ∙ ap (λ s. then_sign s (compare_parts t r)) (sign-flip a b)
    ∙ ap (then_sign (opposite (sign a b))) (parts-flip r t (omega arith))
    ∙ sym (then_flip (sign a b) (compare_parts r t))
    ∙ ap opposite (sym (parts_cons a b r t))

parts_same : (r t : List ℤ) → length r ≡ length t → compare_parts r t ≡ same → r ≡ t
unfolding compare_parts
parts_same [] [] h e = refl
parts_same [] (b ∷ t) h e = absurd (omega arith)
parts_same (a ∷ r) [] h e = absurd (omega arith)
parts_same (a ∷ r) (b ∷ t) h e =
    heads (parts_same r t (omega arith)) (sign a b) refl (sym (parts_cons a b r t) ∙ e)
  where
    heads :
        (compare_parts r t ≡ same → r ≡ t)
        → (s : Sign) → sign a b ≡ s
        → then_sign s (compare_parts r t) ≡ same
        → a ∷ r ≡ b ∷ t
    heads tails less at f = absurd (cc)
    heads tails more at f = absurd (cc)
    heads tails same at f = let head_eq = sign_same a b at in let tail_eq = tails f in cc

-- A first difference decides.
parts_trans :
    (r t u : List ℤ)
    → compare_parts r t ≡ less
    → compare_parts t u ≡ less
    → compare_parts r u ≡ less
unfolding compare_parts
parts_trans [] t u h g = absurd (cc)
parts_trans (a ∷ r) [] u h g = absurd (cc)
parts_trans (a ∷ r) (b ∷ t) [] h g = absurd (cc)
parts_trans (a ∷ r) (b ∷ t) (c ∷ u) h g =
    parts_cons a c r u
    ∙ firsts (parts_trans r t u) (sign a b) refl (sign b c) refl (sym (parts_cons a b r t) ∙ h)
        (sym (parts_cons b c t u) ∙ g)
  where
    firsts :
        (compare_parts r t ≡ less → compare_parts t u ≡ less → compare_parts r u ≡ less)
        → (s : Sign) → sign a b ≡ s
        → (s' : Sign) → sign b c ≡ s'
        → then_sign s (compare_parts r t) ≡ less
        → then_sign s' (compare_parts t u) ≡ less
        → then_sign (sign a c) (compare_parts r u) ≡ less
    firsts tails less at less at' f f' = rw (sign_trans a b c at at') refl
    firsts tails less at same at' f f' = rw (← sign_same b c at', at) refl
    firsts tails same at less at' f f' = rw (sign_same a b at, at') refl
    firsts tails same at same at' f f' = rw (sign_same a b at, at') (tails f f')
    firsts tails more at s' at' f f' = absurd (cc)
    firsts tails s at more at' f f' = absurd (cc)

sign_self : (a : ℤ) → sign a a ≡ same
sign_self (pos m) = ground arith
sign_self (negsuc m) = ground arith

parts_self : (r : List ℤ) → compare_parts r r ≡ same
unfolding compare_parts
parts_self [] = refl
parts_self (a ∷ r) =
    parts_cons a a r r ∙ ap (λ s. then_sign s (compare_parts r r)) (sign_self a) ∙ parts_self r

length-version_parts : (n : ℕ) (s : Bytes) → length (version_parts n s) ≡ n
unfolding version_parts
length-version_parts zero s = refl
length-version_parts (suc n) s = elim (Option-cases (scan_long s)) [
  | inl e ↦ rw (version_parts, e) (ap suc (length-replicate n (pos 0)))
  | inr ((v, []), e) ↦ rw (version_parts, e) (ap suc (length-replicate n (pos 0)))
  | inr ((v, c ∷ t), e) ↦ elim (Bool-cases (c == b'.')) [
    | inl f ↦ rw (version_parts, e, f) (ap suc (length-version_parts n t))
    | inr f ↦ rw (version_parts, e, f) (ap suc (length-replicate n (pos 0)))
  ]
]

-- The order of the integers.
abbrev pub IsLess : ℤ → ℤ → Type 0
IsLess (pos m) (pos n) = m < n
IsLess (pos m) (negsuc n) = ⊥
IsLess (negsuc m) (pos n) = Unit
IsLess (negsuc m) (negsuc n) = n < m

-- The first numbers that differ decide, and the smaller one is older.
abbrev pub IsOlder : List ℤ → List ℤ → Type 0
IsOlder [] bs = ⊥
IsOlder (a ∷ r) [] = ⊥
IsOlder (a ∷ r) (b ∷ t) = IsLess a b ⊎ ((a ≡ b) × IsOlder r t)

sign-IsLess : (a b : ℤ) → sign a b ≡ less → IsLess a b
sign-IsLess (pos m) (pos n) h = ground arith
sign-IsLess (pos m) (negsuc n) h = ground arith
sign-IsLess (negsuc m) (pos n) h = tt
sign-IsLess (negsuc m) (negsuc n) h = ground arith

IsLess-sign : (a b : ℤ) → IsLess a b → sign a b ≡ less
IsLess-sign (pos m) (pos n) h = ground arith
IsLess-sign (pos m) (negsuc n) h = absurd h
IsLess-sign (negsuc m) (pos n) h = ground arith
IsLess-sign (negsuc m) (negsuc n) h = ground arith

compare_parts-IsOlder : (r t : List ℤ) → compare_parts r t ≡ less → IsOlder r t
unfolding compare_parts
compare_parts-IsOlder [] t h = absurd (cc)
compare_parts-IsOlder (a ∷ r) [] h = absurd (cc)
compare_parts-IsOlder (a ∷ r) (b ∷ t) h =
    first (compare_parts-IsOlder r t) (sign a b) refl (sym (parts_cons a b r t) ∙ h)
  where
    first :
        (compare_parts r t ≡ less → IsOlder r t)
        → (s : Sign) → sign a b ≡ s
        → then_sign s (compare_parts r t) ≡ less
        → IsOlder (a ∷ r) (b ∷ t)
    first tails less at f = inl (sign-IsLess a b at)
    first tails same at f = inr (sign_same a b at, tails f)
    first tails more at f = absurd (cc)

IsOlder-compare_parts : (r t : List ℤ) → IsOlder r t → compare_parts r t ≡ less
IsOlder-compare_parts [] t h = absurd h
IsOlder-compare_parts (a ∷ r) [] h = absurd h
IsOlder-compare_parts (a ∷ r) (b ∷ t) (inl lt) =
    parts_cons a b r t ∙ ap (λ s. then_sign s (compare_parts r t)) (IsLess-sign a b lt)
IsOlder-compare_parts (a ∷ r) (b ∷ t) (inr (eq, older)) =
    parts_cons a b r t
    ∙ ap (λ s. then_sign s (compare_parts r t)) (ap (sign a) (sym eq) ∙ sign_self a)
    ∙ IsOlder-compare_parts r t older

same_length : (a b : Bytes) → length (version_parts 3 a) ≡ length (version_parts 3 b)
same_length a b = length-version_parts 3 a ∙ sym (length-version_parts 3 b)

-- Comparing two versions the other way round gives the opposite sign.
pkg_version_cmp-flip : (a b : Bytes) → pkg_version_cmp b a ≡ opposite (pkg_version_cmp a b)
unfolding pkg_version_cmp
pkg_version_cmp-flip a b = parts-flip (version_parts 3 a) (version_parts 3 b) (same_length a b)

-- Two versions compare as equal exactly where the three numbers read from them are equal.
pkg_version_cmp_same :
    (a b : Bytes) → (pkg_version_cmp a b ≡ same) ↔ (version_parts 3 a ≡ version_parts 3 b)
unfolding pkg_version_cmp
pkg_version_cmp_same a b = (
  parts_same (version_parts 3 a) (version_parts 3 b) (same_length a b),
  λ e. rw e (parts_self (version_parts 3 b)),
)

-- If `a` is older than `b` and `b` older than `c`, then `a` is older than `c`.
pkg_version_cmp_trans :
    (a b c : Bytes)
    → pkg_version_cmp a b ≡ less
    → pkg_version_cmp b c ≡ less
    → pkg_version_cmp a c ≡ less
unfolding pkg_version_cmp
pkg_version_cmp_trans a b c =
    parts_trans (version_parts 3 a) (version_parts 3 b) (version_parts 3 c)

-- `pkg_version_cmp` gives -1 exactly where the first of the three numbers that differ is smaller in the
-- first version, and 0 exactly where the three numbers are equal. The other way round it gives the
-- opposite sign, and being older is transitive.
pub pkg_version_cmp_order :
    (a b c : Bytes)
    → ((pkg_version_cmp a b ≡ less) ↔ IsOlder (version_parts 3 a) (version_parts 3 b))
      × ((pkg_version_cmp a b ≡ same) ↔ (version_parts 3 a ≡ version_parts 3 b))
      × (pkg_version_cmp b a ≡ opposite (pkg_version_cmp a b))
      × (pkg_version_cmp a b ≡ less → pkg_version_cmp b c ≡ less → pkg_version_cmp a c ≡ less)
unfolding pkg_version_cmp
pkg_version_cmp_order a b c = (
  (
    compare_parts-IsOlder (version_parts 3 a) (version_parts 3 b),
    IsOlder-compare_parts (version_parts 3 a) (version_parts 3 b),
  ),
  pkg_version_cmp_same a b,
  pkg_version_cmp-flip a b,
  pkg_version_cmp_trans a b c,
)
