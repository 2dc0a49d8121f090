-- ===== src/Package/Hpx/Text.antt =====
-- What `pkg_extract` of src/hphpc/pkgcore.c needs of `strtoull`, `%zu`, `memchr` and `strchr`.
use holyphp.Prelude.{
  Bool, Bool-cases, Bytes, [], all_bytes, ap, arith, false, inl, inr, is_digit, is_space, length,
  ltb, min, not, refl, skip_bytes, some, suc, take, true, zero, ℕ, ◌%◌, ◌*◌, ◌++◌, ◌+◌, ◌-◌, ◌/◌,
  ◌<◌, ◌==◌, ◌^◌, ◌∙◌, ◌∷◌, ◌≡◌, ◌≤◌,
}
use holyphp.Lexer.Cursor.{c_string}
use holyphp.Lexer.Number.{digit_value, digits_value}
use holyphp.Package.Hpx.{decimal, emit, signed_u64, split_at, strtoull, to_u64}

-- `c` stands nowhere in the text.
abbrev pub IsFree : ℕ → Bytes → Type 0
IsFree c s = all_bytes (λ d. not (d == c)) s ≡ true

abbrev pow10 : ℕ → ℕ
pow10 zero = 1
pow10 (suc k) = pow10 k * 10

emit_value :
    (fuel n : ℕ) (out : Bytes)
    → n < pow10 fuel
    → digits_value 10 0 (emit fuel n out) ≡ digits_value 10 n out
unfolding emit digits_value digit_value
emit_value zero n out h = let e : n ≡ 0 = omega arith in rw e refl
emit_value (suc fuel) n out h = elim (Bool-cases (ltb n 10)) [
  | inl e ↦ rw e (ap (λ m. digits_value 10 m out) (ground arith))
  | inr e ↦
      let last : (n / 10 * 10 + digit_value (b'0' + n % 10)) ≡ n = ground arith in
      rw e (
        emit_value fuel (n / 10) ((b'0' + n % 10) ∷ out) (omega arith)
        ∙ ap (λ m. digits_value 10 m out) last)
]

emit_digits :
    (fuel n : ℕ) (out : Bytes)
    → all_bytes is_digit out ≡ true
    → all_bytes is_digit (emit fuel n out) ≡ true
unfolding emit all_bytes
emit_digits zero n out h = h
emit_digits (suc fuel) n out h =
    let one : all_bytes is_digit ((b'0' + n % 10) ∷ out) ≡ true = ground arith in
    elim (Bool-cases (ltb n 10)) [
      | inl e ↦ rw e one
      | inr e ↦ rw e (emit_digits fuel (n / 10) ((b'0' + n % 10) ∷ out) one)
    ]

length-emit : (fuel n : ℕ) (out : Bytes) → length (emit fuel n out) ≤ fuel + length out
unfolding emit
length-emit zero n out = omega arith
length-emit (suc fuel) n out = elim (Bool-cases (ltb n 10)) [
  | inl e ↦ rw e (omega arith)
  | inr e ↦ rw e (omega (arith, length-emit fuel (n / 10) ((b'0' + n % 10) ∷ out)))
]

emit-ne-nil : (fuel n : ℕ) (out : Bytes) → 0 < length out → 0 < length (emit fuel n out)
unfolding emit
emit-ne-nil zero n out h = h
emit-ne-nil (suc fuel) n out h = elim (Bool-cases (ltb n 10)) [
  | inl e ↦ rw e (omega arith)
  | inr e ↦ rw e (emit-ne-nil fuel (n / 10) ((b'0' + n % 10) ∷ out) (omega arith))
]

all_bytes_skip : (ok : ℕ → Bool) (s : Bytes) → all_bytes ok s ≡ true → skip_bytes ok s ≡ []
unfolding all_bytes skip_bytes
all_bytes_skip ok [] h = refl
all_bytes_skip ok (c ∷ s) h = elim (Bool-cases (ok c)) [
  | inl e ↦ rw e (all_bytes_skip ok s (ground arith))
  | inr e ↦ absurd (ground arith)
]

take_all : (s : Bytes) → take (length s) s ≡ s
take_all [] = refl
take_all (c ∷ s) = ap (λ t. c ∷ t) (take_all s)

to_u64_digits :
    (s : Bytes) → all_bytes is_digit s ≡ true → to_u64 s ≡ min (digits_value 10 0 s) (2 ^ 64 - 1)
unfolding to_u64
to_u64_digits s h =
    let all : length s - length (skip_bytes is_digit s) ≡ length s =
      rw (all_bytes_skip is_digit s h) (omega arith) in
    ap (λ n. min (digits_value 10 0 (take n s)) (2 ^ 64 - 1)) all
    ∙ ap (λ t. min (digits_value 10 0 t) (2 ^ 64 - 1)) (take_all s)

skip_stop : (ok : ℕ → Bool) (c : ℕ) (s : Bytes) → ok c ≡ false → skip_bytes ok (c ∷ s) ≡ c ∷ s
unfolding skip_bytes
skip_stop ok c s h = rw h refl

signed_plain :
    (c : ℕ) (s : Bytes)
    → (c == b'-') ≡ false
    → (c == b'+') ≡ false
    → signed_u64 (c ∷ s) ≡ to_u64 (c ∷ s)
unfolding signed_u64
signed_plain c s h g = rw (h, g) refl

pub all_head :
    (ok : ℕ → Bool) (c : ℕ) (s : Bytes)
    → all_bytes ok (c ∷ s) ≡ true
    → (ok c ≡ true) × (all_bytes ok s ≡ true)
unfolding all_bytes
all_head ok c s h = elim (Bool-cases (ok c)) [
  | inl e ↦ (e, ground arith)
  | inr e ↦ absurd (ground arith)
]

digit_plain :
    (c : ℕ)
    → is_digit c ≡ true
    → (is_space c ≡ false) × ((c == b'-') ≡ false) × ((c == b'+') ≡ false)
digit_plain c h = ground arith

strtoull_digits :
    (s : Bytes)
    → 0 < length s
    → all_bytes is_digit s ≡ true
    → strtoull s ≡ min (digits_value 10 0 s) (2 ^ 64 - 1)
unfolding strtoull
strtoull_digits [] h d = absurd (omega arith)
strtoull_digits (c ∷ s) h d =
    let (solid, plain, bare) = digit_plain c (all_head is_digit c s d).0 in
    ap signed_u64 (skip_stop is_space c s solid)
    ∙ signed_plain c s plain bare
    ∙ to_u64_digits (c ∷ s) d

emit_positive : (fuel n : ℕ) (out : Bytes) → 0 < length (emit (suc fuel) n out)
unfolding emit
emit_positive fuel n out = elim (Bool-cases (ltb n 10)) [
  | inl e ↦ rw e (omega arith)
  | inr e ↦ rw e (emit-ne-nil fuel (n / 10) ((b'0' + n % 10) ∷ out) (omega arith))
]

no_bytes : (ok : ℕ → Bool) → all_bytes ok [] ≡ true
unfolding all_bytes
no_bytes ok = refl

-- What is used of a decimal print.
abbrev pub IsDecimal : ℕ → Bytes → Type 0
IsDecimal n s =
    (all_bytes is_digit s ≡ true) × (0 < length s) × (length s ≤ 20) × (digits_value 10 0 s ≡ n)

no_digits : (n : ℕ) → digits_value 10 n [] ≡ n
unfolding digits_value
no_digits n = refl

emit-IsDecimal : (n : ℕ) → n < 2 ^ 64 → IsDecimal n (emit 20 n [])
emit-IsDecimal n h = (
  emit_digits 20 n [] (no_bytes is_digit),
  emit_positive 19 n [],
  omega (arith, length-emit 20 n []),
  emit_value 20 n [] (omega arith) ∙ no_digits n,
)

pub decimal-IsDecimal : (n : ℕ) → n < 2 ^ 64 → IsDecimal n (decimal n)
unfolding decimal
decimal-IsDecimal n h = emit-IsDecimal n h

pub strtoull-IsDecimal : (n : ℕ) (s : Bytes) → n < 2 ^ 64 → IsDecimal n s → strtoull s ≡ n
strtoull-IsDecimal n s h (digits, positive, short, value) =
    strtoull_digits s positive digits ∙ ap (λ v. min v (2 ^ 64 - 1)) value ∙ omega arith

pub split_at_free : (c : ℕ) (s t : Bytes) → IsFree c s → split_at c (s ++ c ∷ t) ≡ some (s, t)
unfolding split_at all_bytes
split_at_free c [] t h = ground arith
split_at_free c (d ∷ s) t h =
    let other : (d == c) ≡ false = ground arith in
    rw (other, split_at_free c s t (ground arith)) refl

pub all_bytes-append :
    (ok : ℕ → Bool) (s t : Bytes)
    → all_bytes ok s ≡ true
    → all_bytes ok t ≡ true
    → all_bytes ok (s ++ t) ≡ true
unfolding all_bytes
all_bytes-append ok [] t h g = g
all_bytes-append ok (c ∷ s) t h g = elim (Bool-cases (ok c)) [
  | inl e ↦ rw e (all_bytes-append ok s t (ground arith) g)
  | inr e ↦ absurd (ground arith)
]

-- Digits are free of any byte that is no digit.
pub digits-IsFree :
    (c : ℕ) (s : Bytes) → is_digit c ≡ false → all_bytes is_digit s ≡ true → IsFree c s
unfolding all_bytes
digits-IsFree c [] h d = refl
digits-IsFree c (b ∷ s) h d =
    let one : not (b == c) ≡ true = ground arith in rw one (digits-IsFree c s h (ground arith))

pub c_string_free : (s : Bytes) → IsFree 0 s → c_string s ≡ s
unfolding all_bytes c_string
c_string_free [] h = refl
c_string_free (c ∷ s) h =
    let one : (c == 0) ≡ false = ground arith in rw (one, c_string_free s (ground arith)) refl
