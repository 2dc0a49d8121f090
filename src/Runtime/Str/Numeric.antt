-- ===== src/Runtime/Str/Numeric.antt =====
-- `hp_str_is_numeric` of src/hphpc/runtime/hphp_rt.c. The index is the rest of the string.
use holyphp.Prelude.{
  Bool, Bool-cases, Bytes, [], all_bytes, arith, false, if◌then◌else◌, inl, inr, is_digit, is_space,
  length, length-append, ltb, refl, skip_bytes, true, ℕ, ◌&&◌, ◌++◌, ◌==◌, ◌||◌, ◌∙◌, ◌∷◌, ◌≡◌,
}

-- A sign that may stand there.
abbrev pub unsign : Bytes → Bytes
unsign [] = []
unsign (c ∷ s) = if c == b'+' || c == b'-' then s else c ∷ s

abbrev pub shorter : Bytes → Bytes → Bool
shorter r s = ltb (length r) (length s)

-- The fraction behind the digits; whether there was a digit so far, and the rest.
unfoldable pub fraction : Bool → Bytes → Bool × Bytes
unfolding skip_bytes
fraction digits [] = (digits, [])
fraction digits (c ∷ s) =
    let rest = skip_bytes is_digit s in
    if c == b'.' then (digits || shorter rest s, rest) else (digits, c ∷ s)

-- An exponent without a digit is left where it is.
unfoldable pub exponent_part : Bytes → Bytes
unfolding skip_bytes
exponent_part [] = []
exponent_part (c ∷ s) =
    let t = unsign s in
    let rest = skip_bytes is_digit t in
    if (c == b'e' || c == b'E') && shorter rest t then rest else c ∷ s

abbrev pub is_nil : Bytes → Bool
is_nil [] = true
is_nil (c ∷ s) = false

unfoldable pub hp_str_is_numeric : Bytes → Bool
unfolding skip_bytes fraction exponent_part
hp_str_is_numeric s =
    let whole = unsign (skip_bytes is_space s) in
    let rest = skip_bytes is_digit whole in
    let number = fraction (shorter rest whole) rest in
    number.0 && is_nil (skip_bytes is_space (exponent_part number.1))

skip_prefix :
    (ok : ℕ → Bool) (l s : Bytes) → all_bytes ok l ≡ true → skip_bytes ok (l ++ s) ≡ skip_bytes ok s
unfolding all_bytes skip_bytes
skip_prefix ok [] s h = refl
skip_prefix ok (c ∷ l) s h = elim (Bool-cases (ok c)) [
  | inl e ↦ rw e (skip_prefix ok l s (ground arith))
  | inr e ↦ absurd (ground arith)
]

-- Blanks around digits hide nothing: no digit is a blank, and no blank a digit, a point or an exponent.
skip_blank :
    (t : Bytes)
    → all_bytes is_space t ≡ true
    → (skip_bytes is_digit t ≡ t)
      × ((b : Bool) → fraction b t ≡ (b, t))
      × (exponent_part t ≡ t)
      × (skip_bytes is_space t ≡ [])
unfolding all_bytes skip_bytes fraction exponent_part
skip_blank [] h = (refl, λ b. refl, refl, refl)
skip_blank (c ∷ t) h = elim (Bool-cases (is_space c)) [
  | inr e ↦ absurd (ground arith)
  | inl e ↦
      let no_digit : is_digit c ≡ false = ground arith in
      let no_point : (c == b'.') ≡ false = ground arith in
      let no_lower : (c == b'e') ≡ false = ground arith in
      let no_upper : (c == b'E') ≡ false = ground arith in
      (
        rw no_digit refl,
        λ b. rw no_point refl,
        rw (no_lower, no_upper) refl,
        rw e (skip_blank t (ground arith)).3,
      )
]

-- At a digit neither blanks nor a sign are skipped.
at_digit : (c : ℕ) (s : Bytes) → is_digit c ≡ true → unsign (skip_bytes is_space (c ∷ s)) ≡ c ∷ s
unfolding skip_bytes
at_digit c s h =
    let solid : is_space c ≡ false = ground arith in
    let bare : (c == b'+' || c == b'-') ≡ false = ground arith in rw (solid, bare) refl

digit_head : (c : ℕ) (d : Bytes) → all_bytes is_digit (c ∷ d) ≡ true → is_digit c ≡ true
unfolding all_bytes
digit_head c d h = elim (Bool-cases (is_digit c)) [ inl e ↦ e | inr e ↦ absurd (ground arith) ]

-- Digits, at least one, with blanks or nothing on both sides are numeric.
hp_str_is_numeric_digits :
    (l t d : Bytes) (c : ℕ)
    → all_bytes is_space l ≡ true
    → all_bytes is_digit (c ∷ d) ≡ true
    → all_bytes is_space t ≡ true
    → hp_str_is_numeric (l ++ ((c ∷ d) ++ t)) ≡ true
unfolding hp_str_is_numeric
hp_str_is_numeric_digits l t d c blank_l digits blank_t =
    let (no_digit, no_point, no_exponent, blanks) = skip_blank t blank_t in
    let whole = (c ∷ d) ++ t in
    let behind = skip_prefix is_digit (c ∷ d) t digits ∙ no_digit in
    let less : shorter t whole ≡ true = ground (arith, length-append (c ∷ d) t) in
    rw
      (
        skip_prefix is_space l whole blank_l,
        at_digit c (d ++ t) (digit_head c d digits),
        behind,
        less,
        no_point true,
        no_exponent,
        blanks,
      )
      refl
