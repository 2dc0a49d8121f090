-- ===== src/Runtime/Str/Trim.antt =====
-- `hp_str_trim` of src/hphpc/runtime/hphp_rt.c and the blanks at both ends of a string.
use holyphp.Prelude.{
  All, Bool-cases, Bytes, [], ap, false, inl, inr, refl, true, ℕ, ◌++◌, ◌∙◌, ◌∷◌, ◌≡◌,
}
use holyphp.Runtime.Str.{hp_str_trim, is_ws, keep, trim_left, trim_right}

abbrev pub Blank : Bytes → Type 0
Blank = All (λ c. is_ws c ≡ true)

-- The first byte, or the last one, is no blank.
abbrev pub StartsClean : Bytes → Type 0
StartsClean [] = Unit
StartsClean (c ∷ s) = is_ws c ≡ false

abbrev pub EndsClean : Bytes → Type 0
EndsClean [] = Unit
EndsClean (c ∷ []) = is_ws c ≡ false
EndsClean (c ∷ d ∷ s) = EndsClean (d ∷ s)

trim_left_lem :
    (s : Bytes) → (l : Bytes) × Blank l × (s ≡ l ++ trim_left s) × StartsClean (trim_left s)
unfolding trim_left
trim_left_lem [] = ([], tt, refl, tt)
trim_left_lem (c ∷ s) =
    let (l, blank, e, clean) = trim_left_lem s in
    elim (Bool-cases (is_ws c)) [
      | inl w ↦ rw w (c ∷ l, (w, blank), ap (λ r. c ∷ r) e, clean)
      | inr w ↦ rw w ([], tt, refl, w)
    ]

keep-EndsClean : (c : ℕ) (r : Bytes) → EndsClean r → EndsClean (keep c r)
keep-EndsClean c [] h = elim (Bool-cases (is_ws c)) [ inl w ↦ rw w tt | inr w ↦ rw w w ]
keep-EndsClean c (d ∷ r) h = h

keep_parts :
    (c : ℕ) (s r t : Bytes)
    → Blank t
    → s ≡ r ++ t
    → (t' : Bytes) × Blank t' × (c ∷ s ≡ keep c r ++ t')
keep_parts c s [] t blank e = elim (Bool-cases (is_ws c)) [
  | inl w ↦ rw w (c ∷ t, (w, blank), ap (λ x. c ∷ x) e)
  | inr w ↦ rw w (t, blank, ap (λ x. c ∷ x) e)
]
keep_parts c s (d ∷ r) t blank e = (t, blank, ap (λ x. c ∷ x) e)

trim_right_lem :
    (s : Bytes) → (t : Bytes) × Blank t × (s ≡ trim_right s ++ t) × EndsClean (trim_right s)
unfolding trim_right
trim_right_lem [] = ([], tt, refl, tt)
trim_right_lem (c ∷ s) =
    let (t, blank, e, clean) = trim_right_lem s in
    let (t', blank', e') = keep_parts c s (trim_right s) t blank e in
    (t', blank', e', keep-EndsClean c (trim_right s) clean)

keep-StartsClean : (c : ℕ) (r : Bytes) → is_ws c ≡ false → StartsClean (keep c r)
keep-StartsClean c [] h = rw h h
keep-StartsClean c (d ∷ r) h = h

trim_right-StartsClean : (s : Bytes) → StartsClean s → StartsClean (trim_right s)
unfolding trim_right
trim_right-StartsClean [] h = tt
trim_right-StartsClean (c ∷ s) h = keep-StartsClean c (trim_right s) h

-- A string is blanks, its trimmed form and blanks again, and the trimmed form neither begins nor ends
-- with a blank.
pub hp_str_trim_lem :
    (s : Bytes)
    → (l t : Bytes) × Blank l
      × Blank t
      × (s ≡ l ++ (hp_str_trim s ++ t))
      × StartsClean (hp_str_trim s)
      × EndsClean (hp_str_trim s)
unfolding hp_str_trim
hp_str_trim_lem s =
    let (l, blank_l, e, clean) = trim_left_lem s in
    let (t, blank_t, f, ends) = trim_right_lem (trim_left s) in
    (
      l,
      t,
      blank_l,
      blank_t,
      e ∙ ap (λ x. l ++ x) f,
      trim_right-StartsClean (trim_left s) clean,
      ends,
    )
