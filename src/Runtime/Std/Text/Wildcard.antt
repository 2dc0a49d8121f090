-- ===== src/Runtime/Std/Text/Wildcard.antt =====
-- `wc_match` of src/hphpc/runtime/hphp_std.c, the matcher of `glob`, and what a pattern means.
use mathlib.Core.Path.{subst}
use holyphp.Prelude.{
  Bool, Bool-cases, Bytes, [], ap, append-nil, arith, false, if◌then◌else◌, inl, inr, not, refl,
  sym, true, ℕ, ◌&&◌, ◌++◌, ◌==◌, ◌||◌, ◌↔◌, ◌∙◌, ◌∷◌, ◌≡◌,
}

-- The loop over `t`: the string, or what is left of it behind some bytes, down to its end.
abbrev pub any_suffix : (Bytes → Bool) → Bytes → Bool
any_suffix f [] = f []
any_suffix f (c ∷ s) = f (c ∷ s) || any_suffix f s

abbrev pub is_end : Bytes → Bool
is_end [] = true
is_end (c ∷ s) = false

-- One byte of a pattern against the string, with what the rest of the pattern says.
abbrev pub one_byte : ℕ → (Bytes → Bool) → Bytes → Bool
one_byte c rest [] = false
one_byte c rest (d ∷ s) = if not (c == b'?') && not (c == d) then false else rest s

unfoldable pub wc_match : Bytes → Bytes → Bool
wc_match [] s = is_end s
wc_match (c ∷ pat) s =
    let rest = wc_match pat in
    if c == b'*' then is_end pat || any_suffix rest s else one_byte c rest s

-- `*` stands for any bytes, `?` for one byte, and any other byte for itself.
pub data Matches : Bytes → Bytes → Type 0 where
  at_end : Matches [] []
  star : {pat s : Bytes} (p : Bytes) → Matches pat s → Matches (b'*' ∷ pat) (p ++ s)
  any_byte : {pat s : Bytes} (d : ℕ) → Matches pat s → Matches (b'?' ∷ pat) (d ∷ s)
  same_byte :
      {pat s : Bytes} (c : ℕ) → (c == b'*') ≡ false → Matches pat s → Matches (c ∷ pat) (c ∷ s)

or_true : (b : Bool) → b || true ≡ true
or_true true = refl
or_true false = refl

any_suffix-append : (f : Bytes → Bool) (p s : Bytes) → f s ≡ true → any_suffix f (p ++ s) ≡ true
any_suffix-append f [] [] h = h
any_suffix-append f [] (c ∷ s) h = rw h refl
any_suffix-append f (b ∷ p) s h = rw (any_suffix-append f p s h) (or_true (f (b ∷ (p ++ s))))

any_suffix_split :
    (f : Bytes → Bool) (s : Bytes)
    → any_suffix f s ≡ true
    → (p : Bytes) × (t : Bytes) × (p ++ t ≡ s) × (f t ≡ true)
any_suffix_split f [] h = ([], [], refl, h)
any_suffix_split f (c ∷ s) h = elim (Bool-cases (f (c ∷ s))) [
  | inl e ↦ ([], c ∷ s, refl, e)
  | inr e ↦
      let (p, t, same_s, g) = any_suffix_split f s (ground arith) in
      (c ∷ p, t, ap (λ l. c ∷ l) same_s, g)
]

Matches-complete : (pat s : Bytes) → Matches pat s → wc_match pat s ≡ true
unfolding wc_match
Matches-complete _ _ at_end = refl
Matches-complete _ _ (star {pat} {s} p m) =
    let found = any_suffix-append (wc_match pat) p s (Matches-complete pat s m) in
    rw found (or_true (is_end pat))
Matches-complete _ _ (any_byte {pat} {s} d m) = Matches-complete pat s m
Matches-complete _ _ (same_byte {pat} {s} c e m) = rw (e, Matches-complete pat s m) (ground arith)

-- The cases of a pattern that is not empty, with what is known of its rest.
module _ (pat : Bytes) (ih : (t : Bytes) → wc_match pat t ≡ true → Matches pat t) where
  star_sound : (s : Bytes) → any_suffix (wc_match pat) s ≡ true → Matches (b'*' ∷ pat) s
  star_sound s h =
      let (p, t, same_s, g) = any_suffix_split (wc_match pat) s h in
      subst (Matches (b'*' ∷ pat)) same_s (star p (ih t g))

  byte_sound :
      (c : ℕ) (s : Bytes)
      → (c == b'*') ≡ false
      → one_byte c (wc_match pat) s ≡ true
      → Matches (c ∷ pat) s
  byte_sound c [] e h = absurd (cc)
  byte_sound c (d ∷ s) e h = elim (Bool-cases (c == b'?')) [
    | inl q ↦
        let wild : b'?' ≡ c = ground arith in
        subst (λ k. Matches (k ∷ pat) (d ∷ s)) wild (any_byte d (ih s (ground arith)))
    | inr q ↦ elim (Bool-cases (c == d)) [
      | inl m ↦
          let equal : c ≡ d = ground arith in
          subst (λ k. Matches (c ∷ pat) (k ∷ s)) equal (same_byte c e (ih s (ground arith)))
      | inr m ↦ absurd (ground arith)
    ]
  ]

star_last : (s : Bytes) → Matches (b'*' ∷ []) s
star_last s = subst (Matches (b'*' ∷ [])) (append-nil s) (star s at_end)

star_cases :
    (pat s : Bytes)
    → ((t : Bytes) → wc_match pat t ≡ true → Matches pat t)
    → is_end pat || any_suffix (wc_match pat) s ≡ true
    → Matches (b'*' ∷ pat) s
star_cases [] s ih h = star_last s
star_cases (c ∷ pat) s ih h = star_sound (c ∷ pat) ih s h

Matches-sound : (pat s : Bytes) → wc_match pat s ≡ true → Matches pat s
unfolding wc_match
Matches-sound [] [] h = at_end
Matches-sound [] (c ∷ s) h = absurd (cc)
Matches-sound (c ∷ pat) s h =
    let ih = Matches-sound pat in
    let stars = is_end pat || any_suffix (wc_match pat) s in
    let byte = one_byte c (wc_match pat) s in
    elim (Bool-cases (c == b'*')) [
      | inl e ↦
          let same : b'*' ≡ c = ground arith in
          subst (λ k. Matches (k ∷ pat) s) same
            (star_cases pat s ih (sym (ap (λ b. if b then stars else byte) e) ∙ h))
      | inr e ↦ byte_sound pat ih c s e (sym (ap (λ b. if b then stars else byte) e) ∙ h)
    ]

-- `wc_match` answers true exactly for the strings that the pattern means.
pub wc_match-Matches : (pat s : Bytes) → (wc_match pat s ≡ true) ↔ Matches pat s
wc_match-Matches pat s = (Matches-sound pat s, Matches-complete pat s)
