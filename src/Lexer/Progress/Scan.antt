-- ===== src/Lexer/Progress/Scan.antt =====
-- The scanning loops of src/hphpc/lexer.c move the cursor forward: `adv_while`, `skip_trivia` and
-- `lex_number`.
use holyphp.Prelude.{
  ℕ, zero, suc, ◌+◌, ◌<◌, ◌≡◌, refl, ◌∙◌, Bool, ◌||◌, ◌&&◌, get_or, [], ◌∷◌, ◌==◌, if◌then◌else◌,
  length, arith, true, false, inl, inr, Bool-cases, is_digit, is_xdigit,
}
use holyphp.Lexer.Token.{Token}
use holyphp.Lexer.Cursor.{
  Lexer, at, left, line, cur, peek, newline, next_line, next_col, adv, adv_while,
}
use holyphp.Lexer.Trivia.{
  to_close, is_blank, before_newline, at_line_comment, at_block_comment, skip_block, trivia,
  skip_trivia,
}
use holyphp.Lexer.Number.{mantissa, exponent, lex_number, digit_or_bar, is_bit}
use holyphp.Lexer.Progress.{Moves, Moves-refl, Moves-trans, adv-Moves, adv_shrinks}

pub adv_while-Moves : (p : ℕ → Bool) (lx : Lexer) → Moves lx (adv_while p lx)
unfolding adv_while adv
adv_while-Moves p (at [] i l k) = Moves-refl _
adv_while-Moves p (at (c ∷ r) i l k) =
    let rest = adv_while-Moves p (at r (i + 1) (next_line c l) (next_col c k)) in
    elim (Bool-cases (p c)) [
      | inl e ↦ rw e (Moves-trans (adv-Moves (at (c ∷ r) i l k)) rest)
      | inr e ↦ rw e (Moves-refl _)
    ]

-- Where the test holds at the cursor, a byte is consumed.
pub adv_while_shrinks :
    (p : ℕ → Bool) (lx : Lexer)
    → 0 < length (left lx)
    → p (cur lx) ≡ true
    → length (left (adv_while p lx)) < length (left lx)
unfolding adv_while
adv_while_shrinks p (at [] i l k) h e = absurd (omega arith)
adv_while_shrinks p (at (c ∷ r) i l k) h e =
    rw e (omega (arith, (adv_while-Moves p (at r (i + 1) (next_line c l) (next_col c k))).shrinks))

to_close-Moves : (lx : Lexer) → Moves lx (to_close lx)
unfolding to_close adv
to_close-Moves (at [] i l k) = Moves-refl _
to_close-Moves (at (c ∷ r) i l k) =
    let rest = to_close-Moves (at r (i + 1) (next_line c l) (next_col c k)) in
    elim (Bool-cases (c == b'*' && get_or r 0 0 == b'/')) [
      | inl e ↦ rw e (Moves-refl _)
      | inr e ↦ rw e (Moves-trans (adv-Moves (at (c ∷ r) i l k)) rest)
    ]

skip_block-Moves : (lx : Lexer) → Moves (adv lx) (skip_block lx)
unfolding skip_block
skip_block-Moves lx = Moves-trans (adv-Moves (adv lx)) (
    Moves-trans (to_close-Moves (adv (adv lx)))
      (Moves-trans (adv-Moves (to_close (adv (adv lx)))) (adv-Moves _)))

abbrev pub at_trivia : Lexer → Bool
at_trivia lx = is_blank (cur lx) || (at_line_comment lx || at_block_comment lx)

-- What one round of the loop does where it goes on.
abbrev round : Lexer → Lexer
round lx =
    if is_blank (cur lx)
    then adv lx
    else if at_line_comment lx
    then adv_while before_newline lx
    else skip_block lx

round-Moves : (lx : Lexer) → Moves lx (round lx)
round-Moves lx = elim (Bool-cases (is_blank (cur lx))) [
  | inl e ↦ rw e (adv-Moves lx)
  | inr e ↦ elim (Bool-cases (at_line_comment lx)) [
    | inl f ↦ rw (e, f) (adv_while-Moves before_newline lx)
    | inr f ↦ rw (e, f) (Moves-trans (adv-Moves lx) (skip_block-Moves lx))
  ]
]

trivia_step :
    (fuel : ℕ) (lx : Lexer)
    → trivia (suc fuel) lx ≡ (if at_trivia lx then trivia fuel (round lx) else lx)
unfolding trivia
trivia_step fuel lx = elim (Bool-cases (is_blank (cur lx))) [
  | inl e ↦ rw e
  | inr e ↦ elim (Bool-cases (at_line_comment lx)) [
    | inl f ↦ rw (e, f)
    | inr f ↦ elim (Bool-cases (at_block_comment lx)) [
      | inl g ↦ rw (e, f, g)
      | inr g ↦ rw (e, f, g)
    ]
  ]
]

trivia-Moves : (fuel : ℕ) (lx : Lexer) → Moves lx (trivia fuel lx)
trivia-Moves zero lx = unfold trivia in Moves-refl lx
trivia-Moves (suc fuel) lx = rw trivia_step (elim (Bool-cases (at_trivia lx)) [
  | inl e ↦ rw e (Moves-trans (round-Moves lx) (trivia-Moves fuel (round lx)))
  | inr e ↦ rw e (Moves-refl lx)
])

pub skip_trivia-Moves : (lx : Lexer) → Moves lx (skip_trivia lx)
unfolding skip_trivia
skip_trivia-Moves lx = trivia-Moves (suc (length (left lx))) lx

at_trivia-left : (lx : Lexer) → at_trivia lx ≡ true → 0 < length (left lx)
at_trivia-left (at [] i l k) e = cc
at_trivia-left (at (c ∷ r) i l k) e = omega arith

comment-before_newline : (lx : Lexer) → at_line_comment lx ≡ true → before_newline (cur lx) ≡ true
comment-before_newline (at [] i l k) e = cc
comment-before_newline (at (c ∷ r) i l k) e = ground arith

round_shrinks : (lx : Lexer) → at_trivia lx ≡ true → length (left (round lx)) < length (left lx)
round_shrinks lx t =
    let pos = at_trivia-left lx t in
    elim (Bool-cases (is_blank (cur lx))) [
      | inl e ↦ rw e (omega (arith, adv_shrinks lx pos))
      | inr e ↦ elim (Bool-cases (at_line_comment lx)) [
        | inl f ↦ rw (e, f) (adv_while_shrinks before_newline lx pos (comment-before_newline lx f))
        | inr f ↦ rw (e, f) (omega (arith, adv_shrinks lx pos, (skip_block-Moves lx).shrinks))
      ]
    ]

trivia-done : (fuel : ℕ) (lx : Lexer) → length (left lx) < fuel → at_trivia (trivia fuel lx) ≡ false
trivia-done zero lx h = absurd (omega arith)
trivia-done (suc fuel) lx h = rw trivia_step (elim (Bool-cases (at_trivia lx)) [
  | inl e ↦ rw e (trivia-done fuel (round lx) (omega (arith, round_shrinks lx e)))
  | inr e ↦ rw e e
])

-- Whatever the source, `skip_trivia` stops at a byte that opens no blank and no comment, or at the
-- end: the fuel is enough.
pub skip_trivia-done : (lx : Lexer) → at_trivia (skip_trivia lx) ≡ false
unfolding skip_trivia
skip_trivia-done lx = trivia-done (suc (length (left lx))) lx (omega arith)

fraction-Moves : (lx : Lexer) → Moves (adv_while digit_or_bar lx) (mantissa lx).1
unfolding mantissa
fraction-Moves lx =
    let whole = adv_while digit_or_bar lx in
    elim (Bool-cases (cur whole == b'.' && is_digit (peek whole 1))) [
      | inl e ↦ rw e (Moves-trans (adv-Moves whole) (adv_while-Moves digit_or_bar (adv whole)))
      | inr e ↦ rw e (Moves-refl whole)
    ]

mantissa-Moves : (lx : Lexer) → Moves lx (mantissa lx).1
mantissa-Moves lx = Moves-trans (adv_while-Moves digit_or_bar lx) (fraction-Moves lx)

adv_line : (lx : Lexer) → (cur lx == newline) ≡ false → line (adv lx) ≡ line lx
unfolding adv
adv_line (at [] i l k) h = refl
adv_line (at (c ∷ r) i l k) h = rw h

abbrev is_exponent : ℕ → Bool
is_exponent c = c == b'e' || c == b'E'

abbrev is_sign : ℕ → Bool
is_sign c = c == b'+' || c == b'-'

abbrev sign_skipped : Lexer → Lexer
sign_skipped mark = if is_sign (cur mark) then adv mark else mark

sign-Moves :
    (mark : Lexer) → Moves mark (sign_skipped mark) × (line (sign_skipped mark) ≡ line mark)
sign-Moves mark = elim (Bool-cases (is_sign (cur mark))) [
  | inl e ↦ rw e (adv-Moves mark, adv_line mark (ground arith))
  | inr e ↦ rw e (Moves-refl mark, refl)
]

-- Without a digit `pos` goes back to `save`: the line is right there too.
exponent-Moves : (lx : Lexer) → Moves lx (exponent lx).1
unfolding exponent
exponent-Moves lx =
    let signed = sign_skipped (adv lx) in
    let forward = Moves-trans (adv-Moves lx) (sign-Moves (adv lx)).0 in
    elim (Bool-cases (is_exponent (cur lx))) [
      | inr e ↦ rw e (Moves-refl lx)
      | inl e ↦ elim (Bool-cases (is_digit (cur signed))) [
        | inl d ↦ rw (e, d) (Moves-trans forward (adv_while-Moves is_digit signed))
        | inr d ↦
            rw (e, d)
              (record {
                keeps = λ src t. record {
                  here = t.here;
                  lines = (sign-Moves (adv lx)).1 ∙ adv_line lx (ground arith) ∙ t.lines;
                };
                shrinks = omega arith;
              })
      ]
    ]

abbrev pub starts_number : Lexer → Bool
starts_number lx = is_digit (cur lx) || cur lx == b'.' && is_digit (peek lx 1)

some_left : (lx : Lexer) → starts_number lx ≡ true → 0 < length (left lx)
some_left (at [] i l k) e = cc
some_left (at (c ∷ r) i l k) e = omega arith

adv_while_stays : (p : ℕ → Bool) (lx : Lexer) → p (cur lx) ≡ false → adv_while p lx ≡ lx
unfolding adv_while
adv_while_stays p (at [] i l k) h = refl
adv_while_stays p (at (c ∷ r) i l k) h = rw h

mantissa_at_dot :
    (lx : Lexer)
    → is_digit (cur lx) ≡ false
    → starts_number lx ≡ true
    → length (left (mantissa lx).1) < length (left lx)
unfolding mantissa
mantissa_at_dot lx d s =
    let stays = adv_while_stays digit_or_bar lx (ground arith) in
    let dot : (cur lx == b'.' && is_digit (peek lx 1)) ≡ true = ground arith in
    rw (stays, dot)
      (omega
        (arith, adv_shrinks lx (some_left lx s), (adv_while-Moves digit_or_bar (adv lx)).shrinks))

mantissa_shrinks :
    (lx : Lexer) → starts_number lx ≡ true → length (left (mantissa lx).1) < length (left lx)
mantissa_shrinks lx s = elim (Bool-cases (is_digit (cur lx))) [
  | inl d ↦ omega (
    arith,
    adv_while_shrinks digit_or_bar lx (some_left lx s) (ground arith),
    (fraction-Moves lx).shrinks,
  )
  | inr d ↦ mantissa_at_dot lx d s
]

-- A number moves the cursor forward, over at least one byte.
pub record Advances (a b : Lexer) : Type 0 where
  pub moves : Moves a b
  pub strict : length (left b) < length (left a)

prefixed-Advances :
    (p : ℕ → Bool) (lx : Lexer) → 0 < length (left lx) → Advances lx (adv_while p (adv (adv lx)))
prefixed-Advances p lx h =
    let m = Moves-trans (adv-Moves (adv lx)) (adv_while-Moves p (adv (adv lx))) in
    record {
      moves = Moves-trans (adv-Moves lx) m;
      strict = omega (arith, adv_shrinks lx h, m.shrinks);
    }

abbrev pub is_hex : Lexer → Bool
is_hex lx = cur lx == b'0' && (peek lx 1 == b'x' || peek lx 1 == b'X')

abbrev pub is_bin : Lexer → Bool
is_bin lx = cur lx == b'0' && (peek lx 1 == b'b' || peek lx 1 == b'B')

pub lex_number-Advances :
    (lx : Lexer) (t : Token) → starts_number lx ≡ true → Advances lx (lex_number lx t).1
unfolding lex_number
lex_number-Advances lx t s =
    let whole = (mantissa lx).1 in
    let decimal : Advances lx (exponent whole).1 = record {
      moves = Moves-trans (mantissa-Moves lx) (exponent-Moves whole);
      strict = omega (arith, mantissa_shrinks lx s, (exponent-Moves whole).shrinks);
    } in
    elim (Bool-cases (is_hex lx)) [
      | inl e ↦ rw e (prefixed-Advances is_xdigit lx (some_left lx s))
      | inr e ↦ elim (Bool-cases (is_bin lx)) [
        | inl f ↦ rw (e, f) (prefixed-Advances is_bit lx (some_left lx s))
        | inr f ↦ elim (Bool-cases ((mantissa lx).0 || (exponent whole).0)) [
          | inl g ↦ rw (e, f, g) decimal
          | inr g ↦ rw (e, f, g) decimal
        ]
      ]
    ]
