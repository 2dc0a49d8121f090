-- ===== src/Lexer/Progress/Next.antt =====
-- `lex_next` of src/hphpc/lexer.c and the place of its tokens in the source.
use mathlib.Core.Path.{subst}
use holyphp.Prelude.{
  Bool-cases, Bytes, Option, [], arith, drop, false, inl, inr, length, none, refl, some, suc, take,
  true, zero, ℕ, ◌+◌, ◌<◌, ◌==◌, ◌||◌, ◌∷◌, ◌≡◌,
}
use holyphp.Lexer.Token.{TokKind, Token, blank}
use holyphp.Lexer.Cursor as Cursor
use holyphp.Lexer.Cursor.{Lexer, adv, at, c_string, col, cur, eof, left, lex_init, line}
use holyphp.Lexer.Number.{exponent, lex_number, mantissa}
use holyphp.Lexer.Trivia.{skip_trivia}
use holyphp.Lexer.Quoted.{ident_start, skip_body, skip_quoted}
use holyphp.Lexer.Template.{ident_char}
use holyphp.Lexer.Operator.{Choice, operator}
use holyphp.Lexer.Next.{
  Lexed, ended, fatal, fresh, lex_double, lex_next, lex_operator, lex_single, lex_token,
  lex_variable, lex_word, operator_token, switch_token, token,
}
use holyphp.Lexer.Progress.{Moves, Moves-trans, Tracks, adv-Moves, adv_shrinks, newlines}
use holyphp.Lexer.Progress.Scan.{
  Advances, adv_while-Moves, adv_while_shrinks, is_bin, is_hex, lex_number-Advances,
  skip_trivia-Moves, starts_number,
}
use holyphp.Lexer.Progress.Literal.{run-Moves, skip_body-Moves, skip_quoted-Moves}

-- The token begins where the cursor `lx` stands.
abbrev pub StartsAt : Lexer → Token → Type 0
StartsAt lx t = (t.line ≡ line lx) × (t.col ≡ col lx) × (t.at ≡ Cursor.pos lx)

abbrev pub Outcome : Lexer → Lexed → Type 0
Outcome lx (token t stop) = Advances lx stop × StartsAt lx t
Outcome lx (ended t stop) = (stop ≡ lx) × (left stop ≡ []) × StartsAt lx t
Outcome lx (fatal e) = Unit

after_adv : (lx stop : Lexer) → 0 < length (left lx) → Moves (adv lx) stop → Advances lx stop
after_adv lx stop h m = record {
  moves = Moves-trans (adv-Moves lx) m;
  strict = omega (arith, adv_shrinks lx h, m.shrinks);
}

-- `lex_number` leaves the position of the token that it is given.
lex_number-StartsAt : (lx : Lexer) → StartsAt lx (lex_number lx (fresh TokKind.t_error lx)).0
unfolding lex_number blank
lex_number-StartsAt lx = elim (Bool-cases (is_hex lx)) [
  | inl e ↦ rw e (refl, refl, refl)
  | inr e ↦ elim (Bool-cases (is_bin lx)) [
    | inl f ↦ rw (e, f) (refl, refl, refl)
    | inr f ↦ elim (Bool-cases ((mantissa lx).0 || (exponent (mantissa lx).1).0)) [
      | inl g ↦ rw (e, f, g) (refl, refl, refl)
      | inr g ↦ rw (e, f, g) (refl, refl, refl)
    ]
  ]
]

lex_word-Outcome :
    (lx : Lexer) → 0 < length (left lx) → ident_start (cur lx) ≡ true → Outcome lx (lex_word lx)
unfolding lex_word
lex_word-Outcome lx h s = (
  record {
    moves = adv_while-Moves ident_char lx;
    strict = adv_while_shrinks ident_char lx h (ground arith);
  },
  (refl, refl, refl),
)

lex_double-Outcome : (lx : Lexer) → 0 < length (left lx) → Outcome lx (lex_double lx)
unfolding lex_double
lex_double-Outcome lx h =
    let start = adv lx in
    let r = skip_body (suc (length (left start))) false start in
    let m = Moves-trans (skip_body-Moves (suc (length (left start))) false start) (adv-Moves r.1) in
    elim (Bool-cases (eof r.1)) [
      | inl e ↦ rw e tt
      | inr e ↦ elim (Bool-cases r.0) [
        | inl f ↦ rw (e, f) (after_adv lx _ h m, (refl, refl, refl))
        | inr f ↦ rw (e, f) (after_adv lx _ h m, (refl, refl, refl))
      ]
    ]

lex_single-Outcome : (lx : Lexer) → 0 < length (left lx) → Outcome lx (lex_single lx)
unfolding lex_single
lex_single-Outcome lx h =
    let stop = skip_quoted b'\'' (adv lx) in
    let m = Moves-trans (skip_quoted-Moves b'\'' (adv lx)) (adv-Moves stop) in
    elim (Bool-cases (eof stop)) [
      | inl e ↦ rw e tt
      | inr e ↦ rw e (after_adv lx _ h m, (refl, refl, refl))
    ]

lex_variable-Outcome : (lx : Lexer) → 0 < length (left lx) → Outcome lx (lex_variable lx)
unfolding lex_variable
lex_variable-Outcome lx h =
    let m = adv_while-Moves ident_char (adv lx) in
    elim (Bool-cases (ident_start (cur (adv lx)))) [
      | inl e ↦ rw e (after_adv lx _ h m, (refl, refl, refl))
      | inr e ↦ rw e tt
    ]

operator_token-Outcome :
    (ch : Choice) (lx : Lexer) → 0 < length (left lx) → Outcome lx (operator_token ch lx)
unfolding operator_token
operator_token-Outcome ch lx h = (after_adv lx _ h (run-Moves ch (adv lx)), (refl, refl, refl))

switch_token-Outcome :
    (o : Option Choice) (lx : Lexer) → 0 < length (left lx) → Outcome lx (switch_token o lx)
unfolding switch_token
switch_token-Outcome none lx h = tt
switch_token-Outcome (some ch) lx h = operator_token-Outcome ch lx h

lex_operator-Outcome : (lx : Lexer) → 0 < length (left lx) → Outcome lx (lex_operator lx)
unfolding lex_operator
lex_operator-Outcome lx h = switch_token-Outcome (operator (cur lx)) lx h

lex_token-Outcome : (lx : Lexer) → 0 < length (left lx) → Outcome lx (lex_token lx)
unfolding lex_token
lex_token-Outcome lx h = elim (Bool-cases (ident_start (cur lx))) [
  | inl e ↦ rw e (lex_word-Outcome lx h e)
  | inr e ↦ elim (Bool-cases (starts_number lx)) [
    | inl f ↦
        rw (e, f) (lex_number-Advances lx (fresh TokKind.t_error lx) f, lex_number-StartsAt lx)
    | inr f ↦ elim (Bool-cases (cur lx == b'"')) [
      | inl g ↦ rw (e, f, g) (lex_double-Outcome lx h)
      | inr g ↦ elim (Bool-cases (cur lx == b'\'')) [
        | inl u ↦ rw (e, f, g, u) (lex_single-Outcome lx h)
        | inr u ↦ elim (Bool-cases (cur lx == b'$')) [
          | inl v ↦ rw (e, f, g, u, v) (lex_variable-Outcome lx h)
          | inr v ↦ rw (e, f, g, u, v) (lex_operator-Outcome lx h)
        ]
      ]
    ]
  ]
]

bytes_left : (lx : Lexer) → eof lx ≡ false → 0 < length (left lx)
bytes_left (at [] i l k) e = cc
bytes_left (at (c ∷ r) i l k) e = omega arith

nothing_left : (lx : Lexer) → eof lx ≡ true → left lx ≡ []
nothing_left (at [] i l k) e = refl
nothing_left (at (c ∷ r) i l k) e = cc

pub lex_next-Outcome : (lx : Lexer) → Outcome (skip_trivia lx) (lex_next lx)
unfolding lex_next
lex_next-Outcome lx =
    let lx' = skip_trivia lx in
    elim (Bool-cases (eof lx')) [
      | inl e ↦ rw e (refl, nothing_left lx' e, (refl, refl, refl))
      | inr e ↦ rw e (lex_token-Outcome lx' (bytes_left lx' e))
    ]

lt_of_drop : (p : ℕ) (src : Bytes) → 0 < length (drop p src) → p < length src
lt_of_drop zero src h = h
lt_of_drop (suc p) [] h = elim h [ ]
lt_of_drop (suc p) (c ∷ src) h = omega (arith, lt_of_drop p src)

-- What a token says of its place in the source, and where the cursor stands behind it.
pub record Placed (src : Bytes) (lx stop : Lexer) (t : Token) : Type 0 where
  pub tracks : Tracks src stop
  pub in_source : t.at < length src
  pub right_line : t.line ≡ 1 + newlines (take t.at src)
  pub consumed : length (left stop) < length (left lx)

Outcome-Placed :
    (src : Bytes) (lx : Lexer) {t : Token} {stop : Lexer}
    → Tracks src lx
    → Outcome (skip_trivia lx) (token t stop)
    → Placed src lx stop t
Outcome-Placed src lx {t} {stop} tr (a, s) =
    let m = skip_trivia-Moves lx in
    let tr' = m.keeps src tr in
    let nonempty : 0 < length (left (skip_trivia lx)) = omega (arith, a.strict) in
    record {
      tracks = a.moves.keeps src tr';
      in_source = rw s.2 (lt_of_drop _ src (rw (← tr'.here) nonempty));
      right_line = rw (s.0, s.2) tr'.lines;
      consumed = omega (arith, a.strict, m.shrinks);
    }

-- Where the cursor is in step with the source, a token that `lex_next` returns begins inside the
-- source, its line is one more than the newlines before it, at least one byte is consumed, and the
-- cursor is in step again.
pub lex_next-Placed :
    (src : Bytes) (lx stop : Lexer) (t : Token)
    → Tracks src lx
    → lex_next lx ≡ token t stop
    → Placed src lx stop t
lex_next-Placed src lx stop t tr e =
    Outcome-Placed src lx tr (subst (Outcome (skip_trivia lx)) e (lex_next-Outcome lx))

-- The cursor starts in step with the source.
pub lex_init-Tracks : (src : Bytes) → Tracks (c_string src) (lex_init src)
unfolding lex_init
lex_init-Tracks src = record { here = refl; lines = omega arith }
