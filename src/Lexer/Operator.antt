-- ===== src/Lexer/Operator.antt =====
-- The switch of `lex_next` in src/hphpc/lexer.c over punctuation and operators. A case is its first
-- byte with what is done after `adv`.
-- Three dots are one token; of two dots without a third both are consumed, as `T_DOT`.
use holyphp.Prelude.{ℕ, List, [], ◌∷◌, ◌==◌, Option, none, some, if◌then◌else◌}
use holyphp.Lexer.Token.{
  TokKind, t_amp, t_andand, t_annotation, t_arrow, t_assign, t_at, t_backslash, t_caret, t_colon,
  t_coloncolon, t_comma, t_decr, t_dot, t_dotassign, t_doublearrow, t_ellipsis, t_eq, t_eq2, t_ge,
  t_gt, t_hash, t_incr, t_lbrace, t_lbracket, t_le, t_lparen, t_lt, t_minus, t_minusassign, t_neq,
  t_neq2, t_newline, t_not, t_oror, t_percent, t_percentassign, t_pipe, t_plus, t_plusassign, t_pow,
  t_qqassign, t_question, t_questioncolon, t_questionquestion, t_rbrace, t_rbracket, t_rparen,
  t_semi, t_shl, t_shlassign, t_shr, t_shrassign, t_slash, t_slashassign, t_spaceship, t_star,
  t_starassign, t_tilde,
}
use holyphp.Lexer.Cursor.{Lexer, cur, adv, newline}

-- `try c a b` is `if (matchc(lx, c)) a else b`, `give k` is `k = …; break`.
pub data Choice : Type 0 where
  give : TokKind → Choice
  try : ℕ → Choice → Choice → Choice

unfoldable pub run : Choice → Lexer → TokKind × Lexer
unfolding adv
run (give k) lx = (k, lx)
run (try c a b) lx =
    let hit = run a (adv lx) in let miss = run b lx in if cur lx == c then hit else miss

unfoldable pub cases : List (ℕ × Choice)
cases =
    (b'(', give t_lparen)
    ∷ (b')', give t_rparen)
    ∷ (b'{', give t_lbrace)
    ∷ (b'}', give t_rbrace)
    ∷ (b'[', give t_lbracket)
    ∷ (b']', give t_rbracket)
    ∷ (b',', give t_comma)
    ∷ (b';', give t_semi)
    ∷ (b'#', try b'[' (give t_annotation) (give t_hash))
    ∷ (b'@', give t_at)
    ∷ (b'\\', give t_backslash)
    ∷ (b':', try b':' (give t_coloncolon) (give t_colon))
    ∷ (b'+', try b'+' (give t_incr) (try b'=' (give t_plusassign) (give t_plus)))
    ∷ (
      b'-',
      try b'>' (give t_arrow)
          (try b'-' (give t_decr) (try b'=' (give t_minusassign) (give t_minus))),
    )
    ∷ (b'*', try b'*' (give t_pow) (try b'=' (give t_starassign) (give t_star)))
    ∷ (b'/', try b'=' (give t_slashassign) (give t_slash))
    ∷ (b'%', try b'=' (give t_percentassign) (give t_percent))
    ∷ (
      b'=',
      try b'=' (try b'=' (give t_eq2) (give t_eq)) (try b'>' (give t_doublearrow) (give t_assign)),
    )
    ∷ (b'!', try b'=' (try b'=' (give t_neq2) (give t_neq)) (give t_not))
    ∷ (
      b'<',
      try b'=' (try b'>' (give t_spaceship) (give t_le)) (
          try b'<' (try b'=' (give t_shlassign) (give t_shl)) (try b'>' (give t_neq2) (give t_lt))),
    )
    ∷ (b'>', try b'>' (try b'=' (give t_shrassign) (give t_shr)) (try b'=' (give t_ge) (give t_gt)))
    ∷ (b'&', try b'&' (give t_andand) (give t_amp))
    ∷ (b'|', try b'|' (give t_oror) (give t_pipe))
    ∷ (b'^', give t_caret)
    ∷ (b'~', give t_tilde)
    ∷ (
      b'.',
      try b'=' (give t_dotassign) (try b'.' (try b'.' (give t_ellipsis) (give t_dot)) (give t_dot)),
    )
    ∷ (
      b'?',
      try b'?'
          (try b'=' (give t_qqassign) (try b':' (give t_questioncolon) (give t_questionquestion)))
          (give t_question),
    )
    ∷ (newline, give t_newline)
    ∷ []

-- `none` is the default case of the switch, an unexpected character.
unfoldable pub select : List (ℕ × Choice) → ℕ → Option Choice
select [] c = none
select ((d, h) ∷ hs) c = if c == d then some h else select hs c

unfoldable pub operator : ℕ → Option Choice
unfolding select cases
operator c = select cases c
