-- ===== src/Parser/Layout.antt =====
-- `lex_all` of src/hphpc/parser.c: every token of a source, without the newlines that only continue
-- an expression. The loop over `lex_next` runs on fuel, the length of the source.
pub mod Filter
pub mod Total
pub mod Ends
use holyphp.Prelude.{
  Bool, Bytes, List, [], false, if◌then◌else◌, length, ltb, suc, true, zero, ℕ, ◌||◌, ◌∷◌,
}
use holyphp.Lexer.Token.{
  TokKind, Token, blank, t_amp, t_andand, t_arrow, t_assign, t_caret, t_colon, t_coloncolon,
  t_comma, t_dot, t_dotassign, t_doublearrow, t_eof, t_eq, t_eq2, t_fatarrow, t_ge, t_gt,
  t_hphp_finally, t_hphp_throw, t_kw_as, t_kw_do, t_kw_echo, t_kw_else, t_kw_elseif, t_kw_for,
  t_kw_foreach, t_kw_if, t_kw_match, t_kw_new, t_kw_print, t_kw_switch, t_kw_try, t_kw_use,
  t_kw_while, t_lbrace, t_lbracket, t_le, t_lparen, t_lt, t_minus, t_minusassign, t_neq, t_neq2,
  t_newline, t_not, t_oror, t_percent, t_percentassign, t_pipe, t_plus, t_plusassign, t_pow,
  t_powassign, t_question, t_questionquestion, t_rbrace, t_rbracket, t_rparen, t_semi, t_shl, t_shr,
  t_slash, t_slashassign, t_spaceship, t_star, t_starassign, t_tilde,
}
use holyphp.Lexer.Cursor.{Lexer, lex_init}
use holyphp.Lexer.Next.{LexError, Lexed, ended, fatal, lex_next, token}

-- A newline after one of these continues the expression.
unfoldable pub tok_needs_operand : TokKind → Bool
tok_needs_operand t_lparen = true
tok_needs_operand t_lbracket = true
tok_needs_operand t_comma = true
tok_needs_operand t_colon = true
tok_needs_operand t_coloncolon = true
tok_needs_operand t_arrow = true
tok_needs_operand t_doublearrow = true
tok_needs_operand t_fatarrow = true
tok_needs_operand t_plus = true
tok_needs_operand t_minus = true
tok_needs_operand t_star = true
tok_needs_operand t_slash = true
tok_needs_operand t_percent = true
tok_needs_operand t_pow = true
tok_needs_operand t_dot = true
tok_needs_operand t_shl = true
tok_needs_operand t_shr = true
tok_needs_operand t_assign = true
tok_needs_operand t_plusassign = true
tok_needs_operand t_minusassign = true
tok_needs_operand t_starassign = true
tok_needs_operand t_slashassign = true
tok_needs_operand t_percentassign = true
tok_needs_operand t_dotassign = true
tok_needs_operand t_powassign = true
tok_needs_operand t_eq = true
tok_needs_operand t_neq = true
tok_needs_operand t_neq2 = true
tok_needs_operand t_eq2 = true
tok_needs_operand t_spaceship = true
tok_needs_operand t_lt = true
tok_needs_operand t_gt = true
tok_needs_operand t_le = true
tok_needs_operand t_ge = true
tok_needs_operand t_andand = true
tok_needs_operand t_oror = true
tok_needs_operand t_amp = true
tok_needs_operand t_pipe = true
tok_needs_operand t_caret = true
tok_needs_operand t_tilde = true
tok_needs_operand t_not = true
tok_needs_operand t_question = true
tok_needs_operand t_questionquestion = true
tok_needs_operand t_kw_echo = true
tok_needs_operand t_kw_print = true
tok_needs_operand t_hphp_throw = true
tok_needs_operand t_kw_new = true
tok_needs_operand t_kw_if = true
tok_needs_operand t_kw_elseif = true
tok_needs_operand t_kw_while = true
tok_needs_operand t_kw_for = true
tok_needs_operand t_kw_foreach = true
tok_needs_operand t_kw_switch = true
tok_needs_operand t_kw_try = true
tok_needs_operand t_hphp_finally = true
tok_needs_operand t_kw_do = true
tok_needs_operand t_kw_match = true
tok_needs_operand t_kw_as = true
tok_needs_operand t_kw_use = true
tok_needs_operand t_kw_else = true
tok_needs_operand _ = false

-- A newline before one of these continues the expression.
unfoldable pub tok_continues_with : TokKind → Bool
tok_continues_with t_rparen = true
tok_continues_with t_rbracket = true
tok_continues_with t_comma = true
tok_continues_with t_semi = true
tok_continues_with t_arrow = true
tok_continues_with t_coloncolon = true
tok_continues_with t_doublearrow = true
tok_continues_with t_fatarrow = true
tok_continues_with t_colon = true
tok_continues_with t_question = true
tok_continues_with t_questionquestion = true
tok_continues_with t_plus = true
tok_continues_with t_minus = true
tok_continues_with t_star = true
tok_continues_with t_slash = true
tok_continues_with t_percent = true
tok_continues_with t_pow = true
tok_continues_with t_dot = true
tok_continues_with t_shl = true
tok_continues_with t_shr = true
tok_continues_with t_eq = true
tok_continues_with t_neq = true
tok_continues_with t_neq2 = true
tok_continues_with t_eq2 = true
tok_continues_with t_spaceship = true
tok_continues_with t_lt = true
tok_continues_with t_gt = true
tok_continues_with t_le = true
tok_continues_with t_ge = true
tok_continues_with t_andand = true
tok_continues_with t_oror = true
tok_continues_with t_amp = true
tok_continues_with t_pipe = true
tok_continues_with t_caret = true
tok_continues_with _ = false

unfoldable pub is_newline : TokKind → Bool
is_newline t_newline = true
is_newline _ = false

-- The entries 'p' and 'b' of the stack of open brackets.
pub data Bracket : Type 0 where
  round brace : Bracket

abbrev pub stack_size : ℕ
stack_size = 256

-- A full stack takes no more entries.
unfoldable pub push : Bracket → List Bracket → List Bracket
push b st = if ltb (length st) stack_size then b ∷ st else st

unfoldable pub pop : Bracket → List Bracket → List Bracket
pop b [] = []
pop round (round ∷ st) = st
pop round (brace ∷ st) = brace ∷ st
pop brace (round ∷ st) = round ∷ st
pop brace (brace ∷ st) = st

-- What a token does to the stack.
unfoldable pub track : TokKind → List Bracket → List Bracket
unfolding push pop
track t_lparen st = push round st
track t_lbracket st = push round st
track t_lbrace st = push brace st
track t_rparen st = pop round st
track t_rbracket st = pop round st
track t_rbrace st = pop brace st
track _ st = st

-- The kind of the first token that is no newline, T_EOF where there is none.
unfoldable pub next_kind : List Token → TokKind
unfolding is_newline
next_kind [] = t_eof
next_kind (t ∷ ts) = if is_newline t.kind then next_kind ts else t.kind

abbrev pub in_brackets : List Bracket → Bool
in_brackets [] = false
in_brackets (round ∷ st) = true
in_brackets (brace ∷ st) = false

-- A newline that is swallowed.
abbrev pub swallowed : List Bracket → TokKind → List Token → Bool
swallowed st prev ts =
    in_brackets st || (tok_needs_operand prev || tok_continues_with (next_kind ts))

unfoldable pub layout : List Bracket → TokKind → List Token → List Token
unfolding is_newline track next_kind
layout st prev [] = []
layout st prev (t ∷ ts) =
    let st' = track t.kind st in
    let swallow = layout st' prev ts in
    let keep = layout st' t_newline ts in
    let token' = layout st' t.kind ts in
    if is_newline t.kind then if swallowed st' prev ts then swallow else t ∷ keep else t ∷ token'

-- What the loop over `lex_next` gives: the tokens with the final T_EOF, or the error that ended the
-- program. `starved` would be a loop that has not ended.
pub data Raw : Type 0 where
  all : List Token → Raw
  failed : LexError → Raw
  starved : Raw

abbrev pub prepend : Token → Raw → Raw
prepend t (all ts) = all (t ∷ ts)
prepend t (failed e) = failed e
prepend t starved = starved

-- `eof->line = t.line`; the other fields are zero.
abbrev pub eof_token : Token → Token
eof_token t = blank t_eof t.line 0 0

abbrev pub collect_step : Lexed → (Lexer → Raw) → Raw
collect_step (token t stop) rest = prepend t (rest stop)
collect_step (ended t stop) rest = all (eof_token t ∷ [])
collect_step (fatal e) rest = failed e

unfoldable pub collect : ℕ → Lexer → Raw
unfolding lex_next blank
collect zero lx = starved
collect (suc fuel) lx = collect_step (lex_next lx) (collect fuel)

abbrev pub filter_raw : Raw → Raw
filter_raw (all ts) = all (layout [] t_eof ts)
filter_raw (failed e) = failed e
filter_raw starved = starved

unfoldable pub lex_all : Bytes → Raw
unfolding collect lex_init layout
lex_all src = filter_raw (collect (suc (length src)) (lex_init src))
