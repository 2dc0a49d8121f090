-- ===== src/Lexer/Next.antt =====
-- `lex_next` of src/hphpc/lexer.c.
use holyphp.Prelude.{
  Option, false, if◌then◌else◌, is_digit, length, none, some, suc, ℕ, ◌&&◌, ◌==◌, ◌||◌,
}
use holyphp.Lexer.Token.{TokKind, Token, blank, kw_lookup}
use holyphp.Lexer.Cursor as Cursor
use holyphp.Lexer.Cursor.{
  Lexer, adv, adv_while, c_string, col, cur, eof, left, line, peek, text_between,
}
use holyphp.Lexer.Trivia.{skip_trivia}
use holyphp.Lexer.Number.{lex_number}
use holyphp.Lexer.Quoted.{ident_start, skip_body, skip_quoted, unescape, unescape_single}
use holyphp.Lexer.Template.{ident_char, lex_template_parts}
use holyphp.Lexer.Operator.{Choice, operator, run}

-- The messages of `fatal`, with the position that they show.
pub data LexError : Type 0 where
  unterminated : (line col : ℕ) → LexError
  no_identifier : (line : ℕ) → LexError
  unexpected : (line col c : ℕ) → LexError

-- `lex_next` returned true, returned false, or ended the program.
pub data Lexed : Type 0 where
  token : Token → Lexer → Lexed
  ended : Token → Lexer → Lexed
  fatal : LexError → Lexed

-- The token that begins at a cursor, before its kind is known.
abbrev pub fresh : TokKind → Lexer → Token
fresh k lx = blank k (line lx) (col lx) (Cursor.pos lx)

unfoldable pub lex_word : Lexer → Lexed
unfolding adv_while text_between kw_lookup blank
lex_word lx =
    let stop = adv_while ident_char lx in
    let text = text_between lx stop in
    token (record (fresh (kw_lookup text) lx) { text = text }) stop

unfoldable pub lex_double : Lexer → Lexed
unfolding adv skip_body text_between c_string unescape lex_template_parts blank
lex_double lx =
    let start = adv lx in
    let (interp, stop) = skip_body (suc (length (left start))) false start in
    let body = text_between start stop in
    let ps = lex_template_parts body (left stop) in
    if eof stop
    then fatal (unterminated (line lx) (col lx))
    else if interp
    then token (record (fresh TokKind.t_tpl lx) { text = body; strs = ps.0; exprs = ps.1 })
        (adv stop)
    else token (record (fresh TokKind.t_str lx) { text = c_string (unescape body) }) (adv stop)

unfoldable pub lex_single : Lexer → Lexed
unfolding adv skip_quoted text_between c_string unescape_single blank
lex_single lx =
    let start = adv lx in
    let stop = skip_quoted b'\'' start in
    let body = text_between start stop in
    if eof stop
    then fatal (unterminated (line lx) (col lx))
    else token (record (fresh TokKind.t_str lx) { text = c_string (unescape_single body) })
        (adv stop)

unfoldable pub lex_variable : Lexer → Lexed
unfolding adv adv_while text_between blank
lex_variable lx =
    let start = adv lx in
    let stop = adv_while ident_char start in
    if ident_start (cur start)
    then token (record (fresh TokKind.t_var lx) { text = text_between start stop }) stop
    else fatal (no_identifier (line lx))

-- The operator that a case of the switch chose.
unfoldable pub operator_token : Choice → Lexer → Lexed
unfolding adv run text_between blank
operator_token ch lx =
    let r = run ch (adv lx) in token (record (fresh r.0 lx) { text = text_between lx r.1 }) r.1

-- The default case of the switch, and the others.
unfoldable pub switch_token : Option Choice → Lexer → Lexed
unfolding operator_token
switch_token none lx = fatal (unexpected (line lx) (col lx) (cur lx))
switch_token (some ch) lx = operator_token ch lx

unfoldable pub lex_operator : Lexer → Lexed
unfolding operator switch_token
lex_operator lx = switch_token (operator (cur lx)) lx

-- The token at a cursor that is at no blank and no comment and not at the end.
unfoldable pub lex_token : Lexer → Lexed
unfolding lex_number lex_word lex_double lex_single lex_variable lex_operator blank
lex_token lx =
    let c = cur lx in
    let number = lex_number lx (fresh TokKind.t_error lx) in
    if ident_start c
    then lex_word lx
    else if is_digit c || c == b'.' && is_digit (peek lx 1)
    then token number.0 number.1
    else if c == b'"'
    then lex_double lx
    else if c == b'\''
    then lex_single lx
    else if c == b'$'
    then lex_variable lx
    else lex_operator lx

unfoldable pub lex_next : Lexer → Lexed
unfolding skip_trivia lex_token blank
lex_next lx =
    let lx' = skip_trivia lx in
    if eof lx' then ended (fresh TokKind.t_eof lx') lx' else lex_token lx'
