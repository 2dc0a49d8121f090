-- ===== src/Lexer/Tests.antt =====
-- Runs of the lexer on small sources.
use holyphp.Prelude.{Bytes, bytes_eq, codes, refl, ◌≡◌}
use holyphp.Lexer.Token.{Token, blank, t_kw_let}
use holyphp.Lexer.Cursor.{Lexer, at, lex_init}
use holyphp.Lexer.Next.{lex_next, token}
use holyphp.Lexer.Progress.{Tracks}
use holyphp.Lexer.Progress.Next.{Placed, lex_init-Tracks, lex_next-Placed}

abbrev source : Bytes
source = codes "/* a\n */ let x"

abbrev after_let : Lexer
after_let = at (codes " x") 12 2 8

abbrev let_token : Token
let_token = record (blank t_kw_let 2 5 9) { text = codes "let" }

let_read : lex_next (lex_init source) ≡ token let_token after_let
unfolding lex_next lex_init blank bytes_eq
let_read = refl

source-Tracks : Tracks source (lex_init source)
unfolding lex_init
source-Tracks = lex_init-Tracks source

lex_next-Placed_example : Placed source (lex_init source) after_let let_token
lex_next-Placed_example =
    lex_next-Placed source (lex_init source) after_let let_token source-Tracks let_read

abbrev hex_source : Lexer
hex_source = at (codes "0xFFg") 0 1 0
