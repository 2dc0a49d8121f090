-- ===== src/Lexer/Trivia.antt =====
-- `skip_trivia` of src/hphpc/lexer.c: blanks, `//` and `#` comments to the end of the line (`#[` opens
-- an attribute), block comments. The endless loop runs on fuel; the length of what is left is enough.
use holyphp.Prelude.{
  ℕ, zero, suc, ◌+◌, Bool, not, ◌&&◌, ◌||◌, [], ◌∷◌, ◌==◌, if◌then◌else◌, get_or, length,
}
use holyphp.Lexer.Cursor.{Lexer, at, left, cur, peek, newline, next_line, next_col, adv, adv_while}

-- The loop of a block comment: up to `*/` or the end.
unfoldable pub to_close : Lexer → Lexer
to_close (at [] i l k) = at [] i l k
to_close (at (c ∷ r) i l k) =
    let rest = to_close (at r (i + 1) (next_line c l) (next_col c k)) in
    if c == b'*' && get_or r 0 0 == b'/' then at (c ∷ r) i l k else rest

abbrev pub is_blank : ℕ → Bool
is_blank c = c == 32 || c == 9 || c == 13

abbrev pub before_newline : ℕ → Bool
before_newline c = not (c == newline)

abbrev pub at_line_comment : Lexer → Bool
at_line_comment lx =
    cur lx == b'/' && peek lx 1 == b'/' || cur lx == b'#' && not (peek lx 1 == b'[')

abbrev pub at_block_comment : Lexer → Bool
at_block_comment lx = cur lx == b'/' && peek lx 1 == b'*'

-- A block comment from its `/*`; the two bytes after the loop are consumed without a test.
unfoldable pub skip_block : Lexer → Lexer
unfolding adv to_close
skip_block lx = adv (adv (to_close (adv (adv lx))))

unfoldable pub trivia : ℕ → Lexer → Lexer
trivia zero lx = lx
trivia (suc fuel) lx =
    let after_blank = trivia fuel (adv lx) in
    let after_line = trivia fuel (adv_while before_newline lx) in
    let after_block = trivia fuel (skip_block lx) in
    if is_blank (cur lx)
    then after_blank
    else if at_line_comment lx
    then after_line
    else if at_block_comment lx
    then after_block
    else lx

unfoldable pub skip_trivia : Lexer → Lexer
unfolding trivia adv adv_while skip_block
skip_trivia lx = trivia (suc (length (left lx))) lx
