-- ===== src/Lexer/Quoted.antt =====
-- The string literals of `lex_next` in src/hphpc/lexer.c: where a literal ends, and what its escapes
-- stand for. Inner loops that step one or two bytes are structural, the others run on fuel; the length
-- of what is left is enough.
use holyphp.Prelude.{
  ℕ, zero, suc, ◌+◌, ◌-◌, Bool, true, ◌&&◌, ◌||◌, Bytes, [], ◌∷◌, ◌++◌, ◌==◌, if◌then◌else◌,
  is_alpha, length,
}
use holyphp.Lexer.Cursor.{Lexer, at, left, cur, peek, eof, next_line, next_col, adv}

abbrev pub backslash : ℕ
backslash = b'\\'

abbrev pub ident_start : ℕ → Bool
ident_start c = is_alpha c || c == b'_'

-- `while (!eof(lx) && cur(lx) != q) { if (cur(lx) == '\\') adv(lx); adv(lx); }`
unfoldable pub skip_quoted : ℕ → Lexer → Lexer
skip_quoted q (at [] i l k) = at [] i l k
skip_quoted q (at (c ∷ []) i l k) =
    if c == q
    then at (c ∷ []) i l k
    else if c == backslash
    then at [] (i + 1 + 1) (next_line c l) (next_col c k + 1)
    else at [] (i + 1) (next_line c l) (next_col c k)
skip_quoted q (at (c ∷ d ∷ r) i l k) =
    let one = skip_quoted q (at (d ∷ r) (i + 1) (next_line c l) (next_col c k)) in
    let two =
      skip_quoted q (at r (i + 1 + 1) (next_line d (next_line c l)) (next_col d (next_col c k))) in
    if c == q then at (c ∷ d ∷ r) i l k else if c == backslash then two else one

-- The loop over an embedded expression: up to the brace that closes it, or the end.
unfoldable pub skip_braces : ℕ → ℕ → Lexer → Lexer
unfolding adv skip_quoted
skip_braces zero depth lx = lx
skip_braces (suc fuel) depth lx =
    let after_string = skip_braces fuel depth (adv (skip_quoted (cur lx) (adv lx))) in
    let deeper = skip_braces fuel (depth + 1) (adv lx) in
    let shallower = skip_braces fuel (depth - 1) (adv lx) in
    let onward = skip_braces fuel depth (adv lx) in
    if eof lx
    then lx
    else if cur lx == b'"' || cur lx == b'\''
    then after_string
    else if cur lx == b'{'
    then deeper
    else if cur lx == b'}'
    then if depth == 1 then lx else shallower
    else onward

-- The loop over the body of a double-quoted literal; the flag is `has_interp`.
unfoldable pub skip_body : ℕ → Bool → Lexer → Bool × Lexer
unfolding adv skip_braces
skip_body zero interp lx = (interp, lx)
skip_body (suc fuel) interp lx =
    let next = adv lx in
    let escaped = skip_body fuel interp (if eof next then next else adv next) in
    let embedded = skip_body fuel true (adv (skip_braces (suc (length (left next))) 1 next)) in
    let variable = skip_body fuel true next in
    let onward = skip_body fuel interp next in
    if eof lx || cur lx == b'"'
    then (interp, lx)
    else if cur lx == backslash
    then escaped
    else if cur lx == b'{' && peek lx 1 == b'$'
    then embedded
    else if cur lx == b'$' && ident_start (peek lx 1)
    then variable
    else onward

-- The bytes that `\e` stands for in a double-quoted literal.
unfoldable pub escape_bytes : ℕ → Bytes
escape_bytes e =
    if e == b'n'
    then 10 ∷ []
    else if e == b't'
    then 9 ∷ []
    else if e == b'r'
    then 13 ∷ []
    else if e == b'0'
    then 0 ∷ []
    else if e == backslash || e == b'"' || e == b'\'' || e == b'$'
    then e ∷ []
    else backslash ∷ e ∷ []

unfoldable pub unescape : Bytes → Bytes
unfolding escape_bytes
unescape [] = []
unescape (c ∷ []) = c ∷ []
unescape (c ∷ e ∷ s) =
    let pair = unescape s in
    let plain = unescape (e ∷ s) in if c == backslash then escape_bytes e ++ pair else c ∷ plain

-- A single-quoted literal knows `\'` and `\\` only.
unfoldable pub unescape_single : Bytes → Bytes
unescape_single [] = []
unescape_single (c ∷ []) = c ∷ []
unescape_single (c ∷ e ∷ s) =
    let pair = unescape_single s in
    let plain = unescape_single (e ∷ s) in
    if c == backslash && (e == b'\'' || e == backslash) then e ∷ pair else c ∷ plain
