-- ===== src/Lexer/Template.antt =====
-- `lex_template_parts` of src/hphpc/lexer.c: the body of a literal with interpolation, cut into chunks
-- of text and the sources of the embedded expressions. `behind` is the source after the body, which
-- begins with the closing quote: an embedded expression is copied from the source by its length.
use holyphp.Prelude.{
  ℕ, zero, suc, ◌+◌, ◌-◌, Bool, true, false, ◌&&◌, ◌||◌, Bytes, List, [], ◌∷◌, ◌++◌, ◌==◌,
  if◌then◌else◌, is_alnum, Option, none, some, get_or, take, drop, length,
}
use holyphp.Lexer.Cursor.{c_string}
use holyphp.Lexer.Quoted.{backslash, ident_start}

-- As `escape_bytes`, but a single quote keeps its backslash.
unfoldable pub template_escape : ℕ → Bytes
template_escape e =
    if e == b'n'
    then 10 ∷ []
    else if e == b't'
    then 9 ∷ []
    else if e == b'r'
    then 13 ∷ []
    else if e == b'0'
    then 0 ∷ []
    else if e == b'"' || e == backslash || e == b'$'
    then e ∷ []
    else backslash ∷ e ∷ []

abbrev pub ident_char : ℕ → Bool
ident_char c = is_alnum c || c == b'_'

-- The longest prefix of identifier characters.
unfoldable pub name_prefix : Bytes → Bytes
name_prefix [] = []
name_prefix (c ∷ s) = if ident_char c then c ∷ name_prefix s else []

-- How far `j` moves over a nested string, up to its closing quote or the end.
unfoldable pub string_end : ℕ → Bytes → ℕ
string_end q [] = 0
string_end q (c ∷ []) = if c == q then 0 else 1
string_end q (c ∷ d ∷ r) =
    let two = string_end q r in
    let one = string_end q (d ∷ r) in
    if c == q then 0 else if c == backslash then two + 2 else one + 1

-- How far `j` moves up to the brace that closes the expression, or past the end.
unfoldable pub brace_end : ℕ → ℕ → Bytes → ℕ
unfolding string_end
brace_end zero depth b = 0
brace_end (suc fuel) depth [] = 0
brace_end (suc fuel) depth (c ∷ r) =
    let deeper = brace_end fuel (depth + 1) r in
    let shallower = brace_end fuel (depth - 1) r in
    let onward = brace_end fuel depth r in
    let inner = string_end c r in
    let after_string = brace_end fuel depth (drop (inner + 1) r) in
    if c == b'{'
    then deeper + 1
    else if c == b'}'
    then if depth == 1 then 0 else shallower + 1
    else if c == b'"' || c == b'\''
    then inner + 2 + after_string
    else onward + 1

abbrev pub Parts : Type 0
Parts = List Bytes × List (Option Bytes)

-- `ptrvec_push` of a finished chunk and of the expression behind it.
abbrev pub push_part : Bytes → Option Bytes → Parts → Parts
push_part chunk e ps = (c_string chunk ∷ ps.0, e ∷ ps.1)

abbrev pub not_empty : Bytes → Bool
not_empty [] = false
not_empty (c ∷ b) = true

unfoldable pub parts : ℕ → Bytes → Bytes → Bytes → Parts
unfolding template_escape name_prefix brace_end c_string
parts zero behind chunk b = (c_string chunk ∷ [], none ∷ [])
parts (suc fuel) behind chunk [] = (c_string chunk ∷ [], none ∷ [])
parts (suc fuel) behind chunk (c ∷ b) =
    let next = get_or b 0 0 in
    let escaped = parts fuel behind (chunk ++ template_escape next) (drop 1 b) in
    let name = name_prefix b in
    let variable = parts fuel behind [] (drop (length name) b) in
    let size = brace_end (suc (length b)) 1 b in
    let embedded = parts fuel behind [] (drop (size + 1) b) in
    let onward = parts fuel behind (chunk ++ c ∷ []) b in
    if c == backslash && not_empty b
    then escaped
    else if c == b'$' && ident_start next
    then push_part chunk (some name) variable
    else if c == b'{' && next == b'$'
    then push_part chunk (some (take size (b ++ behind))) embedded
    else onward

unfoldable pub lex_template_parts : Bytes → Bytes → Parts
unfolding parts
lex_template_parts b behind = parts (suc (length b)) behind [] b
