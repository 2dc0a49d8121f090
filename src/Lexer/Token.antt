-- ===== src/Lexer/Token.antt =====
-- Tokens: `TokKind` and `Token` of src/hphpc/token.h, and the keyword table and the names of kinds of
-- src/hphpc/lexer.c.
-- A token keeps its text (the slice of the source, or the unescaped string); `fval` is the text that
-- `strtod` converts, since there are no floats here; the parts of a template are its chunks and the
-- sources of its embedded expressions, whose list ends with NULL (`none`).
use holyphp.Prelude.{ℕ, Bytes, codes, bytes_eq, List, [], ◌∷◌, Option, if◌then◌else◌}
use holyphp.Prelude.Int.{ℤ, pos}

pub data TokKind : Type 0 where
  t_eof t_error t_ident t_var t_int t_float t_str t_tpl t_kw_fn t_kw_let : TokKind
  t_kw_mut t_kw_own t_kw_unsafe t_kw_match t_kw_if t_kw_else t_kw_elseif : TokKind
  t_kw_while t_kw_for t_kw_foreach t_kw_as t_kw_in t_kw_return t_kw_echo : TokKind
  t_kw_print t_kw_break t_kw_continue t_kw_class t_kw_extends t_kw_implements : TokKind
  t_kw_interface t_kw_trait t_kw_new t_kw_this t_kw_self t_kw_parent t_kw_public : TokKind
  t_kw_protected t_kw_private t_kw_static t_kw_abstract t_kw_final t_kw_const : TokKind
  t_kw_enum t_kw_import t_kw_export t_kw_use t_kw_function t_kw_global t_kw_try : TokKind
  t_hphp_throw t_hphp_catch t_hphp_finally t_hphp_yield t_kw_switch t_kw_case : TokKind
  t_kw_default t_kw_do t_kw_arrow t_hphp_true t_hphp_false t_hphp_null t_lparen : TokKind
  t_rparen t_lbrace t_rbrace t_lbracket t_rbracket t_comma t_semi t_colon : TokKind
  t_coloncolon t_arrow t_doublearrow t_fatarrow t_plus t_minus t_star t_slash : TokKind
  t_percent t_pow t_assign t_plusassign t_minusassign t_starassign t_slashassign : TokKind
  t_percentassign t_dotassign t_powassign t_shlassign t_shrassign t_shl t_shr : TokKind
  t_eq t_neq t_eq2 t_neq2 t_spaceship t_lt t_gt t_le t_ge t_andand t_oror t_not : TokKind
  t_amp t_pipe t_caret t_tilde t_question t_questionquestion t_questioncolon : TokKind
  t_qqassign t_dot t_incr t_decr t_at t_ellipsis t_hash t_backslash t_newline : TokKind
  t_annotation : TokKind

pub record Token : Type 0 where
  pub kind : TokKind
  pub line : ℕ
  pub col : ℕ
  pub at : ℕ
  pub text : Bytes
  pub ival : ℤ
  pub fval : Bytes
  pub strs : List Bytes
  pub exprs : List (Option Bytes)

-- `Token t = {0}` with its position.
unfoldable pub blank : TokKind → ℕ → ℕ → ℕ → Token
blank k l c p = record {
  kind = k;
  line = l;
  col = c;
  at = p;
  text = [];
  ival = pos 0;
  fval = [];
  strs = [];
  exprs = [];
}

unfoldable pub keywords : List (Bytes × TokKind)
keywords =
    (codes "fn", t_kw_fn)
    ∷ (codes "let", t_kw_let)
    ∷ (codes "mut", t_kw_mut)
    ∷ (codes "own", t_kw_own)
    ∷ (codes "unsafe", t_kw_unsafe)
    ∷ (codes "match", t_kw_match)
    ∷ (codes "if", t_kw_if)
    ∷ (codes "else", t_kw_else)
    ∷ (codes "elseif", t_kw_elseif)
    ∷ (codes "while", t_kw_while)
    ∷ (codes "for", t_kw_for)
    ∷ (codes "foreach", t_kw_foreach)
    ∷ (codes "as", t_kw_as)
    ∷ (codes "in", t_kw_in)
    ∷ (codes "return", t_kw_return)
    ∷ (codes "echo", t_kw_echo)
    ∷ (codes "print", t_kw_print)
    ∷ (codes "break", t_kw_break)
    ∷ (codes "continue", t_kw_continue)
    ∷ (codes "class", t_kw_class)
    ∷ (codes "extends", t_kw_extends)
    ∷ (codes "implements", t_kw_implements)
    ∷ (codes "interface", t_kw_interface)
    ∷ (codes "trait", t_kw_trait)
    ∷ (codes "new", t_kw_new)
    ∷ (codes "this", t_kw_this)
    ∷ (codes "self", t_kw_self)
    ∷ (codes "parent", t_kw_parent)
    ∷ (codes "public", t_kw_public)
    ∷ (codes "protected", t_kw_protected)
    ∷ (codes "private", t_kw_private)
    ∷ (codes "static", t_kw_static)
    ∷ (codes "abstract", t_kw_abstract)
    ∷ (codes "final", t_kw_final)
    ∷ (codes "const", t_kw_const)
    ∷ (codes "enum", t_kw_enum)
    ∷ (codes "import", t_kw_import)
    ∷ (codes "export", t_kw_export)
    ∷ (codes "use", t_kw_use)
    ∷ (codes "function", t_kw_function)
    ∷ (codes "global", t_kw_global)
    ∷ (codes "try", t_kw_try)
    ∷ (codes "throw", t_hphp_throw)
    ∷ (codes "catch", t_hphp_catch)
    ∷ (codes "finally", t_hphp_finally)
    ∷ (codes "yield", t_hphp_yield)
    ∷ (codes "switch", t_kw_switch)
    ∷ (codes "case", t_kw_case)
    ∷ (codes "default", t_kw_default)
    ∷ (codes "do", t_kw_do)
    ∷ (codes "true", t_hphp_true)
    ∷ (codes "TRUE", t_hphp_true)
    ∷ (codes "false", t_hphp_false)
    ∷ (codes "FALSE", t_hphp_false)
    ∷ (codes "null", t_hphp_null)
    ∷ (codes "NULL", t_hphp_null)
    ∷ []

unfoldable pub lookup_in : List (Bytes × TokKind) → Bytes → TokKind
lookup_in [] s = t_ident
lookup_in ((w, k) ∷ ws) s = if bytes_eq w s then k else lookup_in ws s

unfoldable pub kw_lookup : Bytes → TokKind
unfolding lookup_in keywords
kw_lookup s = lookup_in keywords s

unfoldable pub tok_kind_name : TokKind → Bytes
tok_kind_name t_eof = codes "end of file"
tok_kind_name t_ident = codes "identifier"
tok_kind_name t_var = codes "variable"
tok_kind_name t_int = codes "integer"
tok_kind_name t_float = codes "float"
tok_kind_name t_str = codes "string literal"
tok_kind_name t_tpl = codes "string with interpolation"
tok_kind_name t_lparen = codes "'('"
tok_kind_name t_rparen = codes "')'"
tok_kind_name t_lbrace = codes "'{'"
tok_kind_name t_rbrace = codes "'}'"
tok_kind_name t_lbracket = codes "'['"
tok_kind_name t_rbracket = codes "']'"
tok_kind_name t_semi = codes "';'"
tok_kind_name t_colon = codes "':'"
tok_kind_name t_arrow = codes "'->'"
tok_kind_name t_doublearrow = codes "'=>'"
tok_kind_name t_assign = codes "'='"
tok_kind_name t_comma = codes "','"
tok_kind_name t_plus = codes "'+'"
tok_kind_name t_minus = codes "'-'"
tok_kind_name t_star = codes "'*'"
tok_kind_name t_slash = codes "'/'"
tok_kind_name t_percent = codes "'%'"
tok_kind_name t_pow = codes "'**'"
tok_kind_name t_dot = codes "'.'"
tok_kind_name t_eq = codes "'=='"
tok_kind_name t_eq2 = codes "'==='"
tok_kind_name t_neq = codes "'!='"
tok_kind_name t_neq2 = codes "'!=='"
tok_kind_name t_spaceship = codes "'<=>'"
tok_kind_name t_lt = codes "'<'"
tok_kind_name t_gt = codes "'>'"
tok_kind_name t_le = codes "'<='"
tok_kind_name t_ge = codes "'>='"
tok_kind_name t_andand = codes "'&&'"
tok_kind_name t_oror = codes "'||'"
tok_kind_name t_amp = codes "'&'"
tok_kind_name t_pipe = codes "'|'"
tok_kind_name t_caret = codes "'^'"
tok_kind_name t_shl = codes "'<<'"
tok_kind_name t_shr = codes "'>>'"
tok_kind_name t_not = codes "'!'"
tok_kind_name t_question = codes "'?'"
tok_kind_name t_questionquestion = codes "'??'"
tok_kind_name t_incr = codes "'++'"
tok_kind_name t_decr = codes "'--'"
tok_kind_name _ = codes "token"
