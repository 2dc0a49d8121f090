-- ===== src/Lexer/Kind.antt =====
-- The kinds of tokens as the numbers that the enum of src/hphpc/token.h gives them, so that two kinds
-- can be compared.
use holyphp.Prelude.{Bool, List, [], arith, get_elem?, refl, some, true, ℕ, ◌==◌, ◌∷◌, ◌≡◌}
use holyphp.Lexer.Token.{
  TokKind, t_amp, t_andand, t_annotation, t_arrow, t_assign, t_at, t_backslash, t_caret, t_colon,
  t_coloncolon, t_comma, t_decr, t_dot, t_dotassign, t_doublearrow, t_ellipsis, t_eof, t_eq, t_eq2,
  t_error, t_fatarrow, t_float, t_ge, t_gt, t_hash, t_hphp_catch, t_hphp_false, t_hphp_finally,
  t_hphp_null, t_hphp_throw, t_hphp_true, t_hphp_yield, t_ident, t_incr, t_int, t_kw_abstract,
  t_kw_arrow, t_kw_as, t_kw_break, t_kw_case, t_kw_class, t_kw_const, t_kw_continue, t_kw_default,
  t_kw_do, t_kw_echo, t_kw_else, t_kw_elseif, t_kw_enum, t_kw_export, t_kw_extends, t_kw_final,
  t_kw_fn, t_kw_for, t_kw_foreach, t_kw_function, t_kw_global, t_kw_if, t_kw_implements,
  t_kw_import, t_kw_in, t_kw_interface, t_kw_let, t_kw_match, t_kw_mut, t_kw_new, t_kw_own,
  t_kw_parent, t_kw_print, t_kw_private, t_kw_protected, t_kw_public, t_kw_return, t_kw_self,
  t_kw_static, t_kw_switch, t_kw_this, t_kw_trait, t_kw_try, t_kw_unsafe, t_kw_use, t_kw_while,
  t_lbrace, t_lbracket, t_le, t_lparen, t_lt, t_minus, t_minusassign, t_neq, t_neq2, t_newline,
  t_not, t_oror, t_percent, t_percentassign, t_pipe, t_plus, t_plusassign, t_pow, t_powassign,
  t_qqassign, t_question, t_questioncolon, t_questionquestion, t_rbrace, t_rbracket, t_rparen,
  t_semi, t_shl, t_shlassign, t_shr, t_shrassign, t_slash, t_slashassign, t_spaceship, t_star,
  t_starassign, t_str, t_tilde, t_tpl, t_var,
}

unfoldable pub kind_code : TokKind → ℕ
kind_code t_eof = 0
kind_code t_error = 1
kind_code t_ident = 2
kind_code t_var = 3
kind_code t_int = 4
kind_code t_float = 5
kind_code t_str = 6
kind_code t_tpl = 7
kind_code t_kw_fn = 8
kind_code t_kw_let = 9
kind_code t_kw_mut = 10
kind_code t_kw_own = 11
kind_code t_kw_unsafe = 12
kind_code t_kw_match = 13
kind_code t_kw_if = 14
kind_code t_kw_else = 15
kind_code t_kw_elseif = 16
kind_code t_kw_while = 17
kind_code t_kw_for = 18
kind_code t_kw_foreach = 19
kind_code t_kw_as = 20
kind_code t_kw_in = 21
kind_code t_kw_return = 22
kind_code t_kw_echo = 23
kind_code t_kw_print = 24
kind_code t_kw_break = 25
kind_code t_kw_continue = 26
kind_code t_kw_class = 27
kind_code t_kw_extends = 28
kind_code t_kw_implements = 29
kind_code t_kw_interface = 30
kind_code t_kw_trait = 31
kind_code t_kw_new = 32
kind_code t_kw_this = 33
kind_code t_kw_self = 34
kind_code t_kw_parent = 35
kind_code t_kw_public = 36
kind_code t_kw_protected = 37
kind_code t_kw_private = 38
kind_code t_kw_static = 39
kind_code t_kw_abstract = 40
kind_code t_kw_final = 41
kind_code t_kw_const = 42
kind_code t_kw_enum = 43
kind_code t_kw_import = 44
kind_code t_kw_export = 45
kind_code t_kw_use = 46
kind_code t_kw_function = 47
kind_code t_kw_global = 48
kind_code t_kw_try = 49
kind_code t_hphp_throw = 50
kind_code t_hphp_catch = 51
kind_code t_hphp_finally = 52
kind_code t_hphp_yield = 53
kind_code t_kw_switch = 54
kind_code t_kw_case = 55
kind_code t_kw_default = 56
kind_code t_kw_do = 57
kind_code t_kw_arrow = 58
kind_code t_hphp_true = 59
kind_code t_hphp_false = 60
kind_code t_hphp_null = 61
kind_code t_lparen = 62
kind_code t_rparen = 63
kind_code t_lbrace = 64
kind_code t_rbrace = 65
kind_code t_lbracket = 66
kind_code t_rbracket = 67
kind_code t_comma = 68
kind_code t_semi = 69
kind_code t_colon = 70
kind_code t_coloncolon = 71
kind_code t_arrow = 72
kind_code t_doublearrow = 73
kind_code t_fatarrow = 74
kind_code t_plus = 75
kind_code t_minus = 76
kind_code t_star = 77
kind_code t_slash = 78
kind_code t_percent = 79
kind_code t_pow = 80
kind_code t_assign = 81
kind_code t_plusassign = 82
kind_code t_minusassign = 83
kind_code t_starassign = 84
kind_code t_slashassign = 85
kind_code t_percentassign = 86
kind_code t_dotassign = 87
kind_code t_powassign = 88
kind_code t_shlassign = 89
kind_code t_shrassign = 90
kind_code t_shl = 91
kind_code t_shr = 92
kind_code t_eq = 93
kind_code t_neq = 94
kind_code t_eq2 = 95
kind_code t_neq2 = 96
kind_code t_spaceship = 97
kind_code t_lt = 98
kind_code t_gt = 99
kind_code t_le = 100
kind_code t_ge = 101
kind_code t_andand = 102
kind_code t_oror = 103
kind_code t_not = 104
kind_code t_amp = 105
kind_code t_pipe = 106
kind_code t_caret = 107
kind_code t_tilde = 108
kind_code t_question = 109
kind_code t_questionquestion = 110
kind_code t_questioncolon = 111
kind_code t_qqassign = 112
kind_code t_dot = 113
kind_code t_incr = 114
kind_code t_decr = 115
kind_code t_at = 116
kind_code t_ellipsis = 117
kind_code t_hash = 118
kind_code t_backslash = 119
kind_code t_newline = 120
kind_code t_annotation = 121

unfoldable pub same_kind : TokKind → TokKind → Bool
unfolding kind_code
same_kind a b = kind_code a == kind_code b

all_kinds : List TokKind
all_kinds =
    t_eof ∷ t_error ∷ t_ident ∷ t_var ∷ t_int ∷ t_float ∷ t_str ∷ t_tpl ∷ t_kw_fn ∷ t_kw_let
    ∷ t_kw_mut ∷ t_kw_own ∷ t_kw_unsafe ∷ t_kw_match ∷ t_kw_if ∷ t_kw_else ∷ t_kw_elseif
    ∷ t_kw_while ∷ t_kw_for ∷ t_kw_foreach ∷ t_kw_as ∷ t_kw_in ∷ t_kw_return ∷ t_kw_echo
    ∷ t_kw_print ∷ t_kw_break ∷ t_kw_continue ∷ t_kw_class ∷ t_kw_extends ∷ t_kw_implements
    ∷ t_kw_interface ∷ t_kw_trait ∷ t_kw_new ∷ t_kw_this ∷ t_kw_self ∷ t_kw_parent ∷ t_kw_public
    ∷ t_kw_protected ∷ t_kw_private ∷ t_kw_static ∷ t_kw_abstract ∷ t_kw_final ∷ t_kw_const
    ∷ t_kw_enum ∷ t_kw_import ∷ t_kw_export ∷ t_kw_use ∷ t_kw_function ∷ t_kw_global ∷ t_kw_try
    ∷ t_hphp_throw ∷ t_hphp_catch ∷ t_hphp_finally ∷ t_hphp_yield ∷ t_kw_switch ∷ t_kw_case
    ∷ t_kw_default ∷ t_kw_do ∷ t_kw_arrow ∷ t_hphp_true ∷ t_hphp_false ∷ t_hphp_null ∷ t_lparen
    ∷ t_rparen ∷ t_lbrace ∷ t_rbrace ∷ t_lbracket ∷ t_rbracket ∷ t_comma ∷ t_semi ∷ t_colon
    ∷ t_coloncolon ∷ t_arrow ∷ t_doublearrow ∷ t_fatarrow ∷ t_plus ∷ t_minus ∷ t_star ∷ t_slash
    ∷ t_percent ∷ t_pow ∷ t_assign ∷ t_plusassign ∷ t_minusassign ∷ t_starassign ∷ t_slashassign
    ∷ t_percentassign ∷ t_dotassign ∷ t_powassign ∷ t_shlassign ∷ t_shrassign ∷ t_shl ∷ t_shr ∷ t_eq
    ∷ t_neq ∷ t_eq2 ∷ t_neq2 ∷ t_spaceship ∷ t_lt ∷ t_gt ∷ t_le ∷ t_ge ∷ t_andand ∷ t_oror ∷ t_not
    ∷ t_amp ∷ t_pipe ∷ t_caret ∷ t_tilde ∷ t_question ∷ t_questionquestion ∷ t_questioncolon
    ∷ t_qqassign ∷ t_dot ∷ t_incr ∷ t_decr ∷ t_at ∷ t_ellipsis ∷ t_hash ∷ t_backslash ∷ t_newline
    ∷ t_annotation ∷ []

decode-kind_code : (k : TokKind) → get_elem? all_kinds (kind_code k) ≡ some k
unfolding all_kinds kind_code
decode-kind_code t_eof = refl
decode-kind_code k = refl

pub same_kind_sound : (a b : TokKind) → same_kind a b ≡ true → a ≡ b
unfolding same_kind
same_kind_sound a b h =
    let e : kind_code a ≡ kind_code b = ground arith in cc (decode-kind_code a, decode-kind_code b)

pub same_kind_refl : (a : TokKind) → same_kind a a ≡ true
unfolding same_kind
same_kind_refl a = ground arith
