-- ===== src/Parser/Layout/Ends.antt =====
-- The size of the token vector of `lex_all` of src/hphpc/parser.c, which the peeks of the parser rely on.
use holyphp.Prelude.{
  Bool-cases, Bytes, List, [], ap, arith, inl, inr, length, refl, suc, sym, zero, ℕ, ◌<◌, ◌∙◌, ◌∷◌,
  ◌≡◌, ◌≢◌,
}
use holyphp.Lexer.Token.{Token, blank, t_eof}
use holyphp.Lexer.Cursor.{Lexer, lex_init}
use holyphp.Lexer.Next.{Lexed, ended, fatal, lex_next, token}
use holyphp.Parser.Layout.{
  Raw, all, collect, collect_step, eof_token, failed, filter_raw, is_newline, lex_all, prepend,
  starved,
}
use holyphp.Parser.Layout.Filter.{without_newlines, without_newlines-layout}
use holyphp.Parser.Stream.{IsValid, ts_init}

-- A result that is a vector has a token other than newlines.
abbrev HasToken : Raw → Type 0
HasToken (all ts) = without_newlines ts ≢ []
HasToken (failed e) = Unit
HasToken starved = Unit

prepend-HasToken : (t : Token) (r : Raw) → HasToken r → HasToken (prepend t r)
unfolding without_newlines
prepend-HasToken t (all ts) h = elim (Bool-cases (is_newline t.kind)) [
  | inl e ↦ rw e h
  | inr e ↦ rw e (λ nil. cc)
]
prepend-HasToken t (failed e) h = tt
prepend-HasToken t starved h = tt

eof_kept : (t : Token) → without_newlines (eof_token t ∷ []) ≢ []
unfolding without_newlines is_newline blank
eof_kept t = λ nil. cc

step-HasToken :
    (out : Lexed) (rest : Lexer → Raw)
    → ((stop : Lexer) → HasToken (rest stop))
    → HasToken (collect_step out rest)
step-HasToken (token t stop) rest h = prepend-HasToken t (rest stop) (h stop)
step-HasToken (ended t stop) rest h = eof_kept t
step-HasToken (fatal e) rest h = tt

collect-HasToken : (fuel : ℕ) (lx : Lexer) → HasToken (collect fuel lx)
unfolding collect
collect-HasToken zero lx = tt
collect-HasToken (suc fuel) lx = step-HasToken (lex_next lx) (collect fuel) (collect-HasToken fuel)

filter-HasToken : (r : Raw) → HasToken r → HasToken (filter_raw r)
filter-HasToken (all ts) h = λ nil. h (sym (without_newlines-layout [] t_eof ts) ∙ nil)
filter-HasToken (failed e) h = tt
filter-HasToken starved h = tt

some_token : (ts : List Token) → without_newlines ts ≢ [] → 0 < length ts
unfolding without_newlines
some_token [] h = absurd (h refl)
some_token (t ∷ ts) h = omega arith

-- The vector that `lex_all` gives holds a token, so the stream that the parser makes of it is valid.
pub lex_all-IsValid : (src : Bytes) (ts : List Token) → lex_all src ≡ all ts → IsValid (ts_init ts)
unfolding lex_all ts_init
lex_all-IsValid src ts e =
    let out = collect (suc (length src)) (lex_init src) in
    let held : HasToken (all ts) =
      rw (← ap HasToken e)
        (filter-HasToken out (collect-HasToken (suc (length src)) (lex_init src))) in
    record { inside = some_token ts held }
