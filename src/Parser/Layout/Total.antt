-- ===== src/Parser/Layout/Total.antt =====
-- The fuel of `collect`, the loop of `lex_all` of src/hphpc/parser.c over `lex_next`.
use holyphp.Prelude.{Bytes, [], arith, length, suc, zero, ℕ, ◌<◌, ◌∷◌, ◌≢◌, ◌≤◌}
use holyphp.Lexer.Token.{Token}
use holyphp.Lexer.Cursor.{Lexer, c_string, left, lex_init}
use holyphp.Lexer.Next.{Lexed, ended, fatal, lex_next, token}
use holyphp.Lexer.Trivia.{skip_trivia}
use holyphp.Lexer.Progress.Scan.{skip_trivia-Moves}
use holyphp.Lexer.Progress.Next.{Outcome, lex_next-Outcome}
use holyphp.Parser.Layout.{
  Raw, all, collect, collect_step, failed, filter_raw, lex_all, prepend, starved,
}

prepend-ne-starved : (t : Token) (r : Raw) → r ≢ starved → prepend t r ≢ starved
prepend-ne-starved t (all ts) h = λ e. cc e
prepend-ne-starved t (failed e) h = λ e. cc e
prepend-ne-starved t starved h = λ e. h e

step-ne-starved :
    (lx : Lexer) (out : Lexed) (rest : Lexer → Raw)
    → Outcome lx out
    → ((stop : Lexer) → length (left stop) < length (left lx) → rest stop ≢ starved)
    → collect_step out rest ≢ starved
step-ne-starved lx (token t stop) rest o h = prepend-ne-starved t (rest stop) (h stop o.0.strict)
step-ne-starved lx (ended t stop) rest o h = λ e. cc e
step-ne-starved lx (fatal err) rest o h = λ e. cc e

collect_total : (fuel : ℕ) (lx : Lexer) → length (left lx) < fuel → collect fuel lx ≢ starved
unfolding collect
collect_total zero lx h = absurd (omega arith)
collect_total (suc fuel) lx h =
    step-ne-starved (skip_trivia lx) (lex_next lx) (collect fuel) (lex_next-Outcome lx)
      (λ stop s. collect_total fuel stop (omega (arith, (skip_trivia-Moves lx).shrinks)))

length-c_string : (src : Bytes) → length (c_string src) ≤ length src
unfolding c_string
length-c_string [] = omega arith
length-c_string (c ∷ s) = ground (arith, length-c_string s)

filter-ne-starved : (r : Raw) → r ≢ starved → filter_raw r ≢ starved
filter-ne-starved (all ts) h = λ e. cc e
filter-ne-starved (failed e) h = λ e. cc e
filter-ne-starved starved h = h

-- Lexing ends for every source text: it gives a token vector or reports an error.
pub lex_all_total : (src : Bytes) → lex_all src ≢ starved
unfolding lex_all
lex_all_total src = filter-ne-starved _ (
    collect_total (suc (length src)) (lex_init src)
      (unfold lex_init in omega (arith, length-c_string src)))
