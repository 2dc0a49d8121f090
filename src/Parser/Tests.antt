-- ===== src/Parser/Tests.antt =====
-- Runs of `lex_all`, of the token stream and of `parse_type`.
use holyphp.Prelude.{List, [], bytes_eq, codes, refl, some, ◌∷◌, ◌≡◌, ◌≢◌}
use holyphp.Prelude.Int.{pos}
use holyphp.Lexer.Token.{
  TokKind, Token, blank, kw_lookup, t_amp, t_eof, t_ident, t_kw_mut, t_newline, t_plus,
}
use holyphp.Parser.Layout.{Raw, layout, lex_all, starved}
use holyphp.Parser.Layout.Filter.{without_newlines, without_newlines-layout}
use holyphp.Parser.Layout.Total.{lex_all_total}
use holyphp.Parser.Stream.{TokenStream, step, ts_peek}
use holyphp.Parser.Types.{Parsed, parse_type}
use holyphp.Parser.Types.Rejects.{reference_mut_rejected}

abbrev tok : TokKind → Token
tok k = record {
  kind = k;
  line = 1;
  col = 0;
  at = 0;
  text = [];
  ival = pos 0;
  fval = [];
  strs = [];
  exprs = [];
}

-- `x +`, a line break, `y`, a line break and the end.
abbrev sum : List Token
sum = tok t_ident ∷ tok t_plus ∷ tok t_newline ∷ tok t_ident ∷ tok t_newline ∷ tok t_eof ∷ []

lex_all_total_example : lex_all (codes "let x = [1,\n2]\n") ≢ starved
lex_all_total_example = lex_all_total (codes "let x = [1,\n2]\n")

without_newlines-layout_example : without_newlines (layout [] t_eof sum) ≡ without_newlines sum
without_newlines-layout_example = without_newlines-layout [] t_eof sum

abbrev only_end : List Token
only_end = tok t_eof ∷ []

blanks_read : lex_all (codes "  # x") ≡ Raw.all only_end
unfolding lex_all blank
blanks_read = refl

abbrev sum_stream : TokenStream
sum_stream = record { toks = sum; idx = 2 }

-- `&mut int`
abbrev mut_reference : TokenStream
mut_reference = record { toks = tok t_amp ∷ tok t_kw_mut ∷ tok t_ident ∷ tok t_eof ∷ []; idx = 0 }

amp_peeked : ts_peek mut_reference ≡ some (tok t_amp)
unfolding ts_peek
amp_peeked = refl

mut_peeked : ts_peek (step mut_reference) ≡ some (tok t_kw_mut)
unfolding ts_peek step
mut_peeked = refl

mut_keyword : t_kw_mut ≡ kw_lookup (codes "mut")
unfolding kw_lookup bytes_eq
mut_keyword = refl

reference_mut_rejected_example : parse_type 10 mut_reference ≡ Parsed.failed
reference_mut_rejected_example =
    reference_mut_rejected 8 mut_reference (tok t_amp) (tok t_kw_mut) amp_peeked refl mut_peeked
      mut_keyword
