-- ===== src/Parser/Expr/Table.antt =====
-- The table of operator levels of src/hphpc/parser.c: no operator stands in two rows.
use holyphp.Prelude.{
  Bool, List, [], all_below, all_below_lem, arith, if◌then◌else◌, not, refl, true, ℕ, ◌+◌, ◌<◌,
  ◌==◌, ◌||◌, ◌∷◌, ◌≡◌, ◌≤◌,
}
use holyphp.Lexer.Token.{
  TokKind, t_arrow, t_coloncolon, t_eof, t_ident, t_kw_as, t_lbracket, t_lparen, t_pow,
}
use holyphp.Lexer.Kind.{same_kind}
use holyphp.Parser.Expr.{has_kind, in_level, levels}

-- A token behind an operand that the loop of `parse_postfix` does not go on with.
unfoldable pub ends_operand : TokKind → Bool
unfolding has_kind
ends_operand k =
    not (has_kind (t_lparen ∷ t_lbracket ∷ t_arrow ∷ t_coloncolon ∷ t_kw_as ∷ t_ident ∷ []) k)

-- The row of a kind, counted from 1; 12 for `**`, and 0 for a kind that is no binary operator.
unfoldable pub row_from : ℕ → List (List TokKind) → TokKind → ℕ
unfolding has_kind
row_from i [] k = if same_kind t_pow k then 12 else 0
row_from i (r ∷ rs) k = if has_kind r k then i else row_from (i + 1) rs k

unfoldable pub rank : TokKind → ℕ
unfolding row_from levels
rank k = row_from 1 levels k

abbrev unique_row : TokKind → ℕ → Bool
unique_row k l = if rank k == l + 1 then in_level l k else not (in_level l k)

rows_checked : (k : TokKind) → all_below 11 (unique_row k) ≡ true
unfolding rank in_level all_below
rows_checked t_eof = refl
rows_checked k = refl

-- A kind is found in the row of its rank and in no other.
pub in_level-rank : (k : TokKind) (l : ℕ) → l < 11 → in_level l k ≡ (rank k == l + 1)
in_level-rank k l h =
    let fits : unique_row k l ≡ true = all_below_lem 11 (unique_row k) (rows_checked k) l h in
    ground arith

pub pow-rank : (k : TokKind) → same_kind k t_pow ≡ (rank k == 12)
unfolding rank same_kind
pow-rank t_eof = refl
pow-rank k = refl

pub rank-le : (k : TokKind) → rank k ≤ 12
unfolding rank
rank-le t_eof = omega arith
rank-le k = omega arith

operators_checked : (k : TokKind) → (rank k == 0) || ends_operand k ≡ true
unfolding rank ends_operand
operators_checked t_eof = refl
operators_checked k = refl

pub operator_ends : (k : TokKind) → 0 < rank k → ends_operand k ≡ true
operator_ends k h = ground (arith, operators_checked k)
