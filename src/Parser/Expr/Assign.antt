-- ===== src/Parser/Expr/Assign.antt =====
-- `parse_ternary` and `parse_assign` of src/hphpc/parser.c, over `parse_postfix`.
use holyphp.Prelude.{Bool, [], false, if◌then◌else◌, suc, zero, ℕ, ◌&&◌, ◌∷◌}
use holyphp.Lexer.Token.{
  TokKind, t_amp, t_assign, t_colon, t_decr, t_dotassign, t_ident, t_incr, t_kw_fn, t_kw_own,
  t_lbracket, t_minus, t_minusassign, t_percentassign, t_plus, t_plusassign, t_powassign,
  t_qqassign, t_question, t_questionquestion, t_shlassign, t_shrassign, t_slashassign, t_star,
  t_starassign, t_var,
}
use holyphp.Lexer.Kind.{same_kind}
use holyphp.Parser.Types.{Parser, advance, expect, give, match_kind, parse_type, starved, ◌>>=◌}
use holyphp.Parser.Expr.{
  Expr, assign, bin, coalesce, declare, declare_as, has_kind, look, look2, look3, one,
  parse_binop_level, set_to, ternary,
}

unfoldable pub tok_starts_type : TokKind → Bool
unfolding has_kind
tok_starts_type k = has_kind (t_ident ∷ t_amp ∷ t_star ∷ t_lbracket ∷ t_kw_fn ∷ t_kw_own ∷ []) k

-- The kinds of the first cases of the `switch` in `parse_assign`, without `??=`.
unfoldable pub is_assign_op : TokKind → Bool
unfolding has_kind
is_assign_op k =
    has_kind
      (t_assign ∷ t_plusassign ∷ t_minusassign ∷ t_starassign ∷ t_slashassign ∷ t_percentassign
        ∷ t_dotassign ∷ t_powassign ∷ t_shlassign ∷ t_shrassign ∷ [])
      k

module _ {A : Type 0} (parse_postfix : Parser (Expr A)) where
  -- The branches of `?`.
  unfoldable pub branches : Expr A → Parser (Expr A) → Parser (Expr A) → Parser (Expr A)
  unfolding expect
  branches c parse_assign rec = do
    a ← parse_assign
    _ ← expect t_colon
    b ← rec
    give (ternary c a b)

  unfoldable pub parse_ternary : ℕ → ℕ → Parser (Expr A) → Parser (Expr A)
  unfolding parse_binop_level match_kind branches
  parse_ternary zero n parse_assign = λ ts. starved
  parse_ternary (suc fuel) n parse_assign =
      let rec = parse_ternary fuel n parse_assign in
      do
        c ← parse_binop_level parse_postfix 11 n
        qq ← match_kind t_questionquestion
        q ← if qq then give false else match_kind t_question
        if qq
            then (do b ← rec; give (coalesce c b))
            else if q
            then branches c parse_assign rec
            else give c

  -- A declaration with a type.
  unfoldable pub declaration : ℕ → Parser (Expr A) → Parser (Expr A)
  unfolding advance parse_type match_kind
  declaration n rec = do
    v ← advance
    _ ← advance
    ty ← parse_type n
    e ← match_kind t_assign
    (if e then (do x ← rec; give (declare_as v ty x)) else give (declare v ty))

  -- `++` and `--`, as an assignment of a sum.
  unfoldable pub step_by : TokKind → Expr A → Parser (Expr A)
  unfolding advance
  step_by k lhs = do op ← advance; give (set_to op lhs (bin (record op { kind = k }) lhs (one op)))

  -- What may stand behind the target of an assignment. The case for destructuring is not reached: a `=`
  -- is one of the first cases.
  unfoldable pub assign_rest : ℕ → Parser (Expr A) → Expr A → Parser (Expr A)
  unfolding look advance is_assign_op same_kind parse_ternary step_by
  assign_rest n rec lhs = do
    t ← look
    (if is_assign_op t.kind
        then (do op ← advance; x ← rec; give (assign op lhs x))
        else if same_kind t.kind t_qqassign
        then (do op ← advance; x ← parse_ternary n n rec; give (assign op lhs x))
        else if same_kind t.kind t_incr
        then step_by t_plus lhs
        else if same_kind t.kind t_decr
        then step_by t_minus lhs
        else give lhs)

  unfoldable pub parse_assign : ℕ → ℕ → Parser (Expr A)
  unfolding look look2 look3 same_kind tok_starts_type declaration parse_ternary assign_rest
  parse_assign zero n = λ ts. starved
  parse_assign (suc fuel) n =
      let rec = parse_assign fuel n in
      do
        t ← look
        t2 ← look2
        t3 ← look3
        (if same_kind t.kind t_var && same_kind t2.kind t_colon && tok_starts_type t3.kind
            then declaration n rec
            else (do lhs ← parse_ternary n n rec; assign_rest n rec lhs))
