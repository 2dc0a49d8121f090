-- ===== src/Parser/Expr/Postfix.antt =====
-- `parse_call_args` and `parse_postfix` of src/hphpc/parser.c, over `parse_primary` and `parse_expr`, which
-- are parameters. The loops run on fuel, one unit for each turn, and every turn reads a token.
use holyphp.Prelude.{
  Bool, List, arith, codes, false, if◌then◌else◌, not, refl, suc, true, zero, ℕ, ◌&&◌, ◌||◌, ◌∙◌,
  ◌∷◌, ◌≡◌,
}
use holyphp.Ast.Print.{Ty}
use holyphp.Lexer.Token.{
  TokKind, Token, t_arrow, t_coloncolon, t_comma, t_ellipsis, t_eof, t_ident, t_kw_as, t_lbracket,
  t_lparen, t_rbracket, t_rparen, t_var,
}
use holyphp.Lexer.Kind.{same_kind}
use holyphp.Parser.Stream.{TokenStream}
use holyphp.Parser.Types.{
  Parser, advance, check, expect, failed, give, got, match_kind, parse_type, starved, ◌>>=◌,
}
use holyphp.Parser.Types.Rejects.{bind_got}
use holyphp.Parser.Expr.{
  Args, Expr, arg, at_ident, call, cast, field, index, index_open, is_check, look, look2, method,
  none_left, slice, slice_open, static_call, var,
}
use holyphp.Parser.Expr.Table.{ends_operand}
use holyphp.Parser.Expr.Ahead.{At, at_ident_off, look2_at, look_at}
use holyphp.Parser.Expr.Grammar.{ReadsOperand}

abbrev pub is_bare_var : {A : Type 0} → Expr A → Bool
is_bare_var (var b t) = b
is_bare_var e = false

module _ {A : Type 0} (parse_expr : Parser (Expr A)) where
  unfoldable pub args_loop : ℕ → Parser (Args A)
  unfolding check match_kind
  args_loop zero = λ ts. starved
  args_loop (suc fuel) =
      let rest = args_loop fuel in
      do
        close ← check t_rparen
        at_end ← check t_eof
        if close || at_end then give none_left else (do
          a ← parse_expr
          comma ← match_kind t_comma
          if comma then (do as' ← rest; give (arg a as')) else give (arg a none_left))

  unfoldable pub parse_call_args : ℕ → Parser (Args A)
  unfolding args_loop expect
  parse_call_args n = do _ ← expect t_lparen; as' ← args_loop n; _ ← expect t_rparen; give as'

  -- `[a..b]` from the dots on.
  unfoldable pub slice_rest : Expr A → Expr A → Parser (Expr A)
  unfolding advance check expect
  slice_rest e lo = do
    _ ← advance
    close ← check t_rbracket
    (if close
        then (do _ ← expect t_rbracket; give (slice_open e lo))
        else (do hi ← parse_expr; _ ← expect t_rbracket; give (slice e lo hi)))

  -- What stands in brackets behind `e`; `t` is the bracket.
  unfoldable pub index_rest : Token → Expr A → Parser (Expr A)
  unfolding advance check expect slice_rest
  index_rest t e = do
    _ ← advance
    close ← check t_rbracket
    (if close then (do _ ← expect t_rbracket; give (index_open t e)) else (do
      i ← parse_expr
      dots ← check t_ellipsis
      if dots then slice_rest e i else (do _ ← expect t_rbracket; give (index t e i))))

  unfoldable pub member_rest : ℕ → Token → Expr A → Parser (Expr A)
  unfolding advance check expect parse_call_args
  member_rest n t e = do
    _ ← advance
    nm ← expect t_ident
    open' ← check t_lparen
    (if open'
        then (do as' ← parse_call_args n; give (method t e nm as'))
        else give (field false t e nm))

  -- A call behind `::` ends the program unless a name stands in front.
  unfoldable pub static_args : ℕ → Token → Expr A → Token → Parser (Expr A)
  unfolding parse_call_args
  static_args n t (var b c) nm = do as' ← parse_call_args n; give (static_call t c.text nm as')
  static_args n t e nm = λ ts. failed

  unfoldable pub static_rest : ℕ → Token → Expr A → Parser (Expr A)
  unfolding advance check expect static_args
  static_rest n t e = do
    _ ← advance
    nm ← expect t_ident
    open' ← check t_lparen
    (if open' then static_args n t e nm else give (field true t e nm))

  -- `as` and `is` with their type.
  unfoldable pub typed_rest : ℕ → (Token → Ty → Expr A → Expr A) → Token → Expr A → Parser (Expr A)
  unfolding advance parse_type
  typed_rest n f t e = do _ ← advance; ty ← parse_type n; give (f t ty e)

  -- The loop of `parse_postfix` behind the operand `e`.
  unfoldable pub postfix_loop : ℕ → ℕ → Expr A → Parser (Expr A)
  unfolding look look2 at_ident same_kind index_rest member_rest static_rest parse_call_args
      typed_rest
  postfix_loop zero n e = λ ts. starved
  postfix_loop (suc fuel) n e = do
    t ← look
    t2 ← look2
    as' ← at_ident (codes "as")
    is' ← at_ident (codes "is")
    (if same_kind t.kind t_lbracket
        then (do x ← index_rest t e; postfix_loop fuel n x)
        else if same_kind t.kind t_arrow
        then (do x ← member_rest n t e; postfix_loop fuel n x)
        else if same_kind t.kind t_coloncolon
        then (do x ← static_rest n t e; postfix_loop fuel n x)
        else if same_kind t.kind t_lparen && not (is_bare_var e)
        then (do as' ← parse_call_args n; postfix_loop fuel n (call t e as'))
        else if (same_kind t.kind t_kw_as || as') && not (same_kind t2.kind t_var)
        then (do x ← typed_rest n cast t e; postfix_loop fuel n x)
        else if is'
        then (do x ← typed_rest n is_check t e; postfix_loop fuel n x)
        else give e)

  unfoldable pub parse_postfix : Parser (Expr A) → ℕ → Parser (Expr A)
  unfolding postfix_loop
  parse_postfix parse_primary n = do e ← parse_primary; postfix_loop n n e

-- The kinds at which the loop goes on are not among those that end an operand.
module _ (k : TokKind) (en : ends_operand k ≡ true) where
  off_ident : same_kind k t_ident ≡ false
  unfolding ends_operand
  off_ident = ground arith

  off_brackets : (same_kind k t_lbracket ≡ false) × (same_kind k t_lparen ≡ false)
  unfolding ends_operand
  off_brackets = (ground arith, ground arith)

  off_members :
      (same_kind k t_arrow ≡ false)
      × (same_kind k t_coloncolon ≡ false)
      × (same_kind k t_kw_as ≡ false)
  unfolding ends_operand
  off_members = (ground arith, ground arith, ground arith)

module _ {A : Type 0} (parse_expr : Parser (Expr A)) where
  -- In front of a token that cannot go on with an operand the loop returns what it has.
  postfix_loop_stops :
      (fuel n : ℕ) (e : Expr A) (ts : TokenStream) (t : Token) (r : List Token)
      → At ts (t ∷ r)
      → ends_operand t.kind ≡ true
      → postfix_loop parse_expr (suc fuel) n e ts ≡ got e ts
  unfolding postfix_loop
  postfix_loop_stops fuel n e ts t r a en =
      let (u, e2) = look2_at ts t r a in
      let (no_bracket, no_paren) = off_brackets t.kind en in
      let (no_arrow, no_colons, no_as) = off_members t.kind en in
      bind_got look _ ts (look_at ts t r a)
      ∙ bind_got look2 _ ts e2
      ∙ bind_got (at_ident (codes "as")) _ ts
          (at_ident_off ts t r a (codes "as") (off_ident t.kind en))
      ∙ bind_got (at_ident (codes "is")) _ ts
          (at_ident_off ts t r a (codes "is") (off_ident t.kind en))
      ∙ rw (no_bracket, no_arrow, no_colons, no_paren, no_as) refl

  -- What is asked of `parse_primary` on the operands of a relation: they begin with no prefix operator and
  -- are read up to any token that cannot go on with an operand.
  pub parse_postfix-ReadsOperand :
      (Primary : List Token → Expr A → Type 0) (parse_primary : Parser (Expr A)) (n : ℕ)
      → ReadsOperand Primary parse_primary
      → ReadsOperand Primary (parse_postfix parse_expr parse_primary (suc n))
  unfolding parse_postfix
  parse_postfix-ReadsOperand Primary parse_primary n h = record {
    begins = h.begins;
    reads = λ xs x ts t r o a en.
        let (ts', found, a') = h.reads xs x ts t r o a en in
        (ts', bind_got parse_primary _ ts found ∙ postfix_loop_stops n (suc n) x ts' t r a' en, a');
  }
