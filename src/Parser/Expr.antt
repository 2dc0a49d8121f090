-- ===== src/Parser/Expr.antt =====
-- The operators of src/hphpc/parser.c: `parse_binop_level` with its table
-- of levels, `parse_pow` and `parse_unary`. They stand over `parse_postfix`, which reads an operand and
-- is a parameter here; Parser/Expr/Postfix has it. A recursion that reads a token in every
-- turn has one unit of fuel for each token of the vector.
pub mod Table
pub mod Ahead
pub mod Grammar
pub mod Unary
pub mod Binary
pub mod Postfix
pub mod Assign
mod Tests
use holyphp.Prelude.{
  Bool, Bytes, List, [], bytes_eq, codes, false, get_or, if◌then◌else◌, some, suc, zero, ℕ, ◌&&◌,
  ◌-◌, ◌||◌, ◌∷◌, ◌>>=◌ as bind_option,
}
use holyphp.Ast.Print.{Ty}
use holyphp.Lexer.Token.{
  TokKind, Token, t_amp, t_andand, t_caret, t_dot, t_eq, t_eq2, t_ge, t_gt, t_ident, t_le, t_lt,
  t_minus, t_neq, t_neq2, t_not, t_oror, t_percent, t_pipe, t_plus, t_pow, t_shl, t_shr, t_slash,
  t_spaceship, t_star, t_tilde, t_var,
}
use holyphp.Lexer.Kind.{same_kind}
use holyphp.Parser.Stream.{ts_peek, ts_peek2, ts_peek3}
use holyphp.Parser.Types.{Parser, advance, check, eat_ident, give, of_option, starved, ◌>>=◌}

-- `bin` and `un` keep the operator's token. `set_to` is an assignment whose operator is only the kind
-- `=`, and `one` is the literal of `++` and `--`. A `var` may be a bare name. Where an index or the end of
-- a slice is left out the constructor ends in `_open`; `leaf` is what only `parse_primary` builds.
mutual
  pub data Expr (A : Type 0) : Type 0 where
    leaf : A → Expr A
    var : (bare_name : Bool) → Token → Expr A
    one : Token → Expr A
    bin : Token → Expr A → Expr A → Expr A
    un : Token → Expr A → Expr A
    borrow mutborrow deref : Token → Expr A → Expr A
    coalesce : Expr A → Expr A → Expr A
    ternary : Expr A → Expr A → Expr A → Expr A
    assign : Token → Expr A → Expr A → Expr A
    set_to : Token → Expr A → Expr A → Expr A
    declare : Token → Ty → Expr A
    declare_as : Token → Ty → Expr A → Expr A
    index : Token → Expr A → Expr A → Expr A
    index_open : Token → Expr A → Expr A
    slice : Expr A → Expr A → Expr A → Expr A
    slice_open : Expr A → Expr A → Expr A
    method : Token → Expr A → Token → Args A → Expr A
    field : (is_static : Bool) → Token → Expr A → Token → Expr A
    static_call : Token → (cls : Bytes) → Token → Args A → Expr A
    call : Token → Expr A → Args A → Expr A
    cast is_check : Token → Ty → Expr A → Expr A

  pub data Args (A : Type 0) : Type 0 where
    none_left : Args A
    arg : Expr A → Args A → Args A

-- The table of levels, from the loosest operators to the tightest.
unfoldable pub levels : List (List TokKind)
levels =
    (t_oror ∷ [])
    ∷ (t_andand ∷ [])
    ∷ (t_pipe ∷ [])
    ∷ (t_caret ∷ [])
    ∷ (t_amp ∷ [])
    ∷ (t_eq ∷ t_neq ∷ t_neq2 ∷ t_eq2 ∷ t_spaceship ∷ [])
    ∷ (t_lt ∷ t_gt ∷ t_le ∷ t_ge ∷ [])
    ∷ (t_dot ∷ [])
    ∷ (t_shl ∷ t_shr ∷ [])
    ∷ (t_plus ∷ t_minus ∷ [])
    ∷ (t_star ∷ t_slash ∷ t_percent ∷ [])
    ∷ []

unfoldable pub has_kind : List TokKind → TokKind → Bool
unfolding same_kind
has_kind [] k = false
has_kind (o ∷ os) k = same_kind o k || has_kind os k

-- The search of `parse_binop_level` in the row of its level.
unfoldable pub in_level : ℕ → TokKind → Bool
unfolding levels has_kind
in_level lvl k = has_kind (get_or levels lvl []) k

unfoldable pub look : Parser Token
unfolding ts_peek
look ts = of_option (bind_option (ts_peek ts) (λ t. some (t, ts)))

unfoldable pub look2 : Parser Token
unfolding ts_peek2
look2 ts = of_option (bind_option (ts_peek2 ts) (λ t. some (t, ts)))

unfoldable pub look3 : Parser Token
unfolding ts_peek3
look3 ts = of_option (bind_option (ts_peek3 ts) (λ t. some (t, ts)))

unfoldable pub at_ident : Bytes → Parser Bool
unfolding ts_peek same_kind bytes_eq
at_ident kw ts =
    of_option
      (bind_option (ts_peek ts) (λ t. some (same_kind t.kind t_ident && bytes_eq t.text kw, ts)))

unfoldable pub is_prefix_op : TokKind → Bool
unfolding has_kind
is_prefix_op k = has_kind (t_not ∷ t_minus ∷ t_plus ∷ t_tilde ∷ []) k

module _ {A : Type 0} (parse_postfix : Parser (Expr A)) where
  -- A prefix operator in front of what `rec` reads.
  abbrev pub prefix_op : (Token → Expr A → Expr A) → Parser (Expr A) → Parser (Expr A)
  prefix_op f rec = do op ← advance; x ← rec; give (f op x)

  -- `&`, and `mut` where it is an identifier.
  unfoldable pub borrow_op : Parser (Expr A) → Parser (Expr A)
  unfolding advance eat_ident
  borrow_op rec = do
    amp ← advance
    m ← eat_ident (codes "mut")
    x ← rec
    give (if m then mutborrow amp x else borrow amp x)

  -- `parse_unary` over the call that it makes for its operand.
  unfoldable pub unary_body : Parser (Expr A) → Parser (Expr A)
  unfolding look look2 at_ident is_prefix_op same_kind borrow_op advance
  unary_body rec = do
    t ← look
    t2 ← look2
    m ← at_ident (codes "mut")
    (if is_prefix_op t.kind
        then prefix_op un rec
        else if same_kind t.kind t_amp && (same_kind t2.kind t_var || m || same_kind t2.kind t_amp)
        then borrow_op rec
        else if same_kind t.kind t_star
        then prefix_op deref rec
        else parse_postfix)

  unfoldable pub parse_unary : ℕ → Parser (Expr A)
  unfolding unary_body
  parse_unary zero = λ ts. starved
  parse_unary (suc fuel) = unary_body (parse_unary fuel)

  unfoldable pub parse_pow : ℕ → ℕ → Parser (Expr A)
  unfolding parse_unary check advance
  parse_pow zero n = λ ts. starved
  parse_pow (suc fuel) n =
      let rec = parse_pow fuel n in
      do
        base ← parse_unary n
        b ← check t_pow
        if b then (do op ← advance; x ← rec; give (bin op base x)) else give base

  -- The loop of `parse_binop_level`; `next` reads an operand of the next level.
  unfoldable pub binop_loop : ℕ → ℕ → Parser (Expr A) → Expr A → Parser (Expr A)
  unfolding look in_level advance
  binop_loop zero lvl next l = λ ts. starved
  binop_loop (suc fuel) lvl next l = do
    t ← look
    (if in_level lvl t.kind
        then (do op ← advance; r ← next; binop_loop fuel lvl next (bin op l r))
        else give l)

  -- `parse_binop_level` at the level that has `h` levels from it to the end of the table.
  unfoldable pub parse_binop_level : ℕ → ℕ → Parser (Expr A)
  unfolding parse_pow binop_loop
  parse_binop_level zero n = parse_pow n n
  parse_binop_level (suc h) n =
      let next = parse_binop_level h n in do l ← next; binop_loop n (10 - h) next l
