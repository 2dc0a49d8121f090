-- ===== src/Parser/Expr/Grammar.antt =====
-- The grammar of the operators, and that `parse_unary`, `parse_pow` and `parse_binop_level` of
-- src/hphpc/parser.c read it.
use holyphp.Prelude.{
  Bool, List, [], length, not, suc, true, zero, ℕ, ◌&&◌, ◌++◌, ◌-◌, ◌∷◌, ◌≡◌, ◌≤◌,
}
use holyphp.Lexer.Token.{TokKind, Token, t_amp, t_pow, t_star}
use holyphp.Lexer.Kind.{same_kind}
use holyphp.Parser.Stream.{TokenStream}
use holyphp.Parser.Types.{Parser, got}
use holyphp.Parser.Expr.{Expr, bin, deref, in_level, is_prefix_op, un}
use holyphp.Parser.Expr.Table.{ends_operand, rank}
use holyphp.Parser.Expr.Ahead.{At}

-- A token with which `parse_unary` reads no operator.
unfoldable pub begins_operand : TokKind → Bool
unfolding is_prefix_op same_kind
begins_operand k = not (is_prefix_op k) && not (same_kind k t_amp) && not (same_kind k t_star)

-- That a parser reads what a relation says, on tokens at most `n` long in front of a token whose rank
-- is at most `m`, and stops there.
abbrev pub Reads : {A : Type 0} → (List Token → Expr A → Type 0) → Parser (Expr A) → ℕ → ℕ → Type 0
Reads {A} Says p n m =
    (xs : List Token) (x : Expr A) (ts : TokenStream) (t : Token) (r : List Token)
    → Says xs x
    → length xs ≤ n
    → At ts (xs ++ t ∷ r)
    → rank t.kind ≤ m
    → ends_operand t.kind ≡ true
    → (ts' : TokenStream) × (p ts ≡ got x ts') × At ts' (t ∷ r)

module _ {A : Type 0} (Operand : List Token → Expr A → Type 0) where
  -- Prefix operators in front of an operand; a `*` in front is a dereference.
  pub data Unary : List Token → Expr A → Type 0 where
    operand : {xs : List Token} {x : Expr A} → Operand xs x → Unary xs x
    signed :
        {xs : List Token} {x : Expr A} (op : Token)
        → is_prefix_op op.kind ≡ true
        → Unary xs x
        → Unary (op ∷ xs) (un op x)
    starred :
        {xs : List Token} {x : Expr A} (op : Token)
        → op.kind ≡ t_star
        → Unary xs x
        → Unary (op ∷ xs) (deref op x)

  -- `**` binds to the right.
  pub data Power : List Token → Expr A → Type 0 where
    base : {xs : List Token} {x : Expr A} → Unary xs x → Power xs x
    power :
        {xs ys : List Token} {x y : Expr A} (op : Token)
        → Unary xs x
        → op.kind ≡ t_pow
        → Power ys y
        → Power (xs ++ op ∷ ys) (bin op x y)

  -- Operators of the level `lvl` with their right operands, behind the left operand `l`.
  pub data Chain (Next : List Token → Expr A → Type 0) (lvl : ℕ)
      : Expr A → List Token → Expr A → Type 0 where
    done : {l : Expr A} → Chain Next lvl l [] l
    link :
        {l y e : Expr A} {ys zs : List Token} (op : Token)
        → in_level lvl op.kind ≡ true
        → Next ys y
        → Chain Next lvl (bin op l y) zs e
        → Chain Next lvl l (op ∷ ys ++ zs) e

  -- The expressions of the level with `h` levels from it to the end of the table: operands of the next
  -- level, joined from the left.
  abbrev pub Level : ℕ → List Token → Expr A → Type 0
  Level zero xs e = Power xs e
  Level (suc h) xs e =
      (ys : List Token) × (zs : List Token) × (l : Expr A) × (xs ≡ ys ++ zs)
      × Level h ys l
      × Chain (Level h) (10 - h) l zs e

  -- What is asked of `parse_postfix`: an operand begins with no prefix operator, and it is read up to a
  -- token that cannot go on with it.
  pub record ReadsOperand (parse_postfix : Parser (Expr A)) : Type 0 where
    pub begins :
        (xs : List Token) (x : Expr A)
        → Operand xs x
        → (t : Token) × (ys : List Token) × (xs ≡ t ∷ ys) × (begins_operand t.kind ≡ true)
    pub reads :
        (xs : List Token) (x : Expr A) (ts : TokenStream) (t : Token) (r : List Token)
        → Operand xs x
        → At ts (xs ++ t ∷ r)
        → ends_operand t.kind ≡ true
        → (ts' : TokenStream) × (parse_postfix ts ≡ got x ts') × At ts' (t ∷ r)
