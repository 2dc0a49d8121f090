-- ===== src/Parser/Expr/Tests.antt =====
-- Runs of the operator parser of src/hphpc/parser.c, with a `parse_postfix` that reads one variable.
use holyphp.Prelude.{
  List, [], ap, arith, false, if◌then◌else◌, refl, sym, true, ℕ, ◌++◌, ◌∙◌, ◌∷◌, ◌≡◌, ◌≤◌,
}
use holyphp.Prelude.Int.{pos}
use holyphp.Lexer.Token.{
  TokKind, Token, t_arrow, t_colon, t_ident, t_lbracket, t_lparen, t_minus, t_pow, t_question,
  t_rbracket, t_rparen, t_semi, t_star, t_var,
}
use holyphp.Lexer.Kind.{same_kind, same_kind_refl}
use holyphp.Parser.Stream.{TokenStream, step, ts_init}
use holyphp.Parser.Types.{Parser, advance, failed, give, got, ◌>>=◌}
use holyphp.Parser.Types.Rejects.{bind_got}
use holyphp.Parser.Expr.{
  Expr, arg, bin, call, field, in_level, index, leaf, look, none_left, parse_binop_level, un,
}
use holyphp.Parser.Expr.Table.{ends_operand, rank}
use holyphp.Parser.Expr.Ahead.{At, advance_at, look_at, step-At}
use holyphp.Parser.Expr.Grammar.{Level, ReadsOperand, base, begins_operand, done, link, operand}
use holyphp.Parser.Expr.Postfix.{parse_postfix, parse_postfix-ReadsOperand}
use holyphp.Parser.Expr.Assign.{parse_assign}
use holyphp.Parser.Expr.Binary.{parse_binop_level-Reads}

abbrev tok : TokKind → ℕ → Token
tok k c = record {
  kind = k;
  line = 1;
  col = 1;
  at = 0;
  text = c ∷ [];
  ival = pos 0;
  fval = [];
  strs = [];
  exprs = [];
}

abbrev read_var : Parser (Expr Token)
read_var = do
  t ← look
  (if same_kind t.kind t_var then (do v ← advance; give (leaf v)) else (λ ts. failed))

abbrev OneVar : List Token → Expr Token → Type 0
OneVar xs x = (t : Token) × (xs ≡ t ∷ []) × (t.kind ≡ t_var) × (x ≡ leaf t)

read_var-got :
    (ts : TokenStream) (v t : Token) (r : List Token)
    → v.kind ≡ t_var
    → At ts (v ∷ t ∷ r)
    → read_var ts ≡ got (leaf v) (step ts)
read_var-got ts v t r k a =
    let is_var : same_kind v.kind t_var ≡ true = rw k (same_kind_refl t_var) in
    bind_got look _ ts (look_at ts v (t ∷ r) a)
    ∙ rw is_var (bind_got advance _ ts (advance_at ts v (t ∷ r) a))

var_begins : (k : TokKind) → k ≡ t_var → begins_operand k ≡ true
unfolding begins_operand
var_begins k e = rw e refl

read_var-ReadsOperand : ReadsOperand OneVar read_var
read_var-ReadsOperand = record {
  begins = λ xs x o. (o.0, [], o.1, var_begins (o.0).kind (o.2));
  reads = λ xs x ts t r o a e.
      let a1 : At ts (o.0 ∷ t ∷ r) = a ∙ ap (λ l. l ++ t ∷ r) (o.1) in
      (
        step ts,
        read_var-got ts (o.0) t r (o.2) a1 ∙ ap (λ y. got y (step ts)) (sym (o.3)),
        step-At ts (o.0) t r a1,
      );
}

-- The operand parser of the source, over `read_var`, and over a `parse_expr` that is not called here.
abbrev read_operand : Parser (Expr Token)
read_operand = parse_postfix (λ ts. failed) read_var 9

read_operand-ReadsOperand : ReadsOperand OneVar read_operand
read_operand-ReadsOperand =
    parse_postfix-ReadsOperand (λ ts. failed) OneVar read_var 8 read_var-ReadsOperand

-- `$a - $b * $c - $a;`
abbrev va : Token
va = tok t_var b'a'

abbrev vb : Token
vb = tok t_var b'b'

abbrev vc : Token
vc = tok t_var b'c'

abbrev minus : Token
minus = tok t_minus b'-'

abbrev times : Token
times = tok t_star b'*'

abbrev semi : Token
semi = tok t_semi b';'

abbrev source : TokenStream
source = ts_init (va ∷ minus ∷ vb ∷ times ∷ vc ∷ minus ∷ va ∷ semi ∷ [])

abbrev tree : Expr Token
tree = bin minus (bin minus (leaf va) (bin times (leaf vb) (leaf vc))) (leaf va)

tree_read : parse_assign read_operand 9 9 source ≡ got tree (record source { idx = 7 })
unfolding parse_assign parse_postfix ts_init
tree_read = refl

-- `-$a ** $b` is `(-$a) ** $b`.
power_of_minus :
    parse_assign read_operand 9 9 (ts_init (minus ∷ va ∷ tok t_pow b'*' ∷ vb ∷ semi ∷ []))
    ≡ got
        (bin (tok t_pow b'*') (un minus (leaf va)) (leaf vb))
        (record { toks = minus ∷ va ∷ tok t_pow b'*' ∷ vb ∷ semi ∷ []; idx = 4 })
unfolding parse_assign parse_postfix ts_init
power_of_minus = refl

abbrev var_at : (v : Token) → v.kind ≡ t_var → Level OneVar 0 (v ∷ []) (leaf v)
var_at v k = base (operand (v, refl, k, refl))

abbrev single : (v : Token) → v.kind ≡ t_var → Level OneVar 1 (v ∷ []) (leaf v)
single v k = (v ∷ [], [], leaf v, refl, var_at v k, done)

minus_row : in_level 9 t_minus ≡ true
unfolding in_level
minus_row = refl

times_row : in_level 10 t_star ≡ true
unfolding in_level
times_row = refl

product : Level OneVar 1 (vb ∷ times ∷ vc ∷ []) (bin times (leaf vb) (leaf vc))
product = (
  vb ∷ [],
  times ∷ vc ∷ [],
  leaf vb,
  refl,
  var_at vb refl,
  link {zs = []} times times_row (var_at vc refl) done,
)

derived : Level OneVar 2 (va ∷ minus ∷ vb ∷ times ∷ vc ∷ minus ∷ va ∷ []) tree
derived = (
  va ∷ [],
  minus ∷ vb ∷ times ∷ vc ∷ minus ∷ va ∷ [],
  leaf va,
  refl,
  single va refl,
  link {ys = vb ∷ times ∷ vc ∷ []} {zs = minus ∷ va ∷ []} minus minus_row product
      (link {ys = va ∷ []} {zs = []} minus minus_row (single va refl) done),
)

semi_rank : rank t_semi ≤ 9
unfolding rank
semi_rank = omega arith

semi_ends : ends_operand t_semi ≡ true
unfolding ends_operand
semi_ends = refl

source-At : At source (va ∷ minus ∷ vb ∷ times ∷ vc ∷ minus ∷ va ∷ semi ∷ [])
unfolding ts_init
source-At = refl

parse_binop_level-Reads_example :
    (ts' : TokenStream) × (parse_binop_level read_operand 2 8 source ≡ got tree ts')
    × At ts' (semi ∷ [])
parse_binop_level-Reads_example =
    parse_binop_level-Reads OneVar read_operand read_operand-ReadsOperand 2 8 7 (omega arith)
      (omega arith) (va ∷ minus ∷ vb ∷ times ∷ vc ∷ minus ∷ va ∷ []) tree source semi [] derived
      (omega arith) source-At semi_rank semi_ends

-- `$a->b[$c]($a)`
suffixes_read :
    parse_postfix read_var read_var 9 (
      ts_init (
        va
        ∷ tok t_arrow b'>'
        ∷ tok t_ident b'b'
        ∷ tok t_lbracket b'['
        ∷ vc
        ∷ tok t_rbracket b']'
        ∷ tok t_lparen b'('
        ∷ va
        ∷ tok t_rparen b')'
        ∷ semi
        ∷ []))
    ≡ got
        (call
          (tok t_lparen b'(')
          (index
            (tok t_lbracket b'[')
            (field false (tok t_arrow b'>') (leaf va) (tok t_ident b'b'))
            (leaf vc))
          (arg (leaf va) none_left))
        (record {
          toks =
              va
              ∷ tok t_arrow b'>'
              ∷ tok t_ident b'b'
              ∷ tok t_lbracket b'['
              ∷ vc
              ∷ tok t_rbracket b']'
              ∷ tok t_lparen b'('
              ∷ va
              ∷ tok t_rparen b')'
              ∷ semi
              ∷ [];
          idx = 9;
        })
unfolding parse_postfix ts_init
suffixes_read = refl

-- `$a ? $b : f;` ends the program: behind `?` the text `$b : f` is read as a declaration with a type.
branch_taken_for_type :
    parse_assign read_operand 9 9
      (ts_init (va ∷ tok t_question b'?' ∷ vb ∷ tok t_colon b':' ∷ tok t_ident b'f' ∷ semi ∷ []))
    ≡ failed
unfolding parse_assign parse_postfix ts_init
branch_taken_for_type = refl
