-- ===== src/Parser/Expr/Binary.antt =====
-- `parse_pow` and `parse_binop_level` of src/hphpc/parser.c read what the grammar says of their levels.
use holyphp.Prelude.{
  List, ap, append_assoc, arith, false, length, length-append, refl, suc, sym, true, zero, ℕ, ◌++◌,
  ◌-◌, ◌<◌, ◌∙◌, ◌∷◌, ◌≡◌, ◌≤◌,
}
use holyphp.Lexer.Token.{TokKind, Token, t_pow}
use holyphp.Lexer.Kind.{same_kind, same_kind_refl}
use holyphp.Parser.Stream.{TokenStream, step}
use holyphp.Parser.Types.Rejects.{bind_got}
use holyphp.Parser.Types.{Parser, advance, check, got}
use holyphp.Parser.Expr.{
  Expr, bin, binop_loop, in_level, parse_binop_level, parse_pow, parse_unary, look,
}
use holyphp.Parser.Expr.Table.{ends_operand, in_level-rank, operator_ends, pow-rank, rank, rank-le}
use holyphp.Parser.Expr.Ahead.{At, advance_behind, check_at, look_at}
use holyphp.Parser.Expr.Grammar.{Chain, Level, Power, Reads, ReadsOperand, base, done, link, power}
use holyphp.Parser.Expr.Unary.{parse_unary-Reads}

module _ {A : Type 0} (Operand : List Token → Expr A → Type 0) (parse_postfix : Parser (Expr A))
    (h : ReadsOperand Operand parse_postfix) where
  pow_ends : (k : TokKind) → k ≡ t_pow → ends_operand k ≡ true
  unfolding ends_operand
  pow_ends k e = rw e refl

  -- Behind the base, in front of `**` or of something else.
  pow_goes_on :
      (fuel n : ℕ) (ts ts1 ts2 ts3 : TokenStream) (op : Token) (x y : Expr A)
      → parse_unary parse_postfix n ts ≡ got x ts1
      → check t_pow ts1 ≡ got true ts1
      → advance ts1 ≡ got op ts2
      → parse_pow parse_postfix fuel n ts2 ≡ got y ts3
      → parse_pow parse_postfix (suc fuel) n ts ≡ got (bin op x y) ts3
  unfolding parse_pow
  pow_goes_on fuel n ts ts1 ts2 ts3 op x y e1 e2 e3 e4 =
      bind_got (parse_unary parse_postfix n) _ ts e1
      ∙ bind_got (check t_pow) _ ts1 e2
      ∙ bind_got advance _ ts1 e3
      ∙ bind_got (parse_pow parse_postfix fuel n) _ ts2 e4

  pow_stops :
      (fuel n : ℕ) (ts ts1 : TokenStream) (x : Expr A)
      → parse_unary parse_postfix n ts ≡ got x ts1
      → check t_pow ts1 ≡ got false ts1
      → parse_pow parse_postfix (suc fuel) n ts ≡ got x ts1
  unfolding parse_pow
  pow_stops fuel n ts ts1 x e1 e2 =
      bind_got (parse_unary parse_postfix n) _ ts e1 ∙ bind_got (check t_pow) _ ts1 e2

  parse_pow-Reads :
      (fuel n k : ℕ)
      → k < fuel
      → k < n
      → Reads (Power Operand) (parse_pow parse_postfix fuel n) k 11
  parse_pow-Reads zero n k l l' xs x ts t r p lk a m e = absurd (omega arith)
  parse_pow-Reads (suc fuel) n k l l' xs x ts t r (base u) lk a m e =
      let (ts1, found, a1) =
        parse_unary-Reads Operand parse_postfix h n k l' xs x ts t r u lk a (omega arith) e in
      let no_pow : same_kind t.kind t_pow ≡ false = ground (arith, pow-rank t.kind) in
      (
        ts1,
        pow_stops fuel n ts ts1 x found (check_at ts1 t r a1 t_pow ∙ ap (λ b. got b ts1) no_pow),
        a1,
      )
  parse_pow-Reads (suc fuel) n k l l' _ _ ts t r (power {xs} {ys} {x} {y} op u p w) lk a m e =
      let sizes = length-append xs (op ∷ ys) in
      let a0 : At ts (xs ++ op ∷ (ys ++ t ∷ r)) = a ∙ append_assoc xs (op ∷ ys) (t ∷ r) in
      let (ts1, found, a1) =
        parse_unary-Reads Operand parse_postfix h n k l' xs x ts op (ys ++ t ∷ r) u (omega arith) a0
          (rank-le op.kind) (pow_ends op.kind p) in
      let (adv, a2) = advance_behind ts1 op ys t r a1 in
      let (ts3, found', a3) =
        parse_pow-Reads fuel n (length ys) (omega arith) (omega arith) ys y (step ts1) t r w
          (omega arith) a2 m e in
      let is_pow : same_kind op.kind t_pow ≡ true = rw p (same_kind_refl t_pow) in
      (
        ts3,
        pow_goes_on fuel n ts ts1 (step ts1) ts3 op x y found
            (check_at ts1 op (ys ++ t ∷ r) a1 t_pow ∙ ap (λ b. got b ts1) is_pow) adv found',
        a3,
      )

  -- An operator, or what the caller says of `t`, stands behind an operand of the loop.
  Chain-head :
      (Next : List Token → Expr A → Type 0) (lvl : ℕ) (l e : Expr A) (zs : List Token) (t : Token)
      (r : List Token)
      → lvl < 11
      → Chain Operand Next lvl l zs e
      → rank t.kind ≤ lvl
      → ends_operand t.kind ≡ true
      → (u : Token) × (r' : List Token) × (zs ++ t ∷ r ≡ u ∷ r')
        × (rank u.kind ≤ suc lvl)
        × (ends_operand u.kind ≡ true)
  Chain-head Next lvl l e _ t r b done m en = (t, r, refl, omega arith, en)
  Chain-head Next lvl l e _ t r b (link {ys} {zs} op i q c) m en =
      let row = in_level-rank op.kind lvl b in
      let at_row : rank op.kind ≡ suc lvl = ground arith in
      (op, ys ++ zs ++ t ∷ r, refl, omega arith, operator_ends op.kind (omega arith))

  loop_stops :
      (fuel lvl : ℕ) (next : Parser (Expr A)) (l : Expr A) (ts : TokenStream) (t : Token)
      → look ts ≡ got t ts
      → in_level lvl t.kind ≡ false
      → binop_loop parse_postfix (suc fuel) lvl next l ts ≡ got l ts
  unfolding binop_loop
  loop_stops fuel lvl next l ts t e i = bind_got look _ ts e ∙ rw i refl

  loop_goes_on :
      (fuel lvl : ℕ) (next : Parser (Expr A)) (l y : Expr A) (ts ts' : TokenStream) (op : Token)
      → look ts ≡ got op ts
      → in_level lvl op.kind ≡ true
      → advance ts ≡ got op (step ts)
      → next (step ts) ≡ got y ts'
      → binop_loop parse_postfix (suc fuel) lvl next l ts
        ≡ binop_loop parse_postfix fuel lvl next (bin op l y) ts'
  unfolding binop_loop
  loop_goes_on fuel lvl next l y ts ts' op e i e2 e3 =
      bind_got look _ ts e ∙ rw i (bind_got advance _ ts e2 ∙ bind_got next _ (step ts) e3)

  binop_loop-Reads :
      (fuel lvl n : ℕ) (Next : List Token → Expr A → Type 0) (next : Parser (Expr A))
      → lvl < 11
      → Reads Next next n (suc lvl)
      → (zs : List Token) (l e : Expr A) (ts : TokenStream) (t : Token) (r : List Token)
      → Chain Operand Next lvl l zs e
      → length zs < fuel
      → length zs ≤ n
      → At ts (zs ++ t ∷ r)
      → rank t.kind ≤ lvl
      → ends_operand t.kind ≡ true
      → (ts' : TokenStream) × (binop_loop parse_postfix fuel lvl next l ts ≡ got e ts')
        × At ts' (t ∷ r)
  binop_loop-Reads zero lvl n Next next b reads zs l e ts t r c f k a m en = absurd (omega arith)
  binop_loop-Reads (suc fuel) lvl n Next next b reads _ l _ ts t r done f k a m en =
      let row = in_level-rank t.kind lvl b in
      let out : in_level lvl t.kind ≡ false = ground arith in
      (ts, loop_stops fuel lvl next l ts t (look_at ts t r a) out, a)
  binop_loop-Reads (suc fuel) lvl n Next next b reads _ l e ts t r (link {y} {ys} {zs} op i q c) f k
        a m en =
      let sizes = length-append ys zs in
      let (u, r', same_r, mu, enu) = Chain-head Next lvl (bin op l y) e zs t r b c m en in
      let whole : At ts (op ∷ ys ++ u ∷ r') =
        a ∙ ap (λ q'. op ∷ q') (append_assoc ys zs (t ∷ r) ∙ ap (λ q'. ys ++ q') same_r) in
      let (adv, a1) = advance_behind ts op ys u r' whole in
      let (ts1, found, a2) = reads ys y (step ts) u r' q (omega arith) a1 mu enu in
      let (ts2, found', a3) =
        binop_loop-Reads fuel lvl n Next next b reads zs (bin op l y) e ts1 t r c (omega arith)
          (omega arith) (a2 ∙ sym same_r) m en in
      (
        ts2,
        loop_goes_on fuel lvl next l y ts ts1 op (look_at ts op (ys ++ u ∷ r') whole) i adv found
            ∙ found',
        a3,
      )

  level_runs :
      (i n : ℕ) (l e : Expr A) (ts ts1 ts2 : TokenStream)
      → parse_binop_level parse_postfix i n ts ≡ got l ts1
      → binop_loop parse_postfix n (10 - i) (parse_binop_level parse_postfix i n) l ts1 ≡ got e ts2
      → parse_binop_level parse_postfix (suc i) n ts ≡ got e ts2
  unfolding parse_binop_level
  level_runs i n l e ts ts1 ts2 e1 e2 = bind_got (parse_binop_level parse_postfix i n) _ ts e1 ∙ e2

  -- At every level `parse_binop_level` reads each expression of the grammar that is shorter than its fuel
  -- to the tree that the grammar gives it, in front of any token that binds no tighter than the levels
  -- above and does not go on with an operand, and stops at that token.
  pub parse_binop_level-Reads :
      (i n k : ℕ)
      → i ≤ 11
      → k < n
      → Reads (Level Operand i) (parse_binop_level parse_postfix i n) k (11 - i)
  unfolding parse_binop_level
  parse_binop_level-Reads zero n k b l xs x ts t r p lk a m e =
      parse_pow-Reads n n k l l xs x ts t r p lk a (omega arith) e
  parse_binop_level-Reads (suc i) n k b l xs x ts t r (ys, zs, y, same_xs, p, c) lk a m en =
      let sizes = ap length same_xs ∙ length-append ys zs in
      let lvl = 10 - i in
      let a0 : At ts (ys ++ (zs ++ t ∷ r)) =
        a ∙ ap (λ q. q ++ t ∷ r) same_xs ∙ append_assoc ys zs (t ∷ r) in
      let (u, r', same_r, mu, enu) =
        Chain-head (Level Operand i) lvl y x zs t r (omega arith) c (omega arith) en in
      let next = parse_binop_level-Reads i n k (omega arith) l in
      let (ts1, found, a1) =
        next ys y ts u r' p (omega arith) (a0 ∙ ap (λ q. ys ++ q) same_r) (omega arith) enu in
      let tight : Reads (Level Operand i) (parse_binop_level parse_postfix i n) k (suc lvl) =
        λ xs' x' ts' t' r' p' lk' a' m' e'. next xs' x' ts' t' r' p' lk' a' (omega arith) e' in
      let (ts2, found', a2) =
        binop_loop-Reads n lvl k (Level Operand i) (parse_binop_level parse_postfix i n)
          (omega arith) tight zs y x ts1 t r c (omega arith) (omega arith) (a1 ∙ sym same_r)
          (omega arith) en in
      (ts2, level_runs i n y x ts ts1 ts2 found found', a2)
