-- ===== src/Parser/Expr/Unary.antt =====
-- `parse_unary` of src/hphpc/parser.c reads what the grammar says of prefix operators.
use mathlib.Core.Path.{subst}
use holyphp.Prelude.{
  Bool, List, ap, arith, codes, false, if◌then◌else◌, length, refl, suc, sym, true, zero, ℕ, ◌&&◌,
  ◌++◌, ◌<◌, ◌||◌, ◌∙◌, ◌∷◌, ◌≡◌,
}
use holyphp.Lexer.Token.{Token, t_amp, t_star, t_var}
use holyphp.Lexer.Kind.{same_kind, same_kind_refl}
use holyphp.Parser.Stream.{TokenStream, step}
use holyphp.Parser.Types.Rejects.{bind_got}
use holyphp.Parser.Types.{Parsed, Parser, advance, got}
use holyphp.Parser.Expr.{
  Expr, at_ident, borrow_op, deref, is_prefix_op, parse_unary, look, look2, prefix_op, un,
  unary_body,
}
use holyphp.Parser.Expr.Ahead.{At, advance_behind, at_ident_at, look2_at, look_at}
use holyphp.Parser.Expr.Grammar.{
  Reads, ReadsOperand, Unary, begins_operand, operand, signed, starred,
}

module _ {A : Type 0} (Operand : List Token → Expr A → Type 0) (parse_postfix : Parser (Expr A))
    (h : ReadsOperand Operand parse_postfix) where
  -- The turn of `parse_unary` at the token `t`: at an operand, at a prefix operator and at a `*`.
  module _ (rec : Parser (Expr A)) (ts : TokenStream) (t : Token) (r : List Token)
      (a : At ts (t ∷ r)) where
    unary_turn :
        (P : Parsed (Expr A) → Type 0)
        → ((u : Token) (m : Bool)
            → P (
                (if is_prefix_op t.kind
                    then prefix_op parse_postfix un rec
                    else if same_kind t.kind t_amp
                        && (same_kind u.kind t_var || m || same_kind u.kind t_amp)
                    then borrow_op parse_postfix rec
                    else if same_kind t.kind t_star
                    then prefix_op parse_postfix deref rec
                    else parse_postfix)
                  ts))
        → P (unary_body parse_postfix rec ts)
    unfolding unary_body
    unary_turn P f =
        let (u, e2) = look2_at ts t r a in
        let (m, em) = at_ident_at ts t r a (codes "mut") in
        let e =
          bind_got look _ ts (look_at ts t r a)
          ∙ bind_got look2 _ ts e2
          ∙ bind_got (at_ident (codes "mut")) _ ts em in
        subst P (sym e) (f u m)

    unary_at_operand :
        begins_operand t.kind ≡ true → unary_body parse_postfix rec ts ≡ parse_postfix ts
    unfolding begins_operand
    unary_at_operand b =
        let no_op : is_prefix_op t.kind ≡ false = ground arith in
        let no_amp : same_kind t.kind t_amp ≡ false = ground arith in
        let no_star : same_kind t.kind t_star ≡ false = ground arith in
        unary_turn (λ p. p ≡ parse_postfix ts) (λ u m. rw (no_op, no_amp, no_star) refl)

    unary_at_prefix :
        is_prefix_op t.kind ≡ true
        → unary_body parse_postfix rec ts ≡ prefix_op parse_postfix un rec ts
    unary_at_prefix b = unary_turn (λ p. p ≡ prefix_op parse_postfix un rec ts) (λ u m. rw b refl)

    unary_at_star :
        t.kind ≡ t_star → unary_body parse_postfix rec ts ≡ prefix_op parse_postfix deref rec ts
    unary_at_star b =
        let no_op : is_prefix_op t.kind ≡ false = rw b (unfold is_prefix_op in refl) in
        let no_amp : same_kind t.kind t_amp ≡ false = rw b (unfold same_kind in refl) in
        let star : same_kind t.kind t_star ≡ true = rw b (same_kind_refl t_star) in
        unary_turn (λ p. p ≡ prefix_op parse_postfix deref rec ts)
          (λ u m. rw (no_op, no_amp, star) refl)

  prefix_op-got :
      (f : Token → Expr A → Expr A) (rec : Parser (Expr A)) (ts ts' : TokenStream) (op : Token)
      (x : Expr A)
      → advance ts ≡ got op (step ts)
      → rec (step ts) ≡ got x ts'
      → prefix_op parse_postfix f rec ts ≡ got (f op x) ts'
  prefix_op-got f rec ts ts' op x e e' = bind_got advance _ ts e ∙ bind_got rec _ (step ts) e'

  pub parse_unary-Reads :
      (fuel n : ℕ) → n < fuel → Reads (Unary Operand) (parse_unary parse_postfix fuel) n 12
  unfolding parse_unary
  parse_unary-Reads zero n l xs x ts t r u k a m e = absurd (omega arith)
  parse_unary-Reads (suc fuel) n l xs x ts t r (operand o) k a m e =
      let (t0, ys, same_xs, b) = h.begins xs x o in
      let (ts', found, a') = h.reads xs x ts t r o a e in
      let first : At ts (t0 ∷ ys ++ t ∷ r) = a ∙ ap (λ l'. l' ++ t ∷ r) same_xs in
      (
        ts',
        unary_at_operand (parse_unary parse_postfix fuel) ts t0 (ys ++ t ∷ r) first b ∙ found,
        a',
      )
  parse_unary-Reads (suc fuel) n l _ _ ts t r (signed {xs} {x} op p u) k a m e =
      let rec = parse_unary parse_postfix fuel in
      let (adv, a1) = advance_behind ts op xs t r a in
      let (ts', found, a') =
        parse_unary-Reads fuel (length xs) (omega arith) xs x (step ts) t r u (omega arith) a1 m
          e in
      (
        ts',
        unary_at_prefix rec ts op (xs ++ t ∷ r) a p ∙ prefix_op-got un rec ts ts' op x adv found,
        a',
      )
  parse_unary-Reads (suc fuel) n l _ _ ts t r (starred {xs} {x} op p u) k a m e =
      let rec = parse_unary parse_postfix fuel in
      let (adv, a1) = advance_behind ts op xs t r a in
      let (ts', found, a') =
        parse_unary-Reads fuel (length xs) (omega arith) xs x (step ts) t r u (omega arith) a1 m
          e in
      (
        ts',
        unary_at_star rec ts op (xs ++ t ∷ r) a p ∙ prefix_op-got deref rec ts ts' op x adv found,
        a',
      )
