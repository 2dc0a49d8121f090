-- ===== src/Parser/Expr/Ahead.antt =====
-- The token stream of src/hphpc/token.h seen from its cursor: the tokens that are left, and what the peeks
-- and `ts_advance` do where they are known.
use holyphp.Prelude.{
  Bool, Bytes, List, [], ap, arith, bytes_eq, drop, false, get_elem?, length, length-drop, ltb,
  lt→ltb, refl, some, suc, sym, true, zero, ℕ, ◌&&◌, ◌++◌, ◌+◌, ◌-◌, ◌<◌, ◌∙◌, ◌∷◌, ◌≡◌,
}
use holyphp.Lexer.Token.{TokKind, Token, t_ident}
use holyphp.Lexer.Kind.{same_kind}
use holyphp.Parser.Stream.{
  TokenStream, clamped, clamped_total, step, ts_advance, ts_check, ts_peek, ts_peek2,
}
use holyphp.Parser.Types.{advance, check, got}
use holyphp.Parser.Expr.{at_ident, look, look2}

-- `xs` are the tokens from the cursor on.
abbrev pub At : TokenStream → List Token → Type 0
At ts xs = drop ts.idx ts.toks ≡ xs

module _ {A : Type 0} where
  get_elem?-drop : (xs r : List A) (i : ℕ) (t : A) → drop i xs ≡ t ∷ r → get_elem? xs i ≡ some t
  get_elem?-drop [] r zero t h = absurd (cc)
  get_elem?-drop [] r (suc i) t h = absurd (cc)
  get_elem?-drop (x ∷ xs) r zero t h = cc
  get_elem?-drop (x ∷ xs) r (suc i) t h = get_elem?-drop xs r i t h

  drop_tail : (xs r : List A) (i : ℕ) (t : A) → drop i xs ≡ t ∷ r → drop (suc i) xs ≡ r
  drop_tail [] r zero t h = absurd (cc)
  drop_tail [] r (suc i) t h = absurd (cc)
  drop_tail (x ∷ xs) r zero t h = cc
  drop_tail (x ∷ xs) r (suc i) t h = drop_tail xs r i t h

  length-ahead :
      (xs r : List A) (i : ℕ) (t : A) → drop i xs ≡ t ∷ r → length xs ≡ i + suc (length r)
  length-ahead xs r i t h =
      let e = length-drop i xs in
      let f : length (drop i xs) ≡ suc (length r) = ap length h in omega arith

clamped_inside : (toks : List Token) (i : ℕ) → i < length toks → clamped toks i ≡ get_elem? toks i
unfolding clamped
clamped_inside toks i h = rw (lt→ltb i (length toks) h) refl

ts_peek-At : (ts : TokenStream) (t : Token) (r : List Token) → At ts (t ∷ r) → ts_peek ts ≡ some t
unfolding ts_peek
ts_peek-At ts t r h =
    clamped_inside ts.toks ts.idx (omega (arith, length-ahead ts.toks r ts.idx t h))
    ∙ get_elem?-drop ts.toks r ts.idx t h

pub step-At :
    (ts : TokenStream) (t u : Token) (r : List Token) → At ts (t ∷ u ∷ r) → At (step ts) (u ∷ r)
unfolding step
step-At ts t u r h =
    let long = length-ahead ts.toks (u ∷ r) ts.idx t h in
    let inside : ltb ts.idx (length ts.toks - 1) ≡ true = ground arith in
    let next : ts.idx + 1 ≡ suc ts.idx = omega arith in
    simp inside (ap (λ i. drop i ts.toks) next ∙ drop_tail ts.toks (u ∷ r) ts.idx t h)

module _ (ts : TokenStream) (t : Token) (r : List Token) (h : At ts (t ∷ r)) where
  pub look_at : look ts ≡ got t ts
  unfolding look
  look_at = rw (ts_peek-At ts t r h) refl

  pub advance_at : advance ts ≡ got t (step ts)
  unfolding advance ts_advance
  advance_at = rw (ts_peek-At ts t r h) refl

  pub check_at : (k : TokKind) → check k ts ≡ got (same_kind t.kind k) ts
  unfolding check ts_check
  check_at k = rw (ts_peek-At ts t r h) refl

  pub at_ident_at : (kw : Bytes) → (b : Bool) × (at_ident kw ts ≡ got b ts)
  unfolding at_ident
  at_ident_at kw = (same_kind t.kind t_ident && bytes_eq t.text kw, rw (ts_peek-At ts t r h) refl)

  pub at_ident_off : (kw : Bytes) → same_kind t.kind t_ident ≡ false → at_ident kw ts ≡ got false ts
  unfolding at_ident
  at_ident_off kw e = rw (ts_peek-At ts t r h, e) refl

  pub look2_at : (u : Token) × (look2 ts ≡ got u ts)
  unfolding look2 ts_peek2
  look2_at =
      let long : 0 < length ts.toks = omega (arith, length-ahead ts.toks r ts.idx t h) in
      let (u, e) = clamped_total ts.toks (ts.idx + 1) long in (u, rw e refl)

pub behind :
    (xs : List Token) (t : Token) (r : List Token)
    → (u : Token) × (r' : List Token) × (xs ++ t ∷ r ≡ u ∷ r')
behind [] t r = (t, r, refl)
behind (x ∷ xs) t r = (x, xs ++ t ∷ r, refl)

-- `ts_advance` in front of more tokens.
pub advance_behind :
    (ts : TokenStream) (op : Token) (xs : List Token) (t : Token) (r : List Token)
    → At ts (op ∷ xs ++ t ∷ r)
    → (advance ts ≡ got op (step ts)) × At (step ts) (xs ++ t ∷ r)
advance_behind ts op xs t r h =
    let (u, r', e) = behind xs t r in
    let h' : At ts (op ∷ u ∷ r') = h ∙ ap (λ l. op ∷ l) e in
    (advance_at ts op (u ∷ r') h', step-At ts op u r' h' ∙ sym e)
