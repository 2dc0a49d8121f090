-- ===== src/Parser/Types/Rejects.antt =====
-- `parse_type` of src/hphpc/parser.c at tokens that begin no type, and at `&mut`.
use holyphp.Parser.Types.{
  Parser, advance, check, eat_ident, expect, failed, got, match_kind, named_type, other_type,
  parse_type, prefixed, reference, type_body, type_name, ◌>>=◌,
}
use holyphp.Prelude.{
  Bool, Bytes, arith, codes, false, if◌then◌else◌, refl, some, suc, true, ℕ, ◌||◌, ◌∙◌, ◌≡◌,
}
use holyphp.Ast.Print.{Ty}
use holyphp.Lexer.Token.{
  TokKind, Token, kw_lookup, t_amp, t_ident, t_kw_fn, t_kw_own, t_lbracket, t_star,
}
use holyphp.Lexer.Kind.{same_kind, same_kind_refl}
use holyphp.Parser.Stream.{TokenStream, step, ts_peek}

module _ (ts : TokenStream) (t : Token) (here : ts_peek ts ≡ some t) (k : TokKind) where
  match_hit : same_kind t.kind k ≡ true → match_kind k ts ≡ got true (step ts)
  unfolding match_kind
  match_hit e = rw (here, e)

  match_miss : same_kind t.kind k ≡ false → match_kind k ts ≡ got false ts
  unfolding match_kind
  match_miss e = rw (here, e)

  check_lem : check k ts ≡ got (same_kind t.kind k) ts
  unfolding check
  check_lem = rw here

  expect_miss : same_kind t.kind k ≡ false → expect k ts ≡ failed
  unfolding expect
  expect_miss e = rw (here, e)

eat_miss :
    (ts : TokenStream) (t : Token)
    → ts_peek ts ≡ some t
    → (kw : Bytes) → same_kind t.kind t_ident ≡ false
    → eat_ident kw ts ≡ got false ts
unfolding eat_ident
eat_miss ts t here kw e = rw (here, e)

-- The first step of a `do` block that goes on, or that ends the program.
pub bind_got :
    {A B : Type 0} (m : Parser A) (f : A → Parser B) (ts : TokenStream) {a : A} {ts' : TokenStream}
    → m ts ≡ got a ts'
    → (m >>= f) ts ≡ f a ts'
bind_got m f ts e = rw (e, ◌>>=◌)

bind_failed :
    {A B : Type 0} (m : Parser A) (f : A → Parser B) (ts : TokenStream)
    → m ts ≡ failed
    → (m >>= f) ts ≡ failed
bind_failed m f ts e = rw (e, ◌>>=◌)

-- The kinds of the tokens with which a type begins.
abbrev pub begins_type : TokKind → Bool
begins_type k =
    same_kind k t_amp
    || same_kind k t_kw_own
    || same_kind k t_star
    || same_kind k t_lbracket
    || same_kind k t_kw_fn
    || same_kind k t_ident

type_name_miss :
    (ts : TokenStream) (t : Token)
    → ts_peek ts ≡ some t
    → begins_type t.kind ≡ false
    → type_name ts ≡ failed
unfolding type_name
type_name_miss ts t here b =
    let fn_no : same_kind t.kind t_kw_fn ≡ false = ground arith in
    let ident_no : same_kind t.kind t_ident ≡ false = ground arith in
    bind_got (check t_kw_fn) (λ is_fn. if is_fn then advance else expect t_ident) ts
      (check_lem ts t here t_kw_fn)
    ∙ rw fn_no (expect_miss ts t here t_ident ident_no)

other_miss :
    (rec : Parser Ty) (ts : TokenStream) (t : Token)
    → ts_peek ts ≡ some t
    → begins_type t.kind ≡ false
    → other_type rec ts ≡ failed
unfolding other_type
other_miss rec ts t here b =
    bind_failed type_name (λ nm. named_type rec nm.text) ts (type_name_miss ts t here b)

prefixed_miss :
    (rec : Parser Ty) (ts : TokenStream) (t : Token)
    → ts_peek ts ≡ some t
    → begins_type t.kind ≡ false
    → prefixed rec ts ≡ failed
unfolding prefixed
prefixed_miss rec ts t here b =
    let star_no : same_kind t.kind t_star ≡ false = ground arith in
    let bracket_no : same_kind t.kind t_lbracket ≡ false = ground arith in
    bind_got (check t_star) _ ts (check_lem ts t here t_star)
    ∙ bind_got (check t_lbracket) _ ts (check_lem ts t here t_lbracket)
    ∙ rw (star_no, bracket_no) (other_miss rec ts t here b)

-- At a token whose kind begins no type `parse_type` ends the program, at whatever depth.
parse_type-rejects :
    (fuel : ℕ) (ts : TokenStream) (t : Token)
    → ts_peek ts ≡ some t
    → begins_type t.kind ≡ false
    → parse_type (suc fuel) ts ≡ failed
unfolding parse_type
parse_type-rejects fuel ts t here b =
    let amp_no : same_kind t.kind t_amp ≡ false = ground arith in
    let own_no : same_kind t.kind t_kw_own ≡ false = ground arith in
    bind_got (match_kind t_amp) _ ts (match_miss ts t here t_amp amp_no)
    ∙ bind_got (match_kind t_kw_own) _ ts (match_miss ts t here t_kw_own own_no)
    ∙ prefixed_miss (parse_type fuel) ts t here b

-- `&mut T` is never read: behind an `&` the word `mut` is the keyword token, and the program ends.
pub reference_mut_rejected :
    (fuel : ℕ) (ts : TokenStream) (a m : Token)
    → ts_peek ts ≡ some a
    → a.kind ≡ t_amp
    → ts_peek (step ts) ≡ some m
    → m.kind ≡ kw_lookup (codes "mut")
    → parse_type (suc (suc fuel)) ts ≡ failed
unfolding type_body reference kw_lookup
reference_mut_rejected fuel ts a m ha ka hm km =
    let amp : same_kind a.kind t_amp ≡ true = rw ka (same_kind_refl t_amp) in
    let not_ident : same_kind m.kind t_ident ≡ false = rw km (unfold same_kind in refl) in
    let none_begins : begins_type m.kind ≡ false = rw km (unfold same_kind in refl) in
    let inner = parse_type-rejects fuel (step ts) m hm none_begins in
    unfold parse_type in
    bind_got (match_kind t_amp) _ ts (match_hit ts a ha t_amp amp)
    ∙ bind_got (eat_ident (codes "mut")) _ (step ts)
        (eat_miss (step ts) m hm (codes "mut") not_ident)
    ∙ bind_failed (parse_type (suc fuel)) _ (step ts) inner
