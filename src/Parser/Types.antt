-- ===== src/Parser/Types.antt =====
-- `parse_type` of src/hphpc/parser.c, over the token stream. The recursion runs on fuel; the length of
-- the token vector bounds the loops over parameters.
pub mod Rejects
use holyphp.Prelude.{
  Bool, Bytes, List, Option, [], bytes_eq, codes, false, if◌then◌else◌, length, none, not, some,
  suc, true, zero, ℕ, ◌&&◌, ◌||◌, ◌∷◌, ◌>>=◌ as bind_option,
}
use holyphp.Ast.{
  TypeKind, ty_array, ty_bool, ty_f32, ty_f64, ty_float, ty_i16, ty_i32, ty_i64, ty_i8, ty_int,
  ty_mixed, ty_string, ty_void,
}
use holyphp.Ast.Print.{
  Params, Ty, Wrapper, array, cons, fn, mutref, named, nil, opt, own, plain, ptr, ref, res, vec,
  wrap,
}
use holyphp.Lexer.Token.{
  TokKind, Token, t_amp, t_arrow, t_comma, t_eof, t_gt, t_ident, t_kw_fn, t_kw_own, t_lbracket,
  t_lparen, t_lt, t_rbracket, t_rparen, t_star,
}
use holyphp.Lexer.Kind.{same_kind}
use holyphp.Parser.Stream.{TokenStream, step, ts_advance, ts_check, ts_expect, ts_match, ts_peek}

-- A value and the stream behind it, or the end of the program by `fatal`; `starved` says that the fuel
-- ran out.
pub data Parsed (A : Type 0) : Type 0 where
  got : A → TokenStream → Parsed A
  failed starved : Parsed A

abbrev pub Parser : Type 0 → Type 0
Parser A = TokenStream → Parsed A

infixl 5 ◌>>=◌
abbrev pub ◌>>=◌ : {A B : Type 0} → Parser A → (A → Parser B) → Parser B
◌>>=◌ m f ts = elim (m ts) [ got a ts' ↦ f a ts' | failed ↦ failed | starved ↦ starved ]

abbrev pub give : {A : Type 0} → A → Parser A
give a ts = got a ts

abbrev pub of_option : {A : Type 0} → Option (A × TokenStream) → Parsed A
of_option none = failed
of_option (some (a, ts)) = got a ts

unfoldable pub check : TokKind → Parser Bool
unfolding ts_check
check k ts = of_option (bind_option (ts_check ts k) (λ b. some (b, ts)))

unfoldable pub match_kind : TokKind → Parser Bool
unfolding ts_match
match_kind k ts = of_option (ts_match ts k)

unfoldable pub expect : TokKind → Parser Token
unfolding ts_expect
expect k ts = of_option (ts_expect ts k)

unfoldable pub advance : Parser Token
unfolding ts_advance
advance ts = of_option (ts_advance ts)

-- `at_ident` and `eat_ident`: an identifier with this text.
unfoldable pub eat_ident : Bytes → Parser Bool
unfolding ts_peek same_kind bytes_eq step
eat_ident kw ts = of_option (
    bind_option (ts_peek ts) (λ t.
      let found = same_kind t.kind t_ident && bytes_eq t.text kw in
      some (found, if found then step ts else ts)))

unfoldable pub prims : List (Bytes × TypeKind)
prims =
    (codes "int", ty_int)
    ∷ (codes "i8", ty_i8)
    ∷ (codes "i16", ty_i16)
    ∷ (codes "i32", ty_i32)
    ∷ (codes "i64", ty_i64)
    ∷ (codes "u8", ty_i8)
    ∷ (codes "u16", ty_i16)
    ∷ (codes "u32", ty_i32)
    ∷ (codes "u64", ty_i64)
    ∷ (codes "usize", ty_i64)
    ∷ (codes "isize", ty_i64)
    ∷ (codes "float", ty_float)
    ∷ (codes "f32", ty_f32)
    ∷ (codes "f64", ty_f64)
    ∷ (codes "double", ty_float)
    ∷ (codes "bool", ty_bool)
    ∷ (codes "string", ty_string)
    ∷ (codes "str", ty_string)
    ∷ (codes "array", ty_array)
    ∷ (codes "list", ty_array)
    ∷ (codes "void", ty_void)
    ∷ (codes "mixed", ty_mixed)
    ∷ []

unfoldable pub find_prim : List (Bytes × TypeKind) → Bytes → Option TypeKind
unfolding bytes_eq
find_prim [] n = none
find_prim ((w, k) ∷ ps) n = if bytes_eq w n then some k else find_prim ps n

abbrev pub mixed : Ty
mixed = plain ty_mixed

-- One parameter, and the others behind a comma.
unfoldable pub parameter : Parser Ty → Parser Params → Parser Params
unfolding match_kind
parameter rec more = do
  t ← rec
  comma ← match_kind t_comma
  (if comma then (do ps ← more; give (cons t ps)) else give (cons t nil))

-- The loop over the parameters of a function type.
unfoldable pub params : ℕ → Parser Ty → Parser Params
unfolding check parameter
params zero rec = λ ts. starved
params (suc fuel) rec =
    let more = params fuel rec in
    do
      close ← check t_rparen
      at_end ← check t_eof
      if close || at_end then give nil else (do
        t ← rec
        comma ← match_kind t_comma
        if comma then (do ps ← more; give (cons t ps)) else give (cons t nil))

-- A function type behind its opening parenthesis.
unfoldable pub fn_type : Parser Ty → Parser Ty
unfolding params expect match_kind
fn_type rec = do
  ps ← λ ts. params (suc (length ts.toks)) rec ts
  _ ← expect t_rparen
  arrow ← match_kind t_arrow
  (if arrow then (do r ← rec; give (fn false ps r)) else give (fn false ps (plain ty_void)))

-- `Vec<T>`, `Set<T>` and `Option<T>`; without a `<` the element is `mixed`.
unfoldable pub one_argument : Wrapper → Parser Ty → Parser Ty
unfolding match_kind expect
one_argument w rec = do
  lt' ← match_kind t_lt
  (if lt' then (do t ← rec; _ ← expect t_gt; give (wrap w t)) else give (wrap w mixed))

unfoldable pub map_type : Parser Ty → Parser Ty
unfolding match_kind expect
map_type rec = do
  lt' ← match_kind t_lt
  (if lt'
      then (do k ← rec; _ ← expect t_comma; v ← rec; _ ← expect t_gt; give (Ty.map k v))
      else give (Ty.map mixed mixed))

-- The arguments of `Result<T, E>`, where `, E` may be left out.
unfoldable pub result_arguments : Parser Ty → Parser Ty
unfolding match_kind expect
result_arguments rec = do
  o ← rec
  comma ← match_kind t_comma
  e ← (if comma then rec else give (plain ty_string))
  _ ← expect t_gt
  give (res o e)

unfoldable pub result_type : Parser Ty → Parser Ty
unfolding result_arguments
result_type rec = do
  lt' ← match_kind t_lt
  (if lt' then result_arguments rec else give (res mixed (plain ty_string)))

-- A type that begins with the name `n`; `open` says that a parenthesis follows.
unfoldable pub generic_type : Parser Ty → Bytes → Bool → Parser Ty
unfolding bytes_eq advance fn_type one_argument map_type result_type
generic_type rec n open' =
    if bytes_eq n (codes "callable") && not open'
    then give (fn true nil mixed)
    else if (bytes_eq n (codes "fn") || bytes_eq n (codes "callable")) && open'
    then (do _ ← advance; fn_type rec)
    else if bytes_eq n (codes "Vec")
    then one_argument vec rec
    else if bytes_eq n (codes "Set")
    then one_argument Wrapper.set rec
    else if bytes_eq n (codes "Map") || bytes_eq n (codes "map") || bytes_eq n (codes "dict")
    then map_type rec
    else if bytes_eq n (codes "Option")
    then one_argument opt rec
    else if bytes_eq n (codes "Result")
    then result_type rec
    else give (named (some n))

unfoldable pub named_type : Parser Ty → Bytes → Parser Ty
unfolding bytes_eq find_prim prims check generic_type
named_type rec n =
    if bytes_eq n (codes "array") || bytes_eq n (codes "list")
    then give (wrap array mixed)
    else elim (find_prim prims n) [
      | some k ↦ give (plain k)
      | none ↦ do open' ← check t_lparen; generic_type rec n open'
    ]

-- `&T` and `&mut T` behind the `&`.
unfoldable pub reference : Parser Ty → Parser Ty
unfolding eat_ident
reference rec = do
  mutable ← eat_ident (codes "mut")
  t ← rec
  give (wrap (if mutable then mutref else ref) t)

abbrev pub wrapped : Wrapper → Parser Ty → Parser Ty
wrapped w rec = do t ← rec; give (wrap w t)

unfoldable pub pointer : Parser Ty → Parser Ty
unfolding advance
pointer rec = do _ ← advance; t ← rec; give (ptr t)

unfoldable pub bracketed : Parser Ty → Parser Ty
unfolding advance expect
bracketed rec = do _ ← advance; t ← rec; _ ← expect t_rbracket; give (wrap array t)

-- The name that begins any other type; `fn` is a keyword.
unfoldable pub type_name : Parser Token
unfolding check advance expect
type_name = do is_fn ← check t_kw_fn; (if is_fn then advance else expect t_ident)

unfoldable pub other_type : Parser Ty → Parser Ty
unfolding type_name named_type
other_type rec = do nm ← type_name; named_type rec nm.text

-- The forms that begin with no `&` and no `own`.
unfoldable pub prefixed : Parser Ty → Parser Ty
unfolding check pointer bracketed other_type
prefixed rec = do
  star ← check t_star
  bracket ← check t_lbracket
  (if star then pointer rec else if bracket then bracketed rec else other_type rec)

-- `parse_type` over the call that it makes for its parts.
unfoldable pub type_body : Parser Ty → Parser Ty
unfolding match_kind reference prefixed
type_body rec = do
  amp ← match_kind t_amp
  owned ← (if amp then give false else match_kind t_kw_own)
  (if amp then reference rec else if owned then wrapped own rec else prefixed rec)

unfoldable pub parse_type : ℕ → Parser Ty
unfolding type_body
parse_type zero = λ ts. starved
parse_type (suc fuel) = type_body (parse_type fuel)
