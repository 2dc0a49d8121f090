-- ===== src/Parser/Stream.antt =====
-- The token stream of src/hphpc/token.h and src/hphpc/lexer.c: `ts_init`, the peeks, `ts_advance`,
-- `ts_check`, `ts_match` and `ts_expect`. A peek is `none` where the vector is empty: `len - 1` would
-- wrap there and the source reads outside it. `lex_all` never gives an empty vector.
use holyphp.Prelude.{
  Bool, List, Option, [], arith, get_elem?, if◌then◌else◌, length, ltb, lt→ltb, min, none, refl,
  some, suc, zero, ℕ, ◌+◌, ◌-◌, ◌<◌, ◌>>=◌, ◌∷◌, ◌≡◌,
}
use holyphp.Lexer.Token.{TokKind, Token}
use holyphp.Lexer.Kind.{same_kind}

pub record TokenStream : Type 0 where
  pub toks : List Token
  pub idx : ℕ

unfoldable pub ts_init : List Token → TokenStream
ts_init toks = record { toks = toks; idx = 0 }

-- `items[i < len ? i : len - 1]`
unfoldable pub clamped : List Token → ℕ → Option Token
clamped toks i = get_elem? toks (if ltb i (length toks) then i else length toks - 1)

unfoldable pub ts_peek : TokenStream → Option Token
unfolding clamped
ts_peek ts = clamped ts.toks ts.idx

unfoldable pub ts_peek2 : TokenStream → Option Token
unfolding clamped
ts_peek2 ts = clamped ts.toks (ts.idx + 1)

unfoldable pub ts_peek3 : TokenStream → Option Token
unfolding clamped
ts_peek3 ts = clamped ts.toks (ts.idx + 2)

-- The cursor never leaves the last token.
unfoldable pub step : TokenStream → TokenStream
step ts = if ltb ts.idx (length ts.toks - 1) then record ts { idx = ts.idx + 1 } else ts

unfoldable pub ts_advance : TokenStream → Option (Token × TokenStream)
unfolding ts_peek step
ts_advance ts = ts_peek ts >>= λ t. some (t, step ts)

unfoldable pub ts_check : TokenStream → TokKind → Option Bool
unfolding ts_peek same_kind
ts_check ts k = ts_peek ts >>= λ t. some (same_kind t.kind k)

unfoldable pub ts_match : TokenStream → TokKind → Option (Bool × TokenStream)
unfolding ts_check step
ts_match ts k = ts_check ts k >>= λ b. some (b, if b then step ts else ts)

-- `none` also where the program ends with "expected …".
unfoldable pub ts_expect : TokenStream → TokKind → Option (Token × TokenStream)
unfolding ts_check ts_advance
ts_expect ts k = ts_check ts k >>= λ b. if b then ts_advance ts else none

-- A stream as the parser keeps it: not empty, and the cursor inside.
pub record IsValid (ts : TokenStream) : Type 0 where
  pub inside : ts.idx < length ts.toks

get_elem?_total {ℓ} :
    {A : Type ℓ} (xs : List A) (i : ℕ) → i < length xs → (a : A) × (get_elem? xs i ≡ some a)
get_elem?_total [] i h = elim h [ ]
get_elem?_total (x ∷ xs) zero h = (x, refl)
get_elem?_total (x ∷ xs) (suc i) h = get_elem?_total xs i (omega arith)

pub clamped_total :
    (toks : List Token) (i : ℕ) → 0 < length toks → (t : Token) × (clamped toks i ≡ some t)
unfolding clamped
clamped_total toks i h = get_elem?_total toks _ (ground arith)

-- On a valid stream `ts_advance` returns the token under the cursor, keeps the vector, stays valid, and
-- moves by one unless the cursor is at the last token.
pub ts_advance_total :
    (ts : TokenStream)
    → IsValid ts
    → (t : Token) × (ts' : TokenStream) × (ts_advance ts ≡ some (t, ts'))
      × (get_elem? ts.toks ts.idx ≡ some t)
      × IsValid ts'
      × (ts'.toks ≡ ts.toks)
      × (ts'.idx ≡ min (ts.idx + 1) (length ts.toks - 1))
unfolding ts_advance
ts_advance_total ts v =
    let (t, found) = get_elem?_total ts.toks ts.idx v.inside in
    (
      t,
      step ts,
      rw (lt→ltb ts.idx (length ts.toks) v.inside, found),
      found,
      ground arith,
      ground arith,
      ground arith,
    )
