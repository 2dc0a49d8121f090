-- ===== src/Lexer/Number.antt =====
-- `lex_number` of src/hphpc/lexer.c. `strtoll` and `strtoull` saturate at their largest value; the
-- value of a float is the text that `strtod` is given.
use holyphp.Prelude.{
  ℕ, ◌+◌, ◌-◌, ◌*◌, ◌^◌, Bool, true, false, ◌&&◌, ◌||◌, Bytes, [], ◌∷◌, ◌==◌, leb, ltb,
  if◌then◌else◌, is_digit, is_xdigit, min, drop,
}
use holyphp.Prelude.Int.{ℤ, pos, negsuc}
use holyphp.Lexer.Token.{Token, TokKind}
use holyphp.Lexer.Cursor as Cursor
use holyphp.Lexer.Cursor.{Lexer, at, left, line, col, cur, peek, adv, adv_while, text_between}

-- The value of one digit in a base up to 16.
unfoldable pub digit_value : ℕ → ℕ
digit_value c = if leb c b'9' then c - b'0' else if leb b'a' c then c - b'a' + 10 else c - b'A' + 10

unfoldable pub digits_value : ℕ → ℕ → Bytes → ℕ
unfolding digit_value
digits_value base acc [] = acc
digits_value base acc (c ∷ s) = digits_value base (acc * base + digit_value c) s

-- `strtoll(s, NULL, base)` on digits of the base.
unfoldable pub strtoll : Bytes → ℕ → ℤ
unfolding digits_value
strtoll s base = pos (min (digits_value base 0 s) (2 ^ 63 - 1))

-- `(long long)strtoull(s, NULL, base)` on digits of the base.
unfoldable pub strtoull_signed : Bytes → ℕ → ℤ
unfolding digits_value
strtoull_signed s base =
    let v = min (digits_value base 0 s) (2 ^ 64 - 1) in
    if ltb v (2 ^ 63) then pos v else negsuc (2 ^ 64 - 1 - v)

abbrev pub is_bit : ℕ → Bool
is_bit c = c == b'0' || c == b'1'

abbrev pub digit_or_bar : ℕ → Bool
digit_or_bar c = is_digit c || c == b'_'

-- A copy without the `_` separators.
unfoldable pub clean : Bytes → Bytes
clean [] = []
clean (c ∷ s) = if c == b'_' then clean s else c ∷ clean s

-- The integer part and the fraction: whether there is a fraction, and the cursor after it.
unfoldable pub mantissa : Lexer → Bool × Lexer
unfolding adv adv_while
mantissa lx =
    let whole = adv_while digit_or_bar lx in
    if cur whole == b'.' && is_digit (peek whole 1)
    then (true, adv_while digit_or_bar (adv whole))
    else (false, whole)

-- The exponent. Without a digit only `pos` goes back (`lx->pos = save`); the column stays.
unfoldable pub exponent : Lexer → Bool × Lexer
unfolding adv adv_while
exponent lx =
    if cur lx == b'e' || cur lx == b'E'
    then (let mark = adv lx in
        let signed = if cur mark == b'+' || cur mark == b'-' then adv mark else mark in
        if is_digit (cur signed)
        then (true, adv_while is_digit signed)
        else (false, at (left lx) (Cursor.pos lx) (line signed) (col signed)))
    else (false, lx)

-- The token `t` has its position already.
unfoldable pub lex_number : Lexer → Token → Token × Lexer
unfolding adv adv_while text_between strtoll strtoull_signed clean mantissa exponent
lex_number lx t =
    let hex = adv_while is_xdigit (adv (adv lx)) in
    let hex_text = text_between lx hex in
    let bin = adv_while is_bit (adv (adv lx)) in
    let bin_text = text_between lx bin in
    let (has_fraction, whole) = mantissa lx in
    let (has_exponent, stop) = exponent whole in
    let text = text_between lx stop in
    if cur lx == b'0' && (peek lx 1 == b'x' || peek lx 1 == b'X')
    then (
      record t {
        kind = TokKind.t_int;
        text = hex_text;
        ival = strtoull_signed (drop 2 hex_text) 16;
      },
      hex,
    )
    else if cur lx == b'0' && (peek lx 1 == b'b' || peek lx 1 == b'B')
    then (
      record t { kind = TokKind.t_int; text = bin_text; ival = strtoll (drop 2 bin_text) 2 },
      bin,
    )
    else if has_fraction || has_exponent
    then (record t { kind = TokKind.t_float; text = text; fval = clean text }, stop)
    else (record t { kind = TokKind.t_int; text = text; ival = strtoll (clean text) 10 }, stop)
