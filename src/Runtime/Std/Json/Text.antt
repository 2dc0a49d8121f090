-- ===== src/Runtime/Std/Json/Text.antt =====
-- What jp_string and jp_value of src/hphpc/runtime/hphp_std.c read of the text that hbuf_json_r writes
-- for a string or an integer.
use holyphp.Prelude.{
  Bool, Bytes, [], all_bytes, ap, arith, false, if_lem, is_digit, length, length-append, min, refl,
  skip_bytes, suc, take, true, zero, ℕ, ◌++◌, ◌<◌, ◌==◌, ◌^◌, ◌||◌, ◌∙◌, ◌∷◌, ◌≡◌, ◌≤◌,
}
use holyphp.Prelude.Int.{negsuc, pos, ℤ}
use holyphp.Package.Hpx.{decimal}
use holyphp.Package.Hpx.Text.{IsDecimal, all_head, decimal-IsDecimal}
use holyphp.Runtime.Std.Json.{
  any_byte, json_escape, int, int_text, is_number_byte, jp_number, jp_string, marks_float,
  peek_byte, signed_decimal, string_loop, take_bytes,
}

-- The loop of jp_string undoes the escapes, and ends behind the quote.
pub string_loop-json_escape :
    (fuel : ℕ) (s rest : Bytes)
    → length (json_escape s) < fuel
    → string_loop fuel (json_escape s ++ b'"' ∷ rest) ≡ (s, rest)
unfolding json_escape string_loop
string_loop-json_escape zero s rest h = absurd (omega arith)
string_loop-json_escape (suc fuel) [] rest h = refl
string_loop-json_escape (suc fuel) (c ∷ s) rest h =
    let ih = string_loop-json_escape fuel s rest in
    if_lem (λ x. length x < suc fuel → string_loop (suc fuel) (x ++ b'"' ∷ rest) ≡ (c ∷ s, rest))
      (c == b'"' || c == 92) (λ quoted lt. ground (arith, ih))
      (λ bare.
        if_lem
          (λ x. length x < suc fuel → string_loop (suc fuel) (x ++ b'"' ∷ rest) ≡ (c ∷ s, rest))
          (c == 10) (λ e lt. ground (arith, ih))
          (λ e.
            if_lem
              (λ x. length x < suc fuel → string_loop (suc fuel) (x ++ b'"' ∷ rest) ≡ (c ∷ s, rest))
              (c == 9) (λ e' lt. ground (arith, ih)) (λ e' lt. ground (arith, ih))))
      h

pub jp_string-json_escape :
    (s rest : Bytes) → jp_string (b'"' ∷ json_escape s ++ b'"' ∷ rest) ≡ (s, rest)
unfolding jp_string
jp_string-json_escape s rest =
    string_loop-json_escape (length (b'"' ∷ json_escape s ++ b'"' ∷ rest)) s rest
      (omega (arith, length-append (json_escape s) (b'"' ∷ rest)))

-- No byte of a number follows.
abbrev pub Stops : Bytes → Type 0
Stops t = is_number_byte (peek_byte t) ≡ false

pub take_bytes-append :
    (ok : ℕ → Bool) (s t : Bytes)
    → all_bytes ok s ≡ true
    → ok (peek_byte t) ≡ false
    → take_bytes ok (s ++ t) ≡ s
unfolding take_bytes all_bytes
take_bytes-append ok [] [] h stop = refl
take_bytes-append ok [] (c ∷ t) h stop = rw stop
take_bytes-append ok (c ∷ s) t h stop =
    let (here, there) = all_head ok c s h in
    rw here (ap (λ x. c ∷ x) (take_bytes-append ok s t there stop))

pub skip_bytes-append :
    (ok : ℕ → Bool) (s t : Bytes)
    → all_bytes ok s ≡ true
    → ok (peek_byte t) ≡ false
    → skip_bytes ok (s ++ t) ≡ t
unfolding skip_bytes all_bytes
skip_bytes-append ok [] [] h stop = refl
skip_bytes-append ok [] (c ∷ t) h stop = rw stop
skip_bytes-append ok (c ∷ s) t h stop =
    let (here, there) = all_head ok c s h in rw here (skip_bytes-append ok s t there stop)

take_bytes_all : (ok : ℕ → Bool) (s : Bytes) → all_bytes ok s ≡ true → take_bytes ok s ≡ s
unfolding take_bytes all_bytes
take_bytes_all ok [] h = refl
take_bytes_all ok (c ∷ s) h =
    let (here, there) = all_head ok c s h in rw here (ap (λ x. c ∷ x) (take_bytes_all ok s there))

digits_number : (s : Bytes) → all_bytes is_digit s ≡ true → all_bytes is_number_byte s ≡ true
unfolding all_bytes
digits_number [] h = refl
digits_number (c ∷ s) h =
    let (here, there) = all_head is_digit c s h in
    let number : is_number_byte c ≡ true = ground (arith, here) in rw number (digits_number s there)

digits_integral : (s : Bytes) → all_bytes is_digit s ≡ true → any_byte marks_float s ≡ false
unfolding all_bytes
digits_integral [] h = refl
digits_integral (c ∷ s) h =
    let (here, there) = all_head is_digit c s h in
    let plain : marks_float c ≡ false = ground (arith, here) in rw plain (digits_integral s there)

-- What a 64-bit integer is.
abbrev pub IsInt64 : ℤ → Type 0
IsInt64 (pos n) = n < 2 ^ 63
IsInt64 (negsuc n) = suc n ≤ 2 ^ 63

unsigned_digits : (s : Bytes) (n : ℕ) → IsDecimal n s → n < 2 ^ 63 → signed_decimal s ≡ pos n
unfolding signed_decimal
unsigned_digits [] n (digits, positive, short, value) h = absurd (omega arith)
unsigned_digits (c ∷ s) n (digits, positive, short, value) h =
    let (here, there) = all_head is_digit c s digits in
    let plain : (c == b'-') ≡ false = ground (arith, here) in
    let bare : (c == b'+') ≡ false = ground (arith, here) in
    rw (plain, bare, take_bytes_all is_digit (c ∷ s) digits, value) (ap pos (omega arith))

negative_digits :
    (s : Bytes) (n : ℕ)
    → IsDecimal (suc n) s
    → suc n ≤ 2 ^ 63
    → signed_decimal (b'-' ∷ s) ≡ negsuc n
unfolding signed_decimal
negative_digits s n (digits, positive, short, value) h =
    let whole : min (suc n) (2 ^ 63) ≡ suc n = omega arith in
    rw (take_bytes_all is_digit s digits, value) (rw whole refl)

-- The text of an integer: what the reader of numbers needs of it.
abbrev pub IsNumeral : ℤ → Bytes → Type 0
IsNumeral i s =
    (all_bytes is_number_byte s ≡ true)
    × (any_byte marks_float s ≡ false)
    × (0 < length s)
    × (length s ≤ 63)
    × (signed_decimal s ≡ i)

pub int_text-IsNumeral : (i : ℤ) → IsInt64 i → IsNumeral i (int_text i)
unfolding int_text all_bytes
int_text-IsNumeral (pos n) h =
    let d = decimal-IsDecimal n (omega arith) in
    let (digits, positive, short, value) = d in
    (
      digits_number (decimal n) digits,
      digits_integral (decimal n) digits,
      positive,
      omega arith,
      unsigned_digits (decimal n) n d h,
    )
int_text-IsNumeral (negsuc n) h =
    let d = decimal-IsDecimal (suc n) (omega arith) in
    let (digits, positive, short, value) = d in
    (
      digits_number (decimal (suc n)) digits,
      digits_integral (decimal (suc n)) digits,
      omega arith,
      omega arith,
      negative_digits (decimal (suc n)) n d h,
    )

take_short : (n : ℕ) (s : Bytes) → length s ≤ n → take n s ≡ s
take_short zero [] h = refl
take_short zero (c ∷ s) h = absurd (omega arith)
take_short (suc n) [] h = refl
take_short (suc n) (c ∷ s) h = ap (λ t. c ∷ t) (take_short n s (omega arith))

pub jp_number_lem :
    {D : Type 0} (strtod : Bytes → D) (i : ℤ) (s rest : Bytes)
    → IsNumeral i s
    → Stops rest
    → jp_number strtod (s ++ rest) ≡ (int i, rest)
unfolding jp_number
jp_number_lem strtod i [] rest (number, integral, positive, short, value) stop =
    absurd (omega arith)
jp_number_lem strtod i (c ∷ s) rest (number, integral, positive, short, value) stop =
    let whole = ap signed_decimal (take_short 63 (c ∷ s) short) ∙ value in
    rw
      (
        take_bytes-append is_number_byte (c ∷ s) rest number stop,
        skip_bytes-append is_number_byte (c ∷ s) rest number stop,
        integral,
      )
      (ap (λ z. (int z, rest)) whole)
