-- ===== src/Runtime/Std/Codec/Base64.antt =====
-- Base64 of src/hphpc/runtime/hphp_std.c, encoded and decoded.
use holyphp.Prelude.{
  All, Bool, Bytes, Option, [], all_below, all_below_lem, ap, arith, false, get_or, leb, none, refl,
  some, true, ℕ, ◌%◌, ◌*◌, ◌+◌, ◌-◌, ◌/◌, ◌<◌, ◌==◌, ◌^◌, ◌∙◌, ◌∷◌, ◌≡◌,
}
use holyphp.Runtime.Std.Codec.{
  b64_char, b64_loop, b64_table, b64_val, hp_b64_decode, hp_b64_encode, joined_bytes,
}

abbrev is_digit_of : ℕ → Option ℕ → Bool
is_digit_of v none = false
is_digit_of v (some w) = v == w

digit_of_lem : (v : ℕ) (o : Option ℕ) → is_digit_of v o ≡ true → o ≡ some v
digit_of_lem v none h = absurd (cc)
digit_of_lem v (some w) h = ap some (ground arith)

table_read : all_below 64 (λ v. is_digit_of v (b64_val (b64_char v))) ≡ true
unfolding all_below b64_val b64_char b64_table
table_read = refl

char_mod : (x : ℕ) → b64_char x ≡ b64_char (x % 64)
unfolding b64_char
char_mod x = let e : x % 64 ≡ x % 64 % 64 = omega arith in ap (λ k. get_or b64_table k 0) e

b64_val-b64_char : (x : ℕ) → b64_val (b64_char x) ≡ some (x % 64)
b64_val-b64_char x =
    ap b64_val (char_mod x)
    ∙ digit_of_lem (x % 64) (b64_val (b64_char (x % 64))) (
        all_below_lem 64 (λ v. is_digit_of v (b64_val (b64_char v))) table_read (x % 64)
          (omega arith))

abbrev add_digit : ℕ → ℕ → ℕ
add_digit acc x = (acc * 2 ^ 6 + x % 64) % 2 ^ 32

loop_wait :
    (acc x : ℕ) (s : Bytes) → b64_loop acc 0 (b64_char x ∷ s) ≡ b64_loop (add_digit acc x) 6 s
unfolding b64_loop
loop_wait acc x s = rw (b64_loop, b64_val-b64_char x) refl

loop_full :
    (acc bits x : ℕ) (s : Bytes)
    → leb 2 bits ≡ true
    → b64_loop acc bits (b64_char x ∷ s)
      ≡ (add_digit acc x / 2 ^ (bits - 2)) % 2 ^ 8 ∷ b64_loop (add_digit acc x) (bits - 2) s
unfolding b64_loop
loop_full acc bits x s h = rw (b64_loop, b64_val-b64_char x, h) refl

loop_pad : (acc bits : ℕ) (s : Bytes) → b64_loop acc bits (b'=' ∷ s) ≡ b64_loop acc bits s
unfolding b64_loop b64_val
loop_pad acc bits s = refl

first_byte :
    (acc v w : ℕ)
    → v < 64
    → w < 64
    → (((acc * 64 + v) % 2 ^ 32 * 64 + w) % 2 ^ 32 / 16) % 256 ≡ v * 4 + w / 16
first_byte acc v w h g = omega arith

second_byte :
    (acc v w : ℕ)
    → v < 64
    → w < 64
    → (((acc * 64 + v) % 2 ^ 32 * 64 + w) % 2 ^ 32 / 4) % 256 ≡ v % 16 * 16 + w / 4
second_byte acc v w h g = omega arith

third_byte :
    (acc v w : ℕ)
    → v < 64
    → w < 64
    → (((acc * 64 + v) % 2 ^ 32 * 64 + w) % 2 ^ 32 / 1) % 256 ≡ v % 4 * 64 + w
third_byte acc v w h g = omega arith

-- The digits of three bytes, put together again.
digits_joined :
    (a b c : ℕ)
    → a < 256
    → b < 256
    → c < 256
    → let n = joined_bytes a b c in
      (n / 2 ^ 18 % 64 * 4 + n / 2 ^ 12 % 64 / 16 ≡ a)
      × (n / 2 ^ 12 % 64 % 16 * 16 + n / 2 ^ 6 % 64 / 4 ≡ b)
      × (n / 2 ^ 6 % 64 % 4 * 64 + n % 64 ≡ c)
digits_joined a b c ha hb hc = (omega arith, omega arith, omega arith)

-- Two digits behind an empty accumulator give a byte, and so on.
two_digits :
    (acc x y : ℕ) (s : Bytes)
    → b64_loop acc 0 (b64_char x ∷ b64_char y ∷ s)
      ≡ (x % 64 * 4 + y % 64 / 16) ∷ b64_loop (add_digit (add_digit acc x) y) 4 s
two_digits acc x y s =
    loop_wait acc x (b64_char y ∷ s)
    ∙ loop_full (add_digit acc x) 6 y s refl
    ∙ ap (λ v. v ∷ b64_loop (add_digit (add_digit acc x) y) 4 s)
        (first_byte acc (x % 64) (y % 64) (omega arith) (omega arith))

three_digits :
    (acc y z : ℕ) (s : Bytes)
    → b64_loop (add_digit acc y) 4 (b64_char z ∷ s)
      ≡ (y % 64 % 16 * 16 + z % 64 / 4) ∷ b64_loop (add_digit (add_digit acc y) z) 2 s
three_digits acc y z s =
    loop_full (add_digit acc y) 4 z s refl
    ∙ ap (λ v. v ∷ b64_loop (add_digit (add_digit acc y) z) 2 s)
        (second_byte acc (y % 64) (z % 64) (omega arith) (omega arith))

four_digits :
    (acc z t : ℕ) (s : Bytes)
    → b64_loop (add_digit acc z) 2 (b64_char t ∷ s)
      ≡ (z % 64 % 4 * 64 + t % 64) ∷ b64_loop (add_digit (add_digit acc z) t) 0 s
four_digits acc z t s =
    loop_full (add_digit acc z) 2 t s refl
    ∙ ap (λ v. v ∷ b64_loop (add_digit (add_digit acc z) t) 0 s)
        (third_byte acc (z % 64) (t % 64) (omega arith) (omega arith))

abbrev pub IsByte : ℕ → Type 0
IsByte c = c < 256

loop_nil : (acc bits : ℕ) → b64_loop acc bits [] ≡ []
unfolding b64_loop
loop_nil acc bits = refl

one_byte : (a : ℕ) → a < 256 → a * 2 ^ 16 / 2 ^ 18 % 64 * 4 + a * 2 ^ 16 / 2 ^ 12 % 64 / 16 ≡ a
one_byte a h = omega arith

two_bytes :
    (a b : ℕ)
    → a < 256
    → b < 256
    → let n = a * 2 ^ 16 + b * 2 ^ 8 in
      (n / 2 ^ 18 % 64 * 4 + n / 2 ^ 12 % 64 / 16 ≡ a)
      × (n / 2 ^ 12 % 64 % 16 * 16 + n / 2 ^ 6 % 64 / 4 ≡ b)
two_bytes a b h g = (omega arith, omega arith)

pub cons2 : {a a' : ℕ} {s s' : Bytes} → a ≡ a' → s ≡ s' → ◌≡◌ {A = Bytes} (a ∷ s) (a' ∷ s')
cons2 e f = cc

loop_pad_end : (acc bits : ℕ) → b64_loop acc bits (b'=' ∷ []) ≡ []
loop_pad_end acc bits = loop_pad acc bits [] ∙ loop_nil acc bits

decode_loop : (s : Bytes) → All IsByte s → (acc : ℕ) → b64_loop acc 0 (hp_b64_encode s) ≡ s
unfolding hp_b64_encode
decode_loop [] ok acc = loop_nil acc 0
decode_loop (a ∷ []) ok acc =
    let n = a * 2 ^ 16 in
    let acc2 = add_digit (add_digit acc (n / 2 ^ 18)) (n / 2 ^ 12) in
    two_digits acc (n / 2 ^ 18) (n / 2 ^ 12) (b'=' ∷ b'=' ∷ [])
    ∙ cons2 (one_byte a ok.0) (loop_pad acc2 4 (b'=' ∷ []) ∙ loop_pad_end acc2 4)
decode_loop (a ∷ b ∷ []) ok acc =
    let n = a * 2 ^ 16 + b * 2 ^ 8 in
    let acc1 = add_digit acc (n / 2 ^ 18) in
    let acc3 = add_digit (add_digit acc1 (n / 2 ^ 12)) (n / 2 ^ 6) in
    let (first, second) = two_bytes a b ok.0 ok.1.0 in
    two_digits acc (n / 2 ^ 18) (n / 2 ^ 12) (b64_char (n / 2 ^ 6) ∷ b'=' ∷ [])
    ∙ cons2 first (
        three_digits acc1 (n / 2 ^ 12) (n / 2 ^ 6) (b'=' ∷ []) ∙ cons2 second (loop_pad_end acc3 2))
decode_loop (a ∷ b ∷ c ∷ s) ok acc =
    let n = joined_bytes a b c in
    let acc1 = add_digit acc (n / 2 ^ 18) in
    let acc2 = add_digit acc1 (n / 2 ^ 12) in
    let rest = hp_b64_encode s in
    let (first, second, third) = digits_joined a b c ok.0 ok.1.0 ok.1.1.0 in
    two_digits acc (n / 2 ^ 18) (n / 2 ^ 12) (b64_char (n / 2 ^ 6) ∷ b64_char n ∷ rest)
    ∙ cons2 first (
        three_digits acc1 (n / 2 ^ 12) (n / 2 ^ 6) (b64_char n ∷ rest)
        ∙ cons2 second (
            four_digits acc2 (n / 2 ^ 6) n rest
            ∙ cons2 third (decode_loop s ok.1.1.1 (add_digit (add_digit acc2 (n / 2 ^ 6)) n))))

-- Every string of bytes is decoded from its base64.
pub hp_b64_decode-hp_b64_encode : (s : Bytes) → All IsByte s → hp_b64_decode (hp_b64_encode s) ≡ s
unfolding hp_b64_decode
hp_b64_decode-hp_b64_encode s ok = decode_loop s ok 0
