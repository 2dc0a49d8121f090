-- ===== src/Runtime/Std/Codec/Url.antt =====
-- `hpbi_urldecode` of src/hphpc/runtime/hphp_std.c on what `hpbi_urlencode` writes.
use holyphp.Prelude.{
  All, Bool-cases, Bytes, [], ap, arith, false, inl, inr, is_xdigit, refl, true, ℕ, ◌%◌, ◌*◌, ◌+◌,
  ◌/◌, ◌<◌, ◌==◌, ◌∙◌, ◌∷◌, ◌≡◌,
}
use holyphp.Lexer.Cursor.{c_string}
use holyphp.Lexer.Number.{digit_value}
use holyphp.Runtime.Std.Codec.{
  hex_upper, hpbi_urldecode, hpbi_urlencode, strtol_hex, unreserved, url_loop,
}
use holyphp.Runtime.Std.Codec.Base64.{IsByte, cons2}

hex_digit : (v : ℕ) → v < 16 → (is_xdigit (hex_upper v) ≡ true) × (digit_value (hex_upper v) ≡ v)
unfolding digit_value
hex_digit v h = ground arith

strtol_hex_digits :
    (a b : ℕ)
    → is_xdigit a ≡ true
    → is_xdigit b ≡ true
    → strtol_hex a b ≡ digit_value a * 16 + digit_value b
unfolding strtol_hex
strtol_hex_digits a b h g = rw (h, g) refl

strtol_hex-hex_upper : (c : ℕ) → c < 256 → strtol_hex (hex_upper (c / 16)) (hex_upper (c % 16)) ≡ c
strtol_hex-hex_upper c h =
    let (high, high_value) = hex_digit (c / 16) (omega arith) in
    let (low, low_value) = hex_digit (c % 16) (omega arith) in
    strtol_hex_digits (hex_upper (c / 16)) (hex_upper (c % 16)) high low
    ∙ omega (arith, high_value, low_value)

url_plain :
    (c : ℕ) (s : Bytes)
    → (c == b'+') ≡ false
    → (c == b'%') ≡ false
    → url_loop (c ∷ s) ≡ c ∷ url_loop s
unfolding url_loop
url_plain c [] h g = rw h refl
url_plain c (d ∷ []) h g = rw h refl
url_plain c (d ∷ e ∷ s) h g = rw (h, g) refl

url_space : (s : Bytes) → url_loop (b'+' ∷ s) ≡ b' ' ∷ url_loop s
unfolding url_loop
url_space [] = refl
url_space (d ∷ []) = refl
url_space (d ∷ e ∷ s) = refl

url_escape : (d e : ℕ) (s : Bytes) → url_loop (b'%' ∷ d ∷ e ∷ s) ≡ strtol_hex d e ∷ url_loop s
unfolding url_loop
url_escape d e s = refl

url_nil : url_loop [] ≡ []
unfolding url_loop
url_nil = refl

url_loop-urlencode : (s : Bytes) → All IsByte s → url_loop (hpbi_urlencode s) ≡ s
unfolding hpbi_urlencode
url_loop-urlencode [] ok = url_nil
url_loop-urlencode (c ∷ s) ok =
    let ih = url_loop-urlencode s ok.1 in
    elim (Bool-cases (unreserved c)) [
      | inl e ↦
          let no_plus : (c == b'+') ≡ false = ground arith in
          let no_escape : (c == b'%') ≡ false = ground arith in
          rw e (url_plain c (hpbi_urlencode s) no_plus no_escape ∙ ap (λ r. c ∷ r) ih)
      | inr e ↦ elim (Bool-cases (c == b' ')) [
        | inl f ↦
            let at_space : b' ' ≡ c = ground arith in
            rw (e, f) (url_space (hpbi_urlencode s) ∙ cons2 at_space ih)
        | inr f ↦
            rw (e, f)
              (url_escape (hex_upper (c / 16)) (hex_upper (c % 16)) (hpbi_urlencode s)
                ∙ cons2 (strtol_hex-hex_upper c ok.0) ih)
      ]
    ]

-- Decoding the URL encoding of a string of bytes gives the string up to its first NUL.
pub hpbi_urldecode-hpbi_urlencode :
    (s : Bytes) → All IsByte s → hpbi_urldecode (hpbi_urlencode s) ≡ c_string s
unfolding hpbi_urldecode
hpbi_urldecode-hpbi_urlencode s ok = ap c_string (url_loop-urlencode s ok)
