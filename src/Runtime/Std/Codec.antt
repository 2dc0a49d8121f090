-- ===== src/Runtime/Std/Codec.antt =====
-- The codecs of src/hphpc/runtime/hphp_std.c: `hp_b64_encode` and `hp_b64_decode`, `hpbi_urlencode` and
-- `hpbi_urldecode`, `hpbi_bin2hex` and `hpbi_hex2bin`. A result that goes through `hp_str_lit` ends at
-- its first NUL.
pub mod Base64
pub mod Url
use holyphp.Prelude.{
  Bool, Bytes, Option, [], codes, get_or, if◌then◌else◌, is_alnum, is_digit, is_lower, is_space,
  is_upper, is_xdigit, leb, ltb, none, some, ℕ, ◌%◌, ◌&&◌, ◌*◌, ◌+◌, ◌-◌, ◌/◌, ◌==◌, ◌^◌, ◌||◌, ◌∷◌,
}
use holyphp.Lexer.Cursor.{c_string}
use holyphp.Lexer.Number.{digit_value}

unfoldable pub b64_table : Bytes
b64_table = codes "ABCDEFGHIJKLMNOPQRSTUVWXYZabcdefghijklmnopqrstuvwxyz0123456789+/"

-- `tab[v & 63]`
unfoldable pub b64_char : ℕ → ℕ
unfolding b64_table
b64_char v = get_or b64_table (v % 64) 0

-- -1 is `none`.
unfoldable pub b64_val : ℕ → Option ℕ
b64_val c =
    if is_upper c
    then some (c - b'A')
    else if is_lower c
    then some (c - b'a' + 26)
    else if is_digit c
    then some (c - b'0' + 52)
    else if c == b'+'
    then some 62
    else if c == b'/'
    then some 63
    else none

-- Three bytes are one number of 24 bits, cut into four digits.
abbrev pub joined_bytes : ℕ → ℕ → ℕ → ℕ
joined_bytes a b c = a * 2 ^ 16 + b * 2 ^ 8 + c

unfoldable pub hp_b64_encode : Bytes → Bytes
unfolding b64_char
hp_b64_encode [] = []
hp_b64_encode (a ∷ []) =
    let n = a * 2 ^ 16 in b64_char (n / 2 ^ 18) ∷ b64_char (n / 2 ^ 12) ∷ b'=' ∷ b'=' ∷ []
hp_b64_encode (a ∷ b ∷ []) =
    let n = a * 2 ^ 16 + b * 2 ^ 8 in
    b64_char (n / 2 ^ 18) ∷ b64_char (n / 2 ^ 12) ∷ b64_char (n / 2 ^ 6) ∷ b'=' ∷ []
hp_b64_encode (a ∷ b ∷ c ∷ s) =
    let n = joined_bytes a b c in
    b64_char (n / 2 ^ 18)
    ∷ b64_char (n / 2 ^ 12)
    ∷ b64_char (n / 2 ^ 6)
    ∷ b64_char n
    ∷ hp_b64_encode s

-- The loop of `hp_b64_decode`: the accumulator of 32 bits and the number of bits in it that are left.
unfoldable pub b64_loop : ℕ → ℕ → Bytes → Bytes
unfolding b64_val
b64_loop acc bits [] = []
b64_loop acc bits (c ∷ s) = elim (b64_val c) [
  | none ↦ b64_loop acc bits s
  | some v ↦
      let acc' = (acc * 2 ^ 6 + v) % 2 ^ 32 in
      let full = (acc' / 2 ^ (bits - 2)) % 2 ^ 8 ∷ b64_loop acc' (bits - 2) s in
      let wait = b64_loop acc' (bits + 6) s in if leb 2 bits then full else wait
]

unfoldable pub hp_b64_decode : Bytes → Bytes
unfolding b64_loop
hp_b64_decode s = b64_loop 0 0 s

-- `hexd[v]` and the digits of `%02x` and `%02X`.
abbrev pub hex_lower : ℕ → ℕ
hex_lower v = if ltb v 10 then b'0' + v else b'a' + (v - 10)

abbrev pub hex_upper : ℕ → ℕ
hex_upper v = if ltb v 10 then b'0' + v else b'A' + (v - 10)

unfoldable pub hp_hex : Bytes → Bytes
hp_hex [] = []
hp_hex (c ∷ s) = hex_lower (c / 16) ∷ hex_lower (c % 16) ∷ hp_hex s

unfoldable pub hpbi_bin2hex : Bytes → Bytes
hpbi_bin2hex [] = []
hpbi_bin2hex (c ∷ s) = hex_lower (c / 16) ∷ hex_lower (c % 16) ∷ hpbi_bin2hex s

-- `(char)strtol(hex, NULL, 16)` of two bytes. White space and a sign may stand before the digits, and
-- `0x` may be a prefix with no digit behind it.
unfoldable pub strtol_hex : ℕ → ℕ → ℕ
unfolding digit_value
strtol_hex a b =
    if is_xdigit a
    then (if is_xdigit b then digit_value a * 16 + digit_value b else digit_value a)
    else if (is_space a || a == b'+') && is_xdigit b
    then digit_value b
    else if a == b'-' && is_xdigit b
    then (256 - digit_value b) % 256
    else 0

unfoldable pub hex_pairs : Bytes → Bytes
unfolding strtol_hex
hex_pairs [] = []
hex_pairs (a ∷ []) = []
hex_pairs (a ∷ b ∷ s) = strtol_hex a b ∷ hex_pairs s

unfoldable pub hpbi_hex2bin : Bytes → Bytes
unfolding hex_pairs c_string
hpbi_hex2bin s = c_string (hex_pairs s)

-- A byte that stands for itself in a URL.
abbrev pub unreserved : ℕ → Bool
unreserved c = is_alnum c || c == b'-' || c == b'_' || c == b'.' || c == b'~'

unfoldable pub hpbi_urlencode : Bytes → Bytes
hpbi_urlencode [] = []
hpbi_urlencode (c ∷ s) =
    let rest = hpbi_urlencode s in
    if unreserved c
    then c ∷ rest
    else if c == b' '
    then b'+' ∷ rest
    else b'%' ∷ hex_upper (c / 16) ∷ hex_upper (c % 16) ∷ rest

-- A `%` with fewer than two bytes behind it stands for itself.
unfoldable pub url_loop : Bytes → Bytes
unfolding strtol_hex
url_loop [] = []
url_loop (c ∷ []) = (if c == b'+' then b' ' else c) ∷ []
url_loop (c ∷ d ∷ []) = (if c == b'+' then b' ' else c) ∷ url_loop (d ∷ [])
url_loop (c ∷ d ∷ e ∷ s) =
    let escaped = strtol_hex d e ∷ url_loop s in
    let plain = c ∷ url_loop (d ∷ e ∷ s) in
    let space = b' ' ∷ url_loop (d ∷ e ∷ s) in
    if c == b'+' then space else if c == b'%' then escaped else plain

unfoldable pub hpbi_urldecode : Bytes → Bytes
unfolding url_loop c_string
hpbi_urldecode s = c_string (url_loop s)
