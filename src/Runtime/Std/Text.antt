-- ===== src/Runtime/Std/Text.antt =====
-- The functions on strings of src/hphpc/runtime/hphp_std.c. The result false of a search is `none`.
pub mod Pieces
pub mod Explode
pub mod Distance
pub mod Wildcard
pub mod Wrap
use Prim.Native.Nat.{bit_xor}
use holyphp.Prelude.{
  Bool, Bytes, Option, [], bytes_eq, codes, drop, false, if◌then◌else◌, is_space, leb, length, ltb,
  min, none, set, some, suc, take, true, zero, ℕ, ◌%◌, ◌&&◌, ◌++◌, ◌+◌, ◌-◌, ◌/◌, ◌==◌, ◌^◌, ◌||◌,
  ◌∷◌,
}
use holyphp.Prelude.Int.{negsuc, pos, ℤ}
use holyphp.Runtime.Str.{
  Sign, from_end, hp_str_cmp, hp_str_index, hp_str_repeat, hp_str_replace, hp_str_slice, is_prefix,
  less, more, same, to_lower, to_upper,
}

unfoldable pub hpbi_ucfirst : Bytes → Bytes
unfolding to_upper
hpbi_ucfirst [] = []
hpbi_ucfirst (c ∷ s) = to_upper c ∷ s

unfoldable pub hpbi_lcfirst : Bytes → Bytes
unfolding to_lower
hpbi_lcfirst [] = []
hpbi_lcfirst (c ∷ s) = to_lower c ∷ s

-- `memchr(set, c, slen)`
abbrev pub memchr : Bytes → ℕ → Bool
memchr [] c = false
memchr (d ∷ set) c = d == c || memchr set c

unfoldable pub hpbi_ltrim : Bytes → Bytes → Bytes
hpbi_ltrim set [] = []
hpbi_ltrim set (c ∷ s) = if is_space c || memchr set c then hpbi_ltrim set s else c ∷ s

-- A byte before what is kept.
abbrev pub keep_unless : Bool → ℕ → Bytes → Bytes
keep_unless b c [] = if b then [] else c ∷ []
keep_unless b c (d ∷ r) = c ∷ d ∷ r

unfoldable pub hpbi_rtrim : Bytes → Bytes → Bytes
hpbi_rtrim set [] = []
hpbi_rtrim set (c ∷ s) = keep_unless (is_space c || memchr set c) c (hpbi_rtrim set s)

unfoldable pub hpbi_chop : Bytes → Bytes
hpbi_chop [] = []
hpbi_chop (c ∷ s) = keep_unless (is_space c) c (hpbi_chop s)

-- An empty pad is a blank.
abbrev pub pad_or_blank : Bytes → Bytes
pad_or_blank [] = b' ' ∷ []
pad_or_blank (c ∷ p) = c ∷ p

unfoldable pub hpbi_str_pad : Bytes → ℤ → Bytes → Bytes
unfolding hp_str_repeat hp_str_slice
hpbi_str_pad s (negsuc n) pad = s
hpbi_str_pad s (pos want) pad =
    let p = pad_or_blank pad in
    let missing = want - length s in
    if leb want (length s)
    then s
    else s
      ++ hp_str_slice (hp_str_repeat p (pos ((missing + length p - 1) / length p))) (pos 0)
          (pos missing)

-- A negative offset counts from the end; one that is still negative is 0.
abbrev pub not_negative : ℤ → ℕ
not_negative (pos n) = n
not_negative (negsuc n) = 0

abbrev pub substr_start : ℤ → ℕ → ℕ
substr_start start len = not_negative (from_end start len)

-- The length asked for: `none` is to the end, and a negative one leaves bytes off at the end.
unfoldable pub substr_length : Option ℤ → ℕ → ℕ
substr_length none rest = rest
substr_length (some (pos l)) rest = l
substr_length (some (negsuc l)) rest = rest - (l + 1)

unfoldable pub hpbi_substr : Bytes → ℤ → Option ℤ → Bytes
unfolding hp_str_slice substr_length
hpbi_substr s start len =
    let st = substr_start start (length s) in
    if ltb (length s) st
    then []
    else hp_str_slice s (pos st) (pos (st + substr_length len (length s - st)))

unfoldable pub hpbi_strstr : Bytes → Bytes → Option Bytes
unfolding hp_str_index hp_str_slice
hpbi_strstr h n = elim (hp_str_index h n) [
  | none ↦ none
  | some i ↦ some (hp_str_slice h (pos i) (pos (length h)))
]

unfoldable pub hpbi_strpos : Bytes → Bytes → ℤ → Option ℕ
unfolding hp_str_index
hpbi_strpos h n off =
    let o = min (not_negative off) (length h) in
    elim (hp_str_index (drop o h) n) [ none ↦ none | some r ↦ some (r + o) ]

unfoldable pub hpbi_str_contains : Bytes → Bytes → Bool
unfolding hp_str_index
hpbi_str_contains h n = elim (hp_str_index h n) [ none ↦ false | some i ↦ true ]

unfoldable pub hpbi_str_starts_with : Bytes → Bytes → Bool
unfolding is_prefix
hpbi_str_starts_with h n = leb (length n) (length h) && is_prefix n h

unfoldable pub hpbi_str_ends_with : Bytes → Bytes → Bool
unfolding bytes_eq
hpbi_str_ends_with h n = leb (length n) (length h) && bytes_eq (drop (length h - length n) h) n

-- Both strings are cut to the length of the shorter one first.
unfoldable pub hpbi_strncmp : Bytes → Bytes → ℤ → Sign
unfolding hp_str_cmp
hpbi_strncmp x y n =
    let k = min (min (not_negative n) (length x)) (length y) in hp_str_cmp (take k x) (take k y)

unfoldable pub hp_str_casecmp_n : Bytes → Bytes → Sign
unfolding to_lower
hp_str_casecmp_n [] [] = same
hp_str_casecmp_n [] (b ∷ t) = less
hp_str_casecmp_n (a ∷ s) [] = more
hp_str_casecmp_n (a ∷ s) (b ∷ t) =
    if to_lower a == to_lower b
    then hp_str_casecmp_n s t
    else if ltb (to_lower a) (to_lower b)
    then less
    else more

-- `(size_t)` of a negative number is larger than every length.
unfoldable pub hpbi_strncasecmp : Bytes → Bytes → ℤ → Sign
unfolding hp_str_casecmp_n
hpbi_strncasecmp x y (negsuc n) =
    let k = min (length x) (length y) in hp_str_casecmp_n (take k x) (take k y)
hpbi_strncasecmp x y (pos n) =
    let k = min (min n (length x)) (length y) in hp_str_casecmp_n (take k x) (take k y)

unfoldable pub hpbi_nl2br : Bytes → Bytes
unfolding hp_str_replace
hpbi_nl2br s = hp_str_replace s (b'\n' ∷ []) (codes "<br />" ++ b'\n' ∷ [])

unfoldable pub hpbi_htmlentities : Bytes → Bytes
unfolding hp_str_replace
hpbi_htmlentities s =
    let r = hp_str_replace s (b'&' ∷ []) (codes "&amp;") in
    let r' = hp_str_replace r (b'<' ∷ []) (codes "&lt;") in
    let r'' = hp_str_replace r' (b'>' ∷ []) (codes "&gt;") in
    hp_str_replace r'' (34 ∷ []) (codes "&quot;")

unfoldable pub hpbi_ord : Bytes → ℕ
hpbi_ord [] = 0
hpbi_ord (c ∷ s) = c

-- `(char)` keeps the low byte.
unfoldable pub hpbi_chr : ℤ → Bytes
hpbi_chr (pos n) = (n % 2 ^ 8) ∷ []
hpbi_chr (negsuc n) = (2 ^ 8 - 1 - n % 2 ^ 8) ∷ []

unfoldable pub ucwords_loop : Bool → Bytes → Bytes
unfolding to_upper
ucwords_loop up [] = []
ucwords_loop up (c ∷ s) =
    if is_space c
    then c ∷ ucwords_loop true s
    else if up
    then to_upper c ∷ ucwords_loop false s
    else c ∷ ucwords_loop up s

unfoldable pub hpbi_ucwords : Bytes → Bytes
unfolding ucwords_loop
hpbi_ucwords s = ucwords_loop true s

unfoldable pub hpbi_similar_text : Bytes → Bytes → ℕ
hpbi_similar_text [] y = 0
hpbi_similar_text (c ∷ x) y =
    let rest = hpbi_similar_text x y in if memchr y c then suc rest else rest

-- One of the eight rounds of a byte.
abbrev pub crc_round : ℕ → ℕ
crc_round crc = bit_xor (crc / 2) (if crc % 2 == 1 then 0xEDB8_8320 else 0)

abbrev pub crc_rounds : ℕ → ℕ → ℕ
crc_rounds zero crc = crc
crc_rounds (suc k) crc = crc_rounds k (crc_round crc)

unfoldable pub crc_loop : ℕ → Bytes → ℕ
crc_loop crc [] = crc
crc_loop crc (c ∷ s) = crc_loop (crc_rounds 8 (bit_xor crc c)) s

unfoldable pub hpbi_crc32 : Bytes → ℕ
unfolding crc_loop
hpbi_crc32 s = 0xFFFF_FFFF - crc_loop 0xFFFF_FFFF s
