-- ===== src/Runtime/Std/Tests.antt =====
-- Concrete runs of the functions of src/hphpc/runtime/hphp_std.c.
use holyphp.Prelude.{[], arith, codes, false, refl, reverse, some, true, ◌++◌, ◌↔◌, ◌∷◌, ◌≡◌}
use holyphp.Prelude.Int.{negsuc, pos}
use holyphp.Lexer.Cursor.{c_string}
use holyphp.Runtime.Str.{same}
use holyphp.Runtime.Std.Codec.{
  hp_b64_decode, hp_b64_encode, hpbi_hex2bin, hpbi_urldecode, hpbi_urlencode,
}
use holyphp.Runtime.Std.Codec.Base64.{hp_b64_decode-hp_b64_encode}
use holyphp.Runtime.Std.Codec.Url.{hpbi_urldecode-hpbi_urlencode}
use holyphp.Runtime.Std.Text.{
  hpbi_crc32, hpbi_htmlentities, hpbi_str_pad, hpbi_strncmp, hpbi_strpos, hpbi_substr, hpbi_ucwords,
}
use holyphp.Runtime.Std.Text.Pieces.{hpbi_explode, hpbi_str_split}
use holyphp.Runtime.Std.Text.Explode.{Splits, hpbi_explode-Splits}
use holyphp.Runtime.Std.Text.Wildcard.{Matches, wc_match, wc_match-Matches}
use holyphp.Runtime.Std.Text.Wrap.{hp_ct_eq, hpbi_substr_count, hpbi_wordwrap}
use holyphp.Runtime.Std.Text.Distance.{distance, hpbi_levenshtein, hpbi_levenshtein-distance}

-- A zero byte ends what `hex2bin` gives.
hex2bin_cut : hpbi_hex2bin (codes "410042") ≡ codes "A"
unfolding hpbi_hex2bin
hex2bin_cut = refl

-- Strings of different lengths are equal for `strncmp` where the shorter one is a prefix.
strncmp_prefix : hpbi_strncmp (codes "ab") (codes "abc") (pos 3) ≡ same
unfolding hpbi_strncmp
strncmp_prefix = refl

crc32_check : hpbi_crc32 (codes "123456789") ≡ 0xCBF4_3926
unfolding hpbi_crc32
crc32_check = refl

pad_check : hpbi_str_pad (codes "ab") (pos 7) (codes "xyz") ≡ codes "abxyzxy"
unfolding hpbi_str_pad
pad_check = refl

substr_check : hpbi_substr (codes "abcdef") (negsuc 2) (some (negsuc 0)) ≡ codes "de"
unfolding hpbi_substr
substr_check = refl

strpos_check : hpbi_strpos (codes "hello hello") (codes "lo") (pos 4) ≡ some 9
unfolding hpbi_strpos
strpos_check = refl

ucwords_check : hpbi_ucwords (codes "two words") ≡ codes "Two Words"
unfolding hpbi_ucwords
ucwords_check = refl

entities_check : hpbi_htmlentities (codes "a<b&c") ≡ codes "a&lt;b&amp;c"
unfolding hpbi_htmlentities
entities_check = refl

split_check : hpbi_str_split (codes "abcde") (pos 2) ≡ codes "ab" ∷ codes "cd" ∷ codes "e" ∷ []
unfolding hpbi_str_split
split_check = refl

distance_check : hpbi_levenshtein (codes "kitten") (codes "sitting") ≡ some 3
unfolding hpbi_levenshtein
distance_check = refl

explode_check :
    hpbi_explode (codes ", ") (codes "a, b,c, ") ≡ some (codes "a" ∷ codes "b,c" ∷ [] ∷ [])
unfolding hpbi_explode
explode_check = refl

hp_b64_decode-hp_b64_encode_example : hp_b64_decode (hp_b64_encode (codes "Hi!?")) ≡ codes "Hi!?"
hp_b64_decode-hp_b64_encode_example =
    hp_b64_decode-hp_b64_encode (codes "Hi!?")
      (omega arith, (omega arith, (omega arith, (omega arith, tt))))

hpbi_urldecode-hpbi_urlencode_example :
    hpbi_urldecode (hpbi_urlencode (codes "a b&c")) ≡ c_string (codes "a b&c")
hpbi_urldecode-hpbi_urlencode_example =
    hpbi_urldecode-hpbi_urlencode (codes "a b&c")
      (omega arith, (omega arith, (omega arith, (omega arith, (omega arith, tt)))))

hpbi_explode-Splits_example :
    Splits (codes ", ") (codes "a, b,c, ") (hpbi_explode (codes ", ") (codes "a, b,c, "))
hpbi_explode-Splits_example = hpbi_explode-Splits b',' (codes " ") (codes "a, b,c, ")

hpbi_levenshtein-distance_example :
    hpbi_levenshtein (codes "kitten") (codes "sitting")
    ≡ some (distance (reverse (codes "kitten")) (reverse (codes "sitting")))
hpbi_levenshtein-distance_example =
    hpbi_levenshtein-distance (codes "kitten") (codes "sitting") (omega arith)

wrap_check : hpbi_wordwrap (codes "one two three") 8 ≡ codes "one two" ++ b'\n' ∷ codes "three"
unfolding hpbi_wordwrap
wrap_check = refl

count_check : hpbi_substr_count (codes "aaaa") (codes "aa") ≡ 2
unfolding hpbi_substr_count
count_check = refl

same_buffers :
    (hp_ct_eq (codes "key") (codes "key") ≡ true) × (hp_ct_eq (codes "key") (codes "kez") ≡ false)
unfolding hp_ct_eq
same_buffers = (refl, refl)

wc_match-Matches_example :
    (wc_match (codes "*.h?") (codes "a.b.hp") ≡ true) ↔ Matches (codes "*.h?") (codes "a.b.hp")
wc_match-Matches_example = wc_match-Matches (codes "*.h?") (codes "a.b.hp")
