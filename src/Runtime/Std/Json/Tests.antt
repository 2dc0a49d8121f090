-- ===== src/Runtime/Std/Json/Tests.antt =====
-- Runs and examples of the JSON functions of src/hphpc/runtime/hphp_std.c.
use holyphp.Prelude.{Bytes, [], all_bytes, arith, bytes_eq, codes, refl, some, true, ◌∷◌, ◌≡◌}
use holyphp.Prelude.Int.{negsuc, pos}
use holyphp.Runtime.Std.Json.{
  Json, bool, dict, end, json_escape, field, fields_text, float, hbuf_json_r, hpbi_json_decode,
  hpbi_json_encode, int, item, items_text, jp_fields, jp_items, jp_value, key_text, list,
  more_fields, more_items, name, none_left, null, str,
}
use holyphp.Runtime.Std.Json.Plain.{ArePlain, HavePlain, IsPlain}
use holyphp.Runtime.Std.Json.RoundTrip.{hpbi_json_decode-hpbi_json_encode}
use holyphp.Runtime.Std.Json.Total.{hpbi_json_decode_total}

-- Doubles are their text.
abbrev as_text : Bytes → Bytes
as_text s = s

abbrev pair : Json Bytes
pair = dict (
    field (name (codes "a"))
      (list (item (int (pos 1)) (item (int (negsuc 19)) (item (bool true) none_left))))
      (field (name (codes "b")) (str (b'x' ∷ b'"' ∷ 10 ∷ [])) end))

pair_text : hpbi_json_encode as_text pair ≡ codes "{\"a\":[1,-20,true],\"b\":\"x\\\"\\n\"}"
unfolding hpbi_json_encode hbuf_json_r items_text more_items fields_text more_fields key_text
pair_text = refl

spaces_read :
    hpbi_json_decode as_text (codes " { \"k\" : [ ] , \"k\" : 1.5 } x")
    ≡ some (dict (field (name (codes "k")) (float (codes "1.5")) end))
unfolding hpbi_json_decode jp_value jp_items jp_fields
spaces_read = refl

code_point_read :
    hpbi_json_decode as_text (codes "\"\\u00e9\\u20ac\"")
    ≡ some (str (0xC3 ∷ 0xA9 ∷ 0xE2 ∷ 0x82 ∷ 0xAC ∷ []))
unfolding hpbi_json_decode jp_value
code_point_read = refl

-- A quote in a key is not escaped, so the text does not read back.
key_not_escaped :
    hpbi_json_encode as_text (dict (field (name (b'"' ∷ [])) null end)) ≡ codes "{\"\"\":null}"
unfolding hpbi_json_encode hbuf_json_r fields_text more_fields key_text
key_not_escaped = refl

pair-IsPlain : IsPlain pair
unfolding IsPlain ArePlain HavePlain json_escape all_bytes bytes_eq
pair-IsPlain = (
  ((refl, refl), tt, ((refl, refl), (refl, tt), tt)),
  ((omega arith, (omega arith, (tt, tt))), (refl, tt)),
)

hpbi_json_decode-hpbi_json_encode_example :
    hpbi_json_decode as_text (hpbi_json_encode as_text pair) ≡ some pair
hpbi_json_decode-hpbi_json_encode_example =
    hpbi_json_decode-hpbi_json_encode as_text as_text pair pair-IsPlain

hpbi_json_decode_total_example :
    (v : Json Bytes) × (hpbi_json_decode as_text (codes "{\"a\":[1,]") ≡ some v)
hpbi_json_decode_total_example = hpbi_json_decode_total as_text (codes "{\"a\":[1,]")
