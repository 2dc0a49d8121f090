-- ===== src/Runtime/Std/Json/Rounds.antt =====
-- The cases of jp_value and the rounds of its loops, in src/hphpc/runtime/hphp_std.c, on text that
-- hbuf_json_r writes.
use mathlib.Core.Path.{subst}
use holyphp.Prelude.{
  Bytes, [], ap, arith, codes, false, refl, skip_bytes, some, suc, true, ℕ, ◌++◌, ◌==◌, ◌∙◌, ◌∷◌,
  ◌≡◌,
}
use holyphp.Prelude.Int.{ℤ}
use holyphp.Package.Hpx.Text.{all_head}
use holyphp.Runtime.Std.Json.{
  Fields, Items, Json, bool, dict, end, json_escape, fields_text, float, hbuf_json_r, int, int_text,
  is_number_byte, is_ws_json, item, items_text, jp_fields, jp_items, jp_number, jp_string, jp_value,
  jp_word, list, none_left, null, other, peek_byte, set_field, str,
}
use holyphp.Runtime.Std.Json.Text.{
  IsNumeral, Stops, int_text-IsNumeral, jp_number_lem, jp_string-json_escape,
}
use holyphp.Runtime.Std.Json.Plain.{Begins, IsPlain, number-Begins}

module _ {D : Type 0} (format : D → Bytes) (strtod : Bytes → D) where
  pub text-Begins : (v : Json D) → IsPlain v → Begins (hbuf_json_r format v)
  unfolding hbuf_json_r IsPlain
  text-Begins null p = (b'n', codes "ull", refl, refl, refl)
  text-Begins (bool true) p = (b't', codes "rue", refl, refl, refl)
  text-Begins (bool false) p = (b'f', codes "alse", refl, refl, refl)
  text-Begins (int i) p =
      let (number, integral, positive, short, value) = int_text-IsNumeral i p in
      number-Begins (int_text i) number positive
  text-Begins (float d) p = absurd p
  text-Begins (str s) p = (b'"', json_escape s ++ b'"' ∷ [], refl, refl, refl)
  text-Begins (list vs) p = (b'[', items_text format vs, refl, refl, refl)
  text-Begins (dict fs) p = (b'{', fields_text format fs, refl, refl, refl)
  text-Begins other p = absurd p

  pub no_blank :
      (s rest : Bytes)
      → Begins s
      → (skip_bytes is_ws_json (s ++ rest) ≡ s ++ rest) × ((peek_byte (s ++ rest) == b']') ≡ false)
  unfolding skip_bytes
  no_blank s rest (c, t, same, solid, closes) = rw (same, solid) (refl, closes)

  -- The cases of jp_value, by the byte in front.
  word_lem :
      (fuel : ℕ) (s rest : Bytes) (r : Json D × Bytes)
      → jp_word strtod s ≡ r
      → (c : ℕ) (t : Bytes) → s ≡ c ∷ t
      → is_ws_json c ≡ false
      → ((c == b'{') ≡ false) × ((c == b'[') ≡ false) × ((c == b'"') ≡ false)
      → jp_value strtod (suc fuel) s ≡ some r
  unfolding jp_value skip_bytes
  word_lem fuel s rest r h c t same solid (brace, bracket, quote) =
      let h' = subst (λ x. jp_word strtod x ≡ r) same h in
      rw (same, solid, brace, bracket, quote) (ap some h')

  number_word :
      (c : ℕ) (t : Bytes)
      → is_number_byte c ≡ true
      → jp_word strtod (c ∷ t) ≡ jp_number strtod (c ∷ t)
  unfolding jp_word
  number_word c t h =
      let one : (c == b't') ≡ false = ground (arith, h) in
      let two : (c == b'f') ≡ false = ground (arith, h) in
      let three : (c == b'n') ≡ false = ground (arith, h) in rw (one, two, three) refl

  pub int_lem :
      (fuel : ℕ) (i : ℤ) (s rest : Bytes)
      → IsNumeral i s
      → Stops rest
      → jp_value strtod (suc fuel) (s ++ rest) ≡ some (int i, rest)
  int_lem fuel i [] rest (number, integral, positive, short, value) stop = absurd (omega arith)
  int_lem fuel i (c ∷ s) rest n stop =
      let (here, there) = all_head is_number_byte c s n.0 in
      word_lem fuel (c ∷ s ++ rest) rest (int i, rest)
        (number_word c (s ++ rest) here ∙ jp_number_lem strtod i (c ∷ s) rest n stop) c (s ++ rest)
        refl (ground (arith, here))
        (ground (arith, here), ground (arith, here), ground (arith, here))

  pub string_lem :
      (fuel : ℕ) (s rest : Bytes)
      → jp_value strtod (suc fuel) (b'"' ∷ json_escape s ++ b'"' ∷ rest) ≡ some (str s, rest)
  unfolding jp_value
  string_lem fuel s rest = rw (jp_string-json_escape s rest) refl

  pub list_lem :
      (fuel : ℕ) (s rest : Bytes) (vs : Items D)
      → skip_bytes is_ws_json s ≡ s
      → (peek_byte s == b']') ≡ false
      → jp_items strtod fuel s ≡ some (vs, rest)
      → jp_value strtod (suc fuel) (b'[' ∷ s) ≡ some (list vs, rest)
  unfolding jp_value jp_items
  list_lem fuel s rest vs solid open_ h = rw (solid, open_, h) refl

  -- A round of the loop over a list, at its end and in front of a comma.
  pub last_item :
      (fuel : ℕ) (s rest : Bytes) (v : Json D)
      → jp_value strtod fuel s ≡ some (v, b']' ∷ rest)
      → jp_items strtod (suc fuel) s ≡ some (item v none_left, rest)
  unfolding jp_items
  last_item fuel s rest v h = rw h refl

  pub next_item :
      (fuel : ℕ) (s u rest : Bytes) (v : Json D) (vs : Items D)
      → jp_value strtod fuel s ≡ some (v, b',' ∷ u)
      → jp_items strtod fuel u ≡ some (vs, rest)
      → jp_items strtod (suc fuel) s ≡ some (item v vs, rest)
  unfolding jp_items
  next_item fuel s u rest v vs h g = rw (h, g) refl

  pub dict_lem :
      (fuel : ℕ) (s rest : Bytes) (fs : Fields D)
      → jp_fields strtod fuel end (b'"' ∷ s) ≡ some (fs, rest)
      → jp_value strtod (suc fuel) (b'{' ∷ b'"' ∷ s) ≡ some (dict fs, rest)
  unfolding jp_value jp_fields
  dict_lem fuel s rest fs h = rw h refl

  -- A round of the loop over an object, at its end and in front of a comma.
  pub last_field :
      (fuel : ℕ) (acc : Fields D) (k s rest : Bytes) (v : Json D)
      → json_escape k ≡ k
      → jp_value strtod fuel s ≡ some (v, b'}' ∷ rest)
      → jp_fields strtod (suc fuel) acc (b'"' ∷ k ++ b'"' ∷ b':' ∷ s)
        ≡ some (set_field k v acc, rest)
  unfolding jp_fields
  last_field fuel acc k s rest v plain h =
      let key : jp_string (b'"' ∷ k ++ b'"' ∷ b':' ∷ s) ≡ (k, b':' ∷ s) =
        subst (λ t. jp_string (b'"' ∷ t ++ b'"' ∷ b':' ∷ s) ≡ (k, b':' ∷ s)) plain
          (jp_string-json_escape k (b':' ∷ s)) in
      rw (key, h) refl

  pub next_field :
      (fuel : ℕ) (acc fs : Fields D) (k s u rest : Bytes) (v : Json D)
      → json_escape k ≡ k
      → jp_value strtod fuel s ≡ some (v, b',' ∷ u)
      → jp_fields strtod fuel (set_field k v acc) u ≡ some (fs, rest)
      → jp_fields strtod (suc fuel) acc (b'"' ∷ k ++ b'"' ∷ b':' ∷ s) ≡ some (fs, rest)
  unfolding jp_fields
  next_field fuel acc fs k s u rest v plain h g =
      let key : jp_string (b'"' ∷ k ++ b'"' ∷ b':' ∷ s) ≡ (k, b':' ∷ s) =
        subst (λ t. jp_string (b'"' ∷ t ++ b'"' ∷ b':' ∷ s) ≡ (k, b':' ∷ s)) plain
          (jp_string-json_escape k (b':' ∷ s)) in
      rw (key, h, g) refl
