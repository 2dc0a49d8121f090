-- ===== src/Runtime/Std/Json/RoundTrip.antt =====
-- json_decode of what json_encode writes, in src/hphpc/runtime/hphp_std.c.
use mathlib.Core.Path.{subst}
use holyphp.Prelude.{
  Bytes, [], ap, append-nil, append_assoc, arith, false, length, refl, skip_bytes, some, suc, sym,
  true, zero, ℕ, ◌*◌, ◌++◌, ◌+◌, ◌<◌, ◌==◌, ◌∙◌, ◌∷◌, ◌≡◌, ◌≤◌,
}
use holyphp.Package.Hpx.Text.{c_string_free}
use holyphp.Runtime.Std.Json.{
  Fields, Items, Json, bool, dict, end, json_escape, field, fields_text, float, hbuf_json_r,
  hpbi_json_decode, hpbi_json_encode, index, int, int_text, is_ws_json, item, items_text, jp_fields,
  jp_items, jp_value, key_text, list, more_fields, more_items, name, none_left, null, other,
  peek_byte, str,
}
use holyphp.Runtime.Std.Json.Text.{Stops, int_text-IsNumeral}
use holyphp.Runtime.Std.Json.Plain.{
  ArePlain, HasKeys, HavePlain, IsPlain, append_end, append_snoc, fields_append, set-Absent, size,
  size_fields, size_items, snoc,
}
use holyphp.Runtime.Std.Json.Length.{text-IsFree, text_length}
use holyphp.Runtime.Std.Json.Rounds.{
  dict_lem, int_lem, last_field, last_item, list_lem, next_field, next_item, no_blank, string_lem,
  text-Begins,
}

module _ {D : Type 0} (format : D → Bytes) (strtod : Bytes → D) where
  size_pos : (v : Json D) → 0 < size v
  unfolding size
  size_pos null = omega arith
  size_pos (list vs) = omega arith
  size_pos (dict fs) = omega arith
  size_pos v = omega arith

  regroup : (a b c d : Bytes) → ((a ++ b) ++ c) ++ d ≡ a ++ (b ++ (c ++ d))
  regroup a b c d = append_assoc (a ++ b) c d ∙ append_assoc a b (c ++ d)

  abbrev SomeItems : Items D → Type 0
  SomeItems none_left = ⊥
  SomeItems (item v vs) = Unit

  abbrev SomeFields : Fields D → Type 0
  SomeFields end = ⊥
  SomeFields (field k v fs) = Unit

  mutual
    unfolding hbuf_json_r items_text more_items fields_text more_fields key_text IsPlain ArePlain
        HavePlain size size_items size_fields jp_value

    value_lem :
        (v : Json D)
        → IsPlain v
        → (fuel : ℕ) (rest : Bytes) → size v ≤ fuel
        → Stops rest
        → jp_value strtod fuel (hbuf_json_r format v ++ rest) ≡ some (v, rest)
    value_lem v p zero rest le stop = absurd (omega (arith, size_pos v))
    value_lem null p (suc fuel) rest le stop = refl
    value_lem (bool true) p (suc fuel) rest le stop = refl
    value_lem (bool false) p (suc fuel) rest le stop = refl
    value_lem (int i) p (suc fuel) rest le stop =
        int_lem format strtod fuel i (int_text i) rest (int_text-IsNumeral i p) stop
    value_lem (float d) p (suc fuel) rest le stop = absurd p
    value_lem (str s) p (suc fuel) rest le stop =
        subst (λ x. jp_value strtod (suc fuel) x ≡ some (str s, rest))
          (sym (append_assoc (b'"' ∷ json_escape s) (b'"' ∷ []) rest))
          (string_lem format strtod fuel s rest)
    value_lem (list none_left) p (suc fuel) rest le stop = refl
    value_lem (list (item v vs)) p (suc fuel) rest le stop =
        let tail = more_items format vs ++ rest in
        let same = sym (append_assoc (hbuf_json_r format v) (more_items format vs) rest) in
        let (solid, opens) =
          no_blank format strtod (hbuf_json_r format v) tail (text-Begins format strtod v p.0) in
        let read = items_lem (item v vs) tt p fuel rest (omega arith) in
        list_lem format strtod fuel (items_text format (item v vs) ++ rest) rest (item v vs)
          (subst (λ x. skip_bytes is_ws_json x ≡ x) same solid)
          (subst (λ x. (peek_byte x == b']') ≡ false) same opens) read
    value_lem (dict end) p (suc fuel) rest le stop = refl
    value_lem (dict (field (index i) v fs)) p (suc fuel) rest le stop = absurd p.0
    value_lem (dict (field (name k) v fs)) p (suc fuel) rest le stop =
        dict_lem format strtod fuel _ rest (field (name k) v fs)
          (fields_lem (field (name k) v fs) end tt p.0 p.1 fuel rest (omega arith))
    value_lem other p (suc fuel) rest le stop = absurd p

    items_lem :
        (vs : Items D)
        → SomeItems vs
        → ArePlain vs
        → (fuel : ℕ) (rest : Bytes) → size_items vs ≤ fuel
        → jp_items strtod fuel (items_text format vs ++ rest) ≡ some (vs, rest)
    items_lem none_left h p fuel rest le = absurd h
    items_lem (item v vs) h p zero rest le = absurd (omega arith)
    items_lem (item v none_left) h p (suc fuel) rest le =
        last_item format strtod fuel (items_text format (item v none_left) ++ rest) rest v (
          subst (λ x. jp_value strtod fuel x ≡ some (v, b']' ∷ rest))
            (sym (append_assoc (hbuf_json_r format v) (b']' ∷ []) rest))
            (value_lem v p.0 fuel (b']' ∷ rest) (omega arith) refl))
    items_lem (item v (item w ws)) h p (suc fuel) rest le =
        let u = items_text format (item w ws) ++ rest in
        next_item format strtod fuel (items_text format (item v (item w ws)) ++ rest) u rest v
          (item w ws)
          (subst (λ x. jp_value strtod fuel x ≡ some (v, b',' ∷ u))
            (sym (append_assoc (hbuf_json_r format v) (more_items format (item w ws)) rest))
            (value_lem v p.0 fuel (b',' ∷ u) (omega arith) refl))
          (items_lem (item w ws) tt p.1 fuel rest (omega arith))

    fields_lem :
        (fs : Fields D) (acc : Fields D)
        → SomeFields fs
        → HasKeys acc fs
        → HavePlain fs
        → (fuel : ℕ) (rest : Bytes) → size_fields fs ≤ fuel
        → jp_fields strtod fuel acc (fields_text format fs ++ rest)
          ≡ some (fields_append acc fs, rest)
    fields_lem end acc h ks p fuel rest le = absurd h
    fields_lem (field (index i) v fs) acc h ks p fuel rest le = absurd ks
    fields_lem (field (name k) v fs) acc h ks p zero rest le = absurd (omega arith)
    fields_lem (field (name k) v end) acc h (plain, absent, ks) p (suc fuel) rest le =
        let s = hbuf_json_r format v ++ b'}' ∷ rest in
        subst
          (λ x.
            jp_fields strtod (suc fuel) acc x
            ≡ some (fields_append acc (field (name k) v end), rest))
          (sym (regroup (b'"' ∷ k) (b'"' ∷ b':' ∷ hbuf_json_r format v) (b'}' ∷ []) rest))
          (last_field format strtod fuel acc k s rest v plain.0
              (value_lem v p.0 fuel (b'}' ∷ rest) (omega arith) refl)
            ∙ ap (λ t. some (t, rest))
                (set-Absent k v acc absent
                  ∙ sym (append_end (snoc acc k v))
                  ∙ append_snoc acc k v end))
    fields_lem (field (name k) v (field j w fs)) acc h (plain, absent, ks) p (suc fuel) rest le =
        let others = field j w fs in
        let u = fields_text format others ++ rest in
        let s = hbuf_json_r format v ++ b',' ∷ u in
        let ih = fields_lem others (snoc acc k v) tt ks p.1 fuel rest (omega arith) in
        subst
          (λ x.
            jp_fields strtod (suc fuel) acc x
            ≡ some (fields_append acc (field (name k) v others), rest))
          (sym (
            regroup (b'"' ∷ k) (b'"' ∷ b':' ∷ hbuf_json_r format v) (more_fields format others)
              rest))
          (next_field format strtod fuel acc (fields_append (snoc acc k v) others) k s u rest v
              plain.0 (value_lem v p.0 fuel (b',' ∷ u) (omega arith) refl)
              (subst
                (λ t. jp_fields strtod fuel t u ≡ some (fields_append (snoc acc k v) others, rest))
                (sym (set-Absent k v acc absent)) ih)
            ∙ ap (λ t. some (t, rest)) (append_snoc acc k v others))

  -- json_decode reads back what json_encode wrote.
  pub hpbi_json_decode-hpbi_json_encode :
      (v : Json D) → IsPlain v → hpbi_json_decode strtod (hpbi_json_encode format v) ≡ some v
  unfolding hpbi_json_decode hpbi_json_encode
  hpbi_json_decode-hpbi_json_encode v p =
      let text = hbuf_json_r format v in
      let whole = c_string_free text (text-IsFree format v p) in
      let enough = text_length format v p in
      let read = value_lem v p (2 * length text + 2) [] (omega arith) refl in
      let bare =
        subst (λ x. jp_value strtod (2 * length text + 2) x ≡ some (v, [])) (append-nil text)
          read in
      rw (whole, bare) refl
