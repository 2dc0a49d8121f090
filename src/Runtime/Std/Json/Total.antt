-- ===== src/Runtime/Std/Json/Total.antt =====
-- json_decode of src/hphpc/runtime/hphp_std.c ends on every text.
use native.Mathlib.Nat.{le_refl, le_trans}
use holyphp.Prelude.{
  Bool, Bytes, Option, [], arith, codes, false, if_lem, if◌then◌else◌, leb, length, length-drop,
  none, refl, skip_bytes, some, suc, true, zero, ℕ, ◌*◌, ◌+◌, ◌<◌, ◌==◌, ◌>>=◌, ◌∷◌, ◌≡◌, ◌≤◌,
}
use holyphp.Runtime.Std.Json.{
  Fields, Json, after_backslash, begins_with, end, hpbi_json_decode, at_text_end, is_number_byte,
  is_ws_json, jp_fields, jp_items, jp_number, jp_string, jp_value, jp_word, jp_ws, peek_byte,
  set_field, skip_byte, string_loop, take_bytes,
}

-- The reader has ended and left at most `n` bytes.
abbrev Ends : {A : Type 0} → ℕ → Option (A × Bytes) → Type 0
Ends n none = ⊥
Ends n (some (a, t)) = length t ≤ n

bind_ends :
    {A B : Type 0} (n k : ℕ) (o : Option (A × Bytes)) (f : A × Bytes → Option (B × Bytes))
    → Ends n o
    → ((r : A × Bytes) → length r.1 ≤ n → Ends k (f r))
    → Ends k (o >>= f)
bind_ends n k none f h g = absurd h
bind_ends n k (some (a, t)) f h g = g (a, t) h

shorter : {A : Type 0} (n k : ℕ) (o : Option (A × Bytes)) → n ≤ k → Ends n o → Ends k o
shorter n k none le h = h
shorter n k (some (a, t)) le h = le_trans h le

skip_le : (t : Bytes) → length (skip_byte t) ≤ length t
skip_le [] = omega arith
skip_le (c ∷ t) = omega arith

skip_bytes_le : (ok : ℕ → Bool) (t : Bytes) → length (skip_bytes ok t) ≤ length t
unfolding skip_bytes
skip_bytes_le ok [] = omega arith
skip_bytes_le ok (c ∷ t) =
    if_lem (λ (x : Bytes). length x ≤ length (c ∷ t)) (ok c)
      (λ _. omega (arith, skip_bytes_le ok t)) (λ _. le_refl (length (c ∷ t)))

ws_le : (t : Bytes) → length (jp_ws t) ≤ length t
unfolding jp_ws
ws_le t = skip_bytes_le is_ws_json t

-- A byte that is there is one byte less behind it.
skip_lt :
    (c : ℕ) (t : Bytes)
    → (c == 0) ≡ false
    → (peek_byte t == c) ≡ true
    → length (skip_byte t) < length t
skip_lt c [] h e = absurd (ground arith)
skip_lt c (b ∷ t) h e = omega arith

backslash_le : (t : Bytes) → length (after_backslash t).1 ≤ length t
unfolding after_backslash
backslash_le [] = omega arith
backslash_le (e ∷ t) =
    if_lem (λ (x : Bytes × Bytes). length x.1 ≤ length (e ∷ t)) (e == b'u')
      (λ _.
        if_lem (λ (x : Bytes × Bytes). length x.1 ≤ length (e ∷ t)) (leb 4 (length t))
          (λ _. omega (arith, length-drop 4 t)) (λ _. omega arith))
      (λ _. omega arith)

string_le : (fuel : ℕ) (t : Bytes) → length (string_loop fuel t).1 ≤ length t
unfolding string_loop
string_le zero t = le_refl (length t)
string_le (suc fuel) [] = omega arith
string_le (suc fuel) (c ∷ t) =
    let step = if c == 92 then after_backslash t else (c ∷ [], t) in
    let shorter : length step.1 ≤ length t =
      if_lem (λ (x : Bytes × Bytes). length x.1 ≤ length t) (c == 92) (λ _. backslash_le t)
        (λ _. le_refl (length t)) in
    if_lem (λ (x : Bytes × Bytes). length x.1 ≤ length (c ∷ t)) (c == b'"') (λ _. omega arith)
      (λ _. omega (arith, string_le fuel step.1))

jp_string_le : (t : Bytes) → length (jp_string t).1 ≤ length t
unfolding jp_string
jp_string_le t =
    if_lem (λ (x : Bytes × Bytes). length x.1 ≤ length t) (peek_byte t == b'"')
      (λ _. le_trans (string_le (length t) (skip_byte t)) (skip_le t)) (λ _. le_refl (length t))

module _ {D : Type 0} (strtod : Bytes → D) where
  word_le : (t : Bytes) → length (jp_word strtod t).1 ≤ length t
  unfolding jp_word jp_number
  word_le t =
      let P : Json D × Bytes → Type 0 = λ x. length x.1 ≤ length t in
      if_lem P (begins_with (codes "true") t) (λ _. omega (arith, length-drop 4 t))
        (λ _.
          if_lem P (begins_with (codes "false") t) (λ _. omega (arith, length-drop 5 t))
            (λ _.
              if_lem P (begins_with (codes "null") t) (λ _. omega (arith, length-drop 4 t))
                (λ _.
                  if_lem P (at_text_end (take_bytes is_number_byte t)) (λ _. skip_le t)
                    (λ _. skip_bytes_le is_number_byte t))))

  closing_le : (c : ℕ) (t : Bytes) → length (if peek_byte t == c then skip_byte t else t) ≤ length t
  closing_le c t =
      if_lem (λ (x : Bytes). length x ≤ length t) (peek_byte t == c) (λ _. skip_le t)
        (λ _. le_refl (length t))

  mutual
    unfolding jp_value jp_items jp_fields

    value_ends :
        (fuel : ℕ) (s : Bytes) → 2 * length s < fuel → Ends (length s) (jp_value strtod fuel s)
    value_ends zero s lt = absurd (omega arith)
    value_ends (suc fuel) s lt =
        let n = length s in
        let t = jp_ws s in
        let u = jp_ws (skip_byte t) in
        let within = ws_le s in
        let inner = le_trans (ws_le (skip_byte t)) (le_trans (skip_le t) within) in
        let past = le_trans (skip_le u) inner in
        if_lem (Ends n) (at_text_end t) (λ _. within)
          (λ _.
            if_lem (Ends n) (peek_byte t == b'{')
              (λ e.
                if_lem (Ends n) (peek_byte u == b'}') (λ _. past)
                  (λ _.
                    let less = skip_lt b'{' t refl e in
                    let shorter = ws_le (skip_byte t) in
                    bind_ends (length u) n (jp_fields strtod fuel end u) _
                      (fields_end fuel end u (omega arith)) (λ r le. le_trans le inner)))
              (λ _.
                if_lem (Ends n) (peek_byte t == b'[')
                  (λ e.
                    if_lem (Ends n) (peek_byte u == b']') (λ _. past)
                      (λ _.
                        let less = skip_lt b'[' t refl e in
                        let shorter = ws_le (skip_byte t) in
                        bind_ends (length u) n (jp_items strtod fuel u) _
                          (items_end fuel u (omega arith)) (λ r le. le_trans le inner)))
                  (λ _.
                    if_lem (Ends n) (peek_byte t == b'"') (λ _. le_trans (jp_string_le t) within)
                      (λ _. le_trans (word_le t) within))))

    items_end :
        (fuel : ℕ) (s : Bytes) → 2 * length s + 1 < fuel → Ends (length s) (jp_items strtod fuel s)
    items_end zero s lt = absurd (omega arith)
    items_end (suc fuel) s lt =
        bind_ends (length s) (length s) (jp_value strtod fuel s) _ (value_ends fuel s (omega arith))
          (λ r le.
            let t = jp_ws r.1 in
            let within = le_trans (ws_le r.1) le in
            if_lem (Ends (length s)) (peek_byte t == b',')
              (λ e.
                let less = skip_lt b',' t refl e in
                bind_ends (length (skip_byte t)) (length s) (jp_items strtod fuel (skip_byte t)) _
                  (items_end fuel (skip_byte t) (omega arith)) (λ q le'. omega arith))
              (λ _. le_trans (closing_le b']' t) within))

    fields_end :
        (fuel : ℕ) (fs : Fields D) (s : Bytes)
        → 2 * length s + 1 < fuel
        → Ends (length s) (jp_fields strtod fuel fs s)
    fields_end zero fs s lt = absurd (omega arith)
    fields_end (suc fuel) fs s lt =
        let k = jp_string (jp_ws s) in
        let v = jp_ws k.1 in
        let w = if peek_byte v == b':' then skip_byte v else v in
        let key = le_trans (jp_string_le (jp_ws s)) (ws_le s) in
        let value = le_trans (closing_le b':' v) (le_trans (ws_le k.1) key) in
        bind_ends (length w) (length s) (jp_value strtod fuel w) _ (value_ends fuel w (omega arith))
          (λ r le.
            let t = jp_ws r.1 in
            let within = le_trans (ws_le r.1) (le_trans le value) in
            if_lem (Ends (length s)) (peek_byte t == b',')
              (λ e.
                let less = skip_lt b',' t refl e in
                let read = fields_end fuel (set_field k.0 r.0 fs) (skip_byte t) (omega arith) in
                shorter (length (skip_byte t)) (length s) _ (omega arith) read)
              (λ _. le_trans (closing_le b'}' t) within))

  decoded :
      (n : ℕ) (o : Option (Json D × Bytes))
      → Ends n o
      → (v : Json D) × ((o >>= λ r. some r.0) ≡ some v)
  decoded n none h = absurd h
  decoded n (some (v, t)) h = (v, refl)

  -- json_decode gives a value for every text, well-formed or not.
  pub hpbi_json_decode_total : (s : Bytes) → (v : Json D) × (hpbi_json_decode strtod s ≡ some v)
  unfolding hpbi_json_decode
  hpbi_json_decode_total s =
      decoded (length s) (jp_value strtod (2 * length s + 2) s)
        (value_ends (2 * length s + 2) s (omega arith))
