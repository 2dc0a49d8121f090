-- ===== src/Runtime/Std/Json/Length.antt =====
-- The length of what hbuf_json_r of src/hphpc/runtime/hphp_std.c writes, and that it has no NUL.
use holyphp.Prelude.{
  Bytes, [], all_bytes, arith, false, length, length-append, not, refl, suc, true, ℕ, ◌++◌, ◌+◌,
  ◌<◌, ◌==◌, ◌^◌, ◌∷◌, ◌≡◌, ◌≤◌,
}
use holyphp.Prelude.Int.{negsuc, pos, ℤ}
use holyphp.Package.Hpx.{decimal}
use holyphp.Package.Hpx.Text.{IsFree, all_bytes-append, all_head, decimal-IsDecimal, digits-IsFree}
use holyphp.Runtime.Std.Json.{
  Fields, Items, Json, bool, dict, end, json_escape, field, fields_text, float, hbuf_json_r, index,
  int, int_text, item, items_text, key_text, list, more_fields, more_items, name, none_left, null,
  other, str,
}
use holyphp.Runtime.Std.Json.Text.{IsInt64, int_text-IsNumeral}
use holyphp.Runtime.Std.Json.Plain.{
  ArePlain, HasKeys, HavePlain, IsPlain, size, size_fields, size_items, snoc,
}

IsFree-one : (c : ℕ) (s : Bytes) → (c == 0) ≡ false → IsFree 0 s → IsFree 0 (c ∷ s)
unfolding all_bytes
IsFree-one c s h free = rw h free

escape-IsFree : (s : Bytes) → IsFree 0 s → IsFree 0 (json_escape s)
unfolding json_escape all_bytes
escape-IsFree [] h = refl
escape-IsFree (c ∷ s) h =
    let (here, there) = all_head (λ d. not (d == 0)) c s h in
    let ih = escape-IsFree s there in ground (arith, here, ih)

decimal-IsFree : (n : ℕ) → n < 2 ^ 64 → IsFree 0 (decimal n)
decimal-IsFree n h = let d = decimal-IsDecimal n h in digits-IsFree 0 (decimal n) refl d.0

int-IsFree : (i : ℤ) → IsInt64 i → IsFree 0 (int_text i)
unfolding int_text
int-IsFree (pos n) h = decimal-IsFree n (omega arith)
int-IsFree (negsuc n) h =
    IsFree-one b'-' (decimal (suc n)) refl (decimal-IsFree (suc n) (omega arith))

join-IsFree : (s t : Bytes) → IsFree 0 s → IsFree 0 t → IsFree 0 (s ++ t)
join-IsFree s t h g = all_bytes-append (λ d. not (d == 0)) s t h g

-- A key, its value and what follows them.
field-IsFree :
    (k x y : Bytes)
    → IsFree 0 k
    → IsFree 0 x
    → IsFree 0 y
    → IsFree 0 (((b'"' ∷ k) ++ (b'"' ∷ b':' ∷ x)) ++ y)
field-IsFree k x y hk hx hy =
    let value = IsFree-one b'"' (b':' ∷ x) refl (IsFree-one b':' x refl hx) in
    join-IsFree ((b'"' ∷ k) ++ (b'"' ∷ b':' ∷ x)) y
      (join-IsFree (b'"' ∷ k) (b'"' ∷ b':' ∷ x) (IsFree-one b'"' k refl hk) value) hy

field_length :
    (k x y : Bytes)
    → length (((b'"' ∷ k) ++ (b'"' ∷ b':' ∷ x)) ++ y) ≡ 3 + length k + length x + length y
field_length k x y = omega (
  arith,
  length-append ((b'"' ∷ k) ++ (b'"' ∷ b':' ∷ x)) y,
  length-append (b'"' ∷ k) (b'"' ∷ b':' ∷ x),
)

module _ {D : Type 0} (format : D → Bytes) where
  mutual
    unfolding hbuf_json_r items_text more_items fields_text more_fields key_text IsPlain ArePlain
        HavePlain all_bytes

    value-IsFree : (v : Json D) → IsPlain v → IsFree 0 (hbuf_json_r format v)
    value-IsFree null p = refl
    value-IsFree (bool true) p = refl
    value-IsFree (bool false) p = refl
    value-IsFree (int i) p = int-IsFree i p
    value-IsFree (float d) p = absurd p
    value-IsFree (str s) p =
        IsFree-one b'"' (json_escape s ++ b'"' ∷ []) refl
          (join-IsFree (json_escape s) (b'"' ∷ []) (escape-IsFree s p) refl)
    value-IsFree (list vs) p = IsFree-one b'[' (items_text format vs) refl (items-IsFree vs p)
    value-IsFree (dict fs) p =
        IsFree-one b'{' (fields_text format fs) refl (fields-IsFree fs end p.0 p.1)
    value-IsFree other p = absurd p

    items-IsFree : (vs : Items D) → ArePlain vs → IsFree 0 (items_text format vs)
    items-IsFree none_left p = refl
    items-IsFree (item v vs) p =
        join-IsFree (hbuf_json_r format v) (more_items format vs) (value-IsFree v p.0)
          (more-IsFree vs p.1)

    more-IsFree : (vs : Items D) → ArePlain vs → IsFree 0 (more_items format vs)
    more-IsFree none_left p = refl
    more-IsFree (item v vs) p =
        IsFree-one b',' (hbuf_json_r format v ++ more_items format vs) refl (
          join-IsFree (hbuf_json_r format v) (more_items format vs) (value-IsFree v p.0)
            (more-IsFree vs p.1))

    fields-IsFree :
        (fs acc : Fields D) → HasKeys acc fs → HavePlain fs → IsFree 0 (fields_text format fs)
    fields-IsFree end acc ks p = refl
    fields-IsFree (field (index i) v fs) acc ks p = absurd ks
    fields-IsFree (field (name k) v fs) acc (plain, absent, ks) p =
        field-IsFree k (hbuf_json_r format v) (more_fields format fs) plain.1 (value-IsFree v p.0)
          (more_fields-IsFree fs (snoc acc k v) ks p.1)

    more_fields-IsFree :
        (fs acc : Fields D) → HasKeys acc fs → HavePlain fs → IsFree 0 (more_fields format fs)
    more_fields-IsFree end acc ks p = refl
    more_fields-IsFree (field (index i) v fs) acc ks p = absurd ks
    more_fields-IsFree (field (name k) v fs) acc (plain, absent, ks) p =
        IsFree-one b',' (fields_text format (field (name k) v fs)) refl (
          field-IsFree k (hbuf_json_r format v) (more_fields format fs) plain.1 (value-IsFree v p.0)
            (more_fields-IsFree fs (snoc acc k v) ks p.1))

  pub text-IsFree : (v : Json D) → IsPlain v → IsFree 0 (hbuf_json_r format v)
  text-IsFree v p = value-IsFree v p

  mutual
    unfolding hbuf_json_r items_text more_items fields_text more_fields size size_items size_fields
        IsPlain ArePlain HavePlain

    value_length : (v : Json D) → IsPlain v → size v ≤ length (hbuf_json_r format v)
    value_length null p = omega arith
    value_length (bool true) p = omega arith
    value_length (bool false) p = omega arith
    value_length (int i) p =
        let (number, integral, positive, short, value) = int_text-IsNumeral i p in positive
    value_length (float d) p = absurd p
    value_length (str s) p = omega arith
    value_length (list none_left) p = omega arith
    value_length (list (item v vs)) p = omega (
      arith,
      value_length v p.0,
      more_length vs p.1,
      length-append (hbuf_json_r format v) (more_items format vs),
    )
    value_length (dict end) p = omega arith
    value_length (dict (field k v fs)) (ks, p) = omega (
      arith,
      value_length v p.0,
      more_fields-length fs p.1,
      field_length (key_text k) (hbuf_json_r format v) (more_fields format fs),
    )
    value_length other p = absurd p

    more_length : (vs : Items D) → ArePlain vs → size_items vs + 1 ≤ length (more_items format vs)
    more_length none_left p = omega arith
    more_length (item v vs) p = omega (
      arith,
      value_length v p.0,
      more_length vs p.1,
      length-append (hbuf_json_r format v) (more_items format vs),
    )

    more_fields-length :
        (fs : Fields D) → HavePlain fs → size_fields fs + 1 ≤ length (more_fields format fs)
    more_fields-length end p = omega arith
    more_fields-length (field k v fs) p = omega (
      arith,
      value_length v p.0,
      more_fields-length fs p.1,
      field_length (key_text k) (hbuf_json_r format v) (more_fields format fs),
    )

  pub text_length : (v : Json D) → IsPlain v → size v ≤ length (hbuf_json_r format v)
  text_length v p = value_length v p
