-- ===== src/Runtime/Std/Json/Plain.antt =====
-- The values that survive json_encode and json_decode of src/hphpc/runtime/hphp_std.c.
use holyphp.Prelude.{
  Bytes, [], all_bytes, ap, arith, false, length, refl, suc, true, ℕ, ◌+◌, ◌<◌, ◌==◌, ◌∷◌, ◌≡◌,
}
use holyphp.Package.Hpx.Text.{IsFree, all_head}
use holyphp.Runtime.Std.Json.{
  Fields, Items, Json, bool, dict, end, json_escape, field, float, index, int, is_number_byte,
  is_ws_json, item, list, name, none_left, null, other, same_key, set_field, str,
}
use holyphp.Runtime.Std.Json.Text.{IsInt64}

-- One field more at the end.
abbrev pub snoc : {D : Type 0} → Fields D → Bytes → Json D → Fields D
snoc end k v = field (name k) v end
snoc (field j w fs) k v = field j w (snoc fs k v)

abbrev pub Absent : {D : Type 0} → Bytes → Fields D → Type 0
Absent k end = Unit
Absent k (field j w fs) = (same_key j k ≡ false) × Absent k fs

pub set-Absent :
    {D : Type 0} (k : Bytes) (v : Json D) (fs : Fields D)
    → Absent k fs
    → set_field k v fs ≡ snoc fs k v
unfolding set_field
set-Absent k v end h = refl
set-Absent k v (field j w fs) (here, there) =
    rw here (ap (λ t. field j w t) (set-Absent k v fs there))

abbrev pub fields_append : {D : Type 0} → Fields D → Fields D → Fields D
fields_append end fs = fs
fields_append (field j w acc) fs = field j w (fields_append acc fs)

pub append_snoc :
    {D : Type 0} (acc : Fields D) (k : Bytes) (v : Json D) (fs : Fields D)
    → fields_append (snoc acc k v) fs ≡ fields_append acc (field (name k) v fs)
append_snoc end k v fs = refl
append_snoc (field j w acc) k v fs = ap (λ t. field j w t) (append_snoc acc k v fs)

pub append_end : {D : Type 0} (acc : Fields D) → fields_append acc end ≡ acc
append_end end = refl
append_end (field j w acc) = ap (λ t. field j w t) (append_end acc)

-- A key that is written as it is, and can be.
abbrev pub IsPlainKey : Bytes → Type 0
IsPlainKey k = (json_escape k ≡ k) × IsFree 0 k

-- Every key is plain and new to those in front of it.
abbrev pub HasKeys : {D : Type 0} → Fields D → Fields D → Type 0
HasKeys acc end = Unit
HasKeys acc (field (index i) v fs) = ⊥
HasKeys acc (field (name k) v fs) = IsPlainKey k × Absent k acc × HasKeys (snoc acc k v) fs

unfoldable mutual
  -- What survives the text: no double and no object, integers of 64 bits, strings without NUL, and
  -- maps whose keys are plain strings.
  pub IsPlain : {D : Type 0} → Json D → Type 0
  IsPlain null = Unit
  IsPlain (bool b) = Unit
  IsPlain (int i) = IsInt64 i
  IsPlain (float d) = ⊥
  IsPlain (str s) = IsFree 0 s
  IsPlain (list vs) = ArePlain vs
  IsPlain (dict fs) = HasKeys end fs × HavePlain fs
  IsPlain other = ⊥

  pub ArePlain : {D : Type 0} → Items D → Type 0
  ArePlain none_left = Unit
  ArePlain (item v vs) = IsPlain v × ArePlain vs

  pub HavePlain : {D : Type 0} → Fields D → Type 0
  HavePlain end = Unit
  HavePlain (field k v fs) = IsPlain v × HavePlain fs

unfoldable mutual
  -- The fuel that a value takes.
  pub size : {D : Type 0} → Json D → ℕ
  size (list vs) = suc (size_items vs)
  size (dict fs) = suc (size_fields fs)
  size v = 1

  pub size_items : {D : Type 0} → Items D → ℕ
  size_items none_left = 0
  size_items (item v vs) = suc (size v + size_items vs)

  pub size_fields : {D : Type 0} → Fields D → ℕ
  size_fields end = 0
  size_fields (field k v fs) = suc (size v + size_fields fs)

-- A text that begins with a byte that is no blank and closes nothing.
abbrev pub Begins : Bytes → Type 0
Begins s = (c : ℕ) × (t : Bytes) × (s ≡ c ∷ t) × (is_ws_json c ≡ false) × ((c == b']') ≡ false)

pub number-Begins : (s : Bytes) → all_bytes is_number_byte s ≡ true → 0 < length s → Begins s
number-Begins [] h p = absurd (omega arith)
number-Begins (c ∷ s) h p =
    let (here, there) = all_head is_number_byte c s h in
    (c, s, refl, ground (arith, here), ground (arith, here))
