-- ===== src/Runtime/Std/Json.antt =====
-- json_encode and json_decode of src/hphpc/runtime/hphp_std.c. A value is a tree: arrays are read
-- through their addresses, and one that contains itself is left out. A double and its "%g" and strtod
-- are parameters. hp_arr_set on the map of an object is `set_field`. The length that jp_string hands to
-- hp_str_new is read before hbuf_take clears it: C leaves that order open.
pub mod Text
pub mod Plain
mod Rounds
pub mod Length
pub mod RoundTrip
pub mod Total
mod Tests
use holyphp.Prelude.{
  Bool, Bytes, Option, [], bytes_eq, codes, drop, false, if◌then◌else◌, is_digit, leb, length, ltb,
  min, none, skip_bytes, some, suc, take, true, zero, ℕ, ◌%◌, ◌&&◌, ◌*◌, ◌++◌, ◌+◌, ◌-◌, ◌/◌, ◌==◌,
  ◌>>=◌, ◌^◌, ◌||◌, ◌∷◌,
}
use holyphp.Prelude.Int.{negsuc, pos, ℤ}
use Prim.Native.Nat.{bit_or}
use holyphp.Lexer.Number.{digits_value}
use holyphp.Lexer.Cursor.{c_string, left}
use holyphp.Package.Hpx.{decimal}

-- A key of a map.
pub data Key : Type 0 where
  name : Bytes → Key
  index : ℤ → Key

mutual
  pub data Json (D : Type 0) : Type 0 where
    null : Json D
    bool : Bool → Json D
    int : ℤ → Json D
    float : D → Json D
    str : Bytes → Json D
    list : Items D → Json D
    dict : Fields D → Json D
    other : Json D

  pub data Items (D : Type 0) : Type 0 where
    none_left : Items D
    item : Json D → Items D → Items D

  pub data Fields (D : Type 0) : Type 0 where
    end : Fields D
    field : Key → Json D → Fields D → Fields D

-- "%lld"
unfoldable pub int_text : ℤ → Bytes
unfolding decimal
int_text (pos n) = decimal n
int_text (negsuc n) = b'-' ∷ decimal (suc n)

unfoldable pub json_escape : Bytes → Bytes
json_escape [] = []
json_escape (c ∷ s) =
    let rest = json_escape s in
    if c == b'"' || c == 92
    then 92 ∷ c ∷ rest
    else if c == 10
    then 92 ∷ b'n' ∷ rest
    else if c == 9
    then 92 ∷ b't' ∷ rest
    else c ∷ rest

-- hp_val_to_str of a key.
unfoldable pub key_text : Key → Bytes
unfolding int_text
key_text (name s) = s
key_text (index i) = int_text i

module _ {D : Type 0} (format : D → Bytes) where
  unfoldable mutual
    unfolding int_text json_escape key_text

    pub hbuf_json_r : Json D → Bytes
    hbuf_json_r null = codes "null"
    hbuf_json_r (bool true) = codes "true"
    hbuf_json_r (bool false) = codes "false"
    hbuf_json_r (int i) = int_text i
    hbuf_json_r (float d) = format d
    hbuf_json_r (str s) = b'"' ∷ json_escape s ++ b'"' ∷ []
    hbuf_json_r (list vs) = b'[' ∷ items_text vs
    hbuf_json_r (dict fs) = b'{' ∷ fields_text fs
    hbuf_json_r other = codes "null"

    -- The elements and the bracket behind them; `more` begins with the comma.
    pub items_text : Items D → Bytes
    items_text none_left = b']' ∷ []
    items_text (item v vs) = hbuf_json_r v ++ more_items vs

    pub more_items : Items D → Bytes
    more_items none_left = b']' ∷ []
    more_items (item v vs) = b',' ∷ hbuf_json_r v ++ more_items vs

    pub fields_text : Fields D → Bytes
    fields_text end = b'}' ∷ []
    fields_text (field k v fs) = b'"' ∷ key_text k ++ b'"' ∷ b':' ∷ hbuf_json_r v ++ more_fields fs

    pub more_fields : Fields D → Bytes
    more_fields end = b'}' ∷ []
    more_fields (field k v fs) =
        b',' ∷ b'"' ∷ key_text k ++ b'"' ∷ b':' ∷ hbuf_json_r v ++ more_fields fs

  -- hp_str_lit ends at the first NUL.
  unfoldable pub hpbi_json_encode : Json D → Bytes
  unfolding c_string
  hpbi_json_encode v = c_string (hbuf_json_r v)

abbrev pub is_ws_json : ℕ → Bool
is_ws_json c = c == 32 || c == 9 || c == 10 || c == 13

unfoldable pub jp_ws : Bytes → Bytes
unfolding skip_bytes
jp_ws = skip_bytes is_ws_json

abbrev pub peek_byte : Bytes → ℕ
peek_byte [] = 0
peek_byte (c ∷ s) = c

abbrev pub at_text_end : Bytes → Bool
at_text_end [] = true
at_text_end (c ∷ s) = false

abbrev pub skip_byte : Bytes → Bytes
skip_byte [] = []
skip_byte (c ∷ s) = s

-- (unsigned)(h - 'A' + 10) for a char with a sign.
abbrev hex_unit : ℕ → ℕ
hex_unit h =
    if is_digit h
    then h - b'0'
    else if leb b'a' h && leb h b'f'
    then h - b'a' + 10
    else (h + (if ltb h 128 then 0 else 2 ^ 32 - 256) + 2 ^ 32 - 55) % 2 ^ 32

unfoldable pub hex_value : ℕ → ℕ → Bytes → ℕ
hex_value zero cp t = cp
hex_value (suc k) cp [] = cp
hex_value (suc k) cp (h ∷ t) = hex_value k ((cp * 16 + hex_unit h) % 2 ^ 32) t

-- The bytes of a code point of the basic plane.
unfoldable pub utf8 : ℕ → Bytes
utf8 cp =
    if ltb cp 0x80
    then cp ∷ []
    else if ltb cp 0x800
    then (0xC0 + cp / 64) ∷ (0x80 + cp % 64) ∷ []
    else (bit_or 0xE0 (cp / 4096) % 256) ∷ (0x80 + cp / 64 % 64) ∷ (0x80 + cp % 64) ∷ []

abbrev pub unescaped : ℕ → ℕ
unescaped e =
    if e == b'n'
    then 10
    else if e == b't'
    then 9
    else if e == b'r'
    then 13
    else if e == b'b'
    then 8
    else if e == b'f'
    then 12
    else e

-- What an json_escape puts out, and what is left behind it.
unfoldable pub after_backslash : Bytes → Bytes × Bytes
unfolding hex_value utf8
after_backslash [] = (92 ∷ [], [])
after_backslash (e ∷ t) =
    if e == b'u'
    then (if leb 4 (length t) then (utf8 (hex_value 4 0 t), drop 4 t) else ([], t))
    else (unescaped e ∷ [], t)

-- The loop of jp_string, behind the first quote; `fuel` is the length of what is left.
unfoldable pub string_loop : ℕ → Bytes → Bytes × Bytes
unfolding after_backslash
string_loop zero t = ([], t)
string_loop (suc fuel) [] = ([], [])
string_loop (suc fuel) (c ∷ t) =
    let (out, left) = if c == 92 then after_backslash t else (c ∷ [], t) in
    let (s, rest) = string_loop fuel left in if c == b'"' then ([], t) else (out ++ s, rest)

unfoldable pub jp_string : Bytes → Bytes × Bytes
unfolding string_loop
jp_string t = if peek_byte t == b'"' then string_loop (length t) (skip_byte t) else ([], t)

abbrev pub same_key : Key → Bytes → Bool
same_key (name s) t = bytes_eq s t
same_key (index i) t = false

unfoldable pub set_field : {D : Type 0} → Bytes → Json D → Fields D → Fields D
unfolding bytes_eq
set_field k v end = field (name k) v end
set_field k v (field j w fs) =
    let rest = set_field k v fs in if same_key j k then field j v fs else field j w rest

abbrev pub is_number_byte : ℕ → Bool
is_number_byte d = is_digit d || d == b'-' || d == b'+' || d == b'.' || d == b'e' || d == b'E'

abbrev pub marks_float : ℕ → Bool
marks_float d = d == b'.' || d == b'e' || d == b'E'

abbrev pub any_byte : (ℕ → Bool) → Bytes → Bool
any_byte ok [] = false
any_byte ok (c ∷ s) = ok c || any_byte ok s

unfoldable pub take_bytes : (ℕ → Bool) → Bytes → Bytes
take_bytes ok [] = []
take_bytes ok (c ∷ s) = let more = take_bytes ok s in if ok c then c ∷ more else []

abbrev pub negative : ℕ → ℤ
negative zero = pos 0
negative (suc n) = negsuc n

-- strtoll in base 10, on text without a blank in front.
unfoldable pub signed_decimal : Bytes → ℤ
unfolding take_bytes digits_value
signed_decimal s =
    let digits =
      take_bytes is_digit (if peek_byte s == b'-' || peek_byte s == b'+' then skip_byte s else s) in
    let n = digits_value 10 0 digits in
    if peek_byte s == b'-' then negative (min n (2 ^ 63)) else pos (min n (2 ^ 63 - 1))

abbrev pub begins_with : Bytes → Bytes → Bool
begins_with word t = bytes_eq (take (length word) t) word

module _ {D : Type 0} (strtod : Bytes → D) where
  -- A number, or one byte that is skipped.
  unfoldable pub jp_number : Bytes → Json D × Bytes
  unfolding take_bytes skip_bytes signed_decimal
  jp_number t =
      let text = take_bytes is_number_byte t in
      let short = take 63 text in
      let value =
        if any_byte marks_float text then float (strtod short) else int (signed_decimal short) in
      if at_text_end text then (null, skip_byte t) else (value, skip_bytes is_number_byte t)

  unfoldable pub jp_word : Bytes → Json D × Bytes
  unfolding jp_number bytes_eq
  jp_word t =
      if begins_with (codes "true") t
      then (bool true, drop 4 t)
      else if begins_with (codes "false") t
      then (bool false, drop 5 t)
      else if begins_with (codes "null") t
      then (null, drop 4 t)
      else jp_number t

  abbrev pub map_value : Fields D × Bytes → Json D × Bytes
  map_value (fs, t) = (dict fs, t)

  abbrev pub list_value : Items D × Bytes → Json D × Bytes
  list_value (vs, t) = (list vs, t)

  abbrev pub string_value : Bytes × Bytes → Json D × Bytes
  string_value (s, t) = (str s, t)

  abbrev pub with_item : Json D → Items D × Bytes → Items D × Bytes
  with_item v (vs, t) = (item v vs, t)

  -- `none` is a call without fuel.
  unfoldable mutual
    unfolding jp_ws jp_string jp_word set_field

    pub jp_value : ℕ → Bytes → Option (Json D × Bytes)
    jp_value zero s = none
    jp_value (suc fuel) s =
        let t = jp_ws s in
        let u = jp_ws (skip_byte t) in
        let fields = jp_fields fuel end u >>= λ r. some (map_value r) in
        let items = jp_items fuel u >>= λ r. some (list_value r) in
        let c = peek_byte t in
        if at_text_end t
        then some (null, t)
        else if c == b'{'
        then (if peek_byte u == b'}' then some (dict end, skip_byte u) else fields)
        else if c == b'['
        then (if peek_byte u == b']' then some (list none_left, skip_byte u) else items)
        else if c == b'"'
        then some (string_value (jp_string t))
        else some (jp_word t)

    pub jp_items : ℕ → Bytes → Option (Items D × Bytes)
    jp_items zero s = none
    jp_items (suc fuel) s = jp_value fuel s >>= λ r.
        let t = jp_ws r.1 in
        let rest = jp_items fuel (skip_byte t) >>= λ q. some (with_item r.0 q) in
        let left = if peek_byte t == b']' then skip_byte t else t in
        if peek_byte t == b',' then rest else some (item r.0 none_left, left)

    pub jp_fields : ℕ → Fields D → Bytes → Option (Fields D × Bytes)
    jp_fields zero fs s = none
    jp_fields (suc fuel) fs s =
        let (k, u) = jp_string (jp_ws s) in
        let v = jp_ws u in
        jp_value fuel (if peek_byte v == b':' then skip_byte v else v) >>= λ r.
        let t = jp_ws r.1 in
        let fs' = set_field k r.0 fs in
        let rest = jp_fields fuel fs' (skip_byte t) in
        let left = if peek_byte t == b'}' then skip_byte t else t in
        if peek_byte t == b',' then rest else some (fs', left)

  unfoldable pub hpbi_json_decode : Bytes → Option (Json D)
  unfolding jp_value
  hpbi_json_decode s = jp_value (2 * length s + 2) s >>= λ r. some r.0
