-- ===== src/Package/Manifest.antt =====
-- `pkg_name_ok`, `pkg_version_cmp`, `json_get_str` and `pkg_manifest_parse` of src/hphpc/pkgcore.c. A
-- text is what stands before its NUL. The version numbers are those that `sscanf` reads: it stops at the
-- first part that is no number, and the parts behind it are 0.
pub mod Valid
pub mod Order
pub mod Json
use holyphp.Prelude.{
  Bool, Bytes, List, Option, [], all_bytes, codes, drop, false, if◌then◌else◌, inl, inr, is_digit,
  is_lower, is_space, leb, length, min, none, not, replicate, skip_bytes, some, suc, take, true,
  zero, ℕ, ◌++◌, ◌+◌, ◌-◌, ◌==◌, ◌>>=◌, ◌^◌, ◌||◌, ◌∷◌, ◌⊎◌,
}
use holyphp.Prelude.Int.{ltb_ℤ, pos, sub_ℕ, ℤ}
use holyphp.Lexer.Number.{digits_value}
use holyphp.Runtime.Str.{Sign, index_from, less, more, same}
use holyphp.Runtime.Value.{eq_ℤ}

abbrev pub name_byte : ℕ → Bool
name_byte c = is_lower c || is_digit c || c == b'_'

-- A name that is missing is `none`.
unfoldable pub pkg_name_ok : Option Bytes → Bool
unfolding all_bytes
pkg_name_ok none = false
pkg_name_ok (some []) = false
pkg_name_ok (some (c ∷ s)) = all_bytes name_byte (c ∷ s)

abbrev pub is_blank_json : ℕ → Bool
is_blank_json c = c == b' ' || c == b':' || c == 9 || c == 10 || c == 13

-- The value of a JSON string behind its opening quote; it also ends where the text ends.
unfoldable pub json_string : Bytes → Bytes
json_string [] = []
json_string (c ∷ []) = if c == b'"' then [] else c ∷ []
json_string (c ∷ d ∷ s) =
    let escaped = d ∷ json_string s in
    let plain = c ∷ json_string (d ∷ s) in
    if c == b'"' then [] else if c == b'\\' then escaped else plain

abbrev pub opened : Bytes → Option Bytes
opened [] = none
opened (c ∷ s) = if c == b'"' then some s else none

abbrev pub quoted : Bytes → Bytes
quoted key = b'"' ∷ (key ++ b'"' ∷ [])

-- The first occurrence of the quoted key; a key of at most 61 bytes fits its buffer.
unfoldable pub json_get_str : Bytes → Bytes → Option Bytes
unfolding json_string skip_bytes index_from
json_get_str js key =
    index_from 0 js (quoted key)
    >>= (λ at_key. opened (skip_bytes is_blank_json (drop (at_key + length key + 2) js)))
    >>= (λ s. some (json_string s))

pub record PkgManifest : Type 0 where
  pub name : Bytes
  pub version : Bytes
  pub entry : Bytes
  pub desc : Bytes
  pub author : Bytes

-- Why `pkg_manifest_parse` ends the program.
pub data ManifestError : Type 0 where
  empty_manifest needs_name needs_version : ManifestError

abbrev pub or_else : Option Bytes → Bytes → Bytes
or_else none d = d
or_else (some s) d = s

abbrev pub is_empty : Option Bytes → Bool
is_empty none = true
is_empty (some []) = true
is_empty (some (c ∷ s)) = false

unfoldable pub manifest_of :
    (name version entry desc author : Option Bytes) → ManifestError ⊎ PkgManifest
unfolding pkg_name_ok
manifest_of name version entry desc author =
    if not (pkg_name_ok name)
    then inl needs_name
    else if is_empty version
    then inl needs_version
    else inr (record {
      name = or_else name [];
      version = or_else version [];
      entry = or_else entry (or_else name [] ++ codes ".hphp");
      desc = or_else desc [];
      author = or_else author [];
    })

unfoldable pub pkg_manifest_parse : Bytes → ManifestError ⊎ PkgManifest
unfolding json_get_str manifest_of
pkg_manifest_parse [] = inl empty_manifest
pkg_manifest_parse (c ∷ s) =
    let js = c ∷ s in
    manifest_of (json_get_str js (codes "name")) (json_get_str js (codes "version"))
      (json_get_str js (codes "entry")) (json_get_str js (codes "description"))
      (json_get_str js (codes "author"))

abbrev pub signed : Bool → Bytes → ℤ
unfolding digits_value
signed minus ds =
    let v = digits_value 10 0 ds in
    if minus then sub_ℕ 0 (min v (2 ^ 63)) else pos (min v (2 ^ 63 - 1))

-- `%ld` of `sscanf`: white space, a sign, and at least one digit. The value saturates.
unfoldable pub scan_digits : Bool → Bytes → Option (ℤ × Bytes)
unfolding skip_bytes digits_value
scan_digits minus s =
    let rest = skip_bytes is_digit s in
    if leb (length s) (length rest)
    then none
    else some (signed minus (take (length s - length rest) s), rest)

unfoldable pub scan_long : Bytes → Option (ℤ × Bytes)
unfolding scan_digits skip_bytes
scan_long s = elim (skip_bytes is_space s) [
  | [] ↦ none
  | c ∷ t ↦
      if c == b'-'
      then scan_digits true t
      else if c == b'+'
      then scan_digits false t
      else scan_digits false (c ∷ t)
]

-- `sscanf(s, "%ld.%ld.%ld", …)` into an array of `n` zeros.
unfoldable pub version_parts : ℕ → Bytes → List ℤ
unfolding scan_long
version_parts zero s = []
version_parts (suc n) s = elim (scan_long s) [
  | none ↦ replicate (suc n) (pos 0)
  | some (v, []) ↦ v ∷ replicate n (pos 0)
  | some (v, c ∷ t) ↦
      let rest = version_parts n t in v ∷ (if c == b'.' then rest else replicate n (pos 0))
]

-- The comparison of two versions of three numbers.
unfoldable pub compare_parts : List ℤ → List ℤ → Sign
compare_parts [] bs = same
compare_parts (a ∷ r) [] = same
compare_parts (a ∷ r) (b ∷ t) =
    let rest = compare_parts r t in if eq_ℤ a b then rest else if ltb_ℤ a b then less else more

unfoldable pub pkg_version_cmp : Bytes → Bytes → Sign
unfolding compare_parts version_parts
pkg_version_cmp a b = compare_parts (version_parts 3 a) (version_parts 3 b)
