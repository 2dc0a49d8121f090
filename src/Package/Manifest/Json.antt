-- ===== src/Package/Manifest/Json.antt =====
-- `json_get_str` of src/hphpc/pkgcore.c on strings that were written with escapes.
use holyphp.Prelude.{
  Bool-cases, Bytes, [], ap, arith, codes, false, if◌then◌else◌, inl, inr, refl, some, ℕ, ◌++◌,
  ◌==◌, ◌||◌, ◌∙◌, ◌∷◌, ◌≡◌,
}
use holyphp.Package.Manifest.{json_get_str, json_string}

-- A string in JSON: a backslash before each quote and each backslash.
abbrev pub escape : Bytes → Bytes
escape [] = []
escape (c ∷ s) = if c == b'"' || c == b'\\' then b'\\' ∷ c ∷ escape s else c ∷ escape s

json_end : (rest : Bytes) → json_string (b'"' ∷ rest) ≡ []
unfolding json_string
json_end [] = refl
json_end (d ∷ s) = refl

json_plain :
    (c : ℕ) (s : Bytes)
    → (c == b'"') ≡ false
    → (c == b'\\') ≡ false
    → json_string (c ∷ s) ≡ c ∷ json_string s
unfolding json_string
json_plain c [] h g = rw h refl
json_plain c (d ∷ s) h g = rw (h, g) refl

json_escaped : (c : ℕ) (s : Bytes) → json_string (b'\\' ∷ c ∷ s) ≡ c ∷ json_string s
unfolding json_string
json_escaped c s = refl

pub json_string-escape : (s rest : Bytes) → json_string (escape s ++ b'"' ∷ rest) ≡ s
json_string-escape [] rest = json_end rest
json_string-escape (c ∷ s) rest = elim (Bool-cases (c == b'"' || c == b'\\')) [
  | inl e ↦
      rw e (json_escaped c (escape s ++ b'"' ∷ rest) ∙ ap (λ t. c ∷ t) (json_string-escape s rest))
  | inr e ↦
      let no_quote : (c == b'"') ≡ false = ground arith in
      let no_slash : (c == b'\\') ≡ false = ground arith in
      rw e (
        json_plain c (escape s ++ b'"' ∷ rest) no_quote no_slash
        ∙ ap (λ t. c ∷ t) (json_string-escape s rest))
]

-- In an object that begins with the key `name`, `json_get_str` reads back the string that stands there
-- with escapes, whatever the string is and whatever follows it.
pub json_get_str-escape :
    (s rest : Bytes)
    → json_get_str (codes "{\"name\": \"" ++ (escape s ++ b'"' ∷ rest)) (codes "name") ≡ some s
unfolding json_get_str
json_get_str-escape s rest = ap some (json_string-escape s rest)
