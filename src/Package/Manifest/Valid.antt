-- ===== src/Package/Manifest/Valid.antt =====
-- What callers of `pkg_manifest_parse` of src/hphpc/pkgcore.c use of its result.
use holyphp.Prelude.{
  All, Bool, Bool-cases, Bytes, Option, [], all_bytes, ap, arith, codes, false, inl, inr, none,
  some, true, ℕ, ◌∷◌, ◌≡◌, ◌≢◌, ◌⊎◌,
}
use holyphp.Package.Manifest.{
  ManifestError, PkgManifest, is_empty, json_get_str, manifest_of, name_byte, or_else,
  pkg_manifest_parse, pkg_name_ok,
}

-- The name can be a directory's name, and there is a version.
abbrev pub IsValid : PkgManifest → Type 0
IsValid m = (m.name ≢ []) × All (λ c. name_byte c ≡ true) m.name × (m.version ≢ [])

all_bytes-All : (ok : ℕ → Bool) (s : Bytes) → all_bytes ok s ≡ true → All (λ c. ok c ≡ true) s
unfolding all_bytes
all_bytes-All ok [] h = tt
all_bytes-All ok (c ∷ s) h = elim (Bool-cases (ok c)) [
  | inl e ↦ (e, all_bytes-All ok s (ground arith))
  | inr e ↦ absurd (ground arith)
]

name_ok :
    (name : Option Bytes)
    → pkg_name_ok name ≡ true
    → (or_else name [] ≢ []) × All (λ c. name_byte c ≡ true) (or_else name [])
unfolding pkg_name_ok
name_ok none h = absurd (cc)
name_ok (some []) h = absurd (cc)
name_ok (some (c ∷ s)) h = (λ e. cc, all_bytes-All name_byte (c ∷ s) h)

version_ok : (version : Option Bytes) → is_empty version ≡ false → or_else version [] ≢ []
version_ok none h = absurd (cc)
version_ok (some []) h = absurd (cc)
version_ok (some (c ∷ s)) h = λ e. cc

-- What is said of a result.
abbrev AllValid : ManifestError ⊎ PkgManifest → Type 0
AllValid (inl e) = Unit
AllValid (inr m) = IsValid m

manifest_of-AllValid :
    (name version entry desc author : Option Bytes)
    → AllValid (manifest_of name version entry desc author)
unfolding manifest_of
manifest_of-AllValid name version entry desc author = elim (Bool-cases (pkg_name_ok name)) [
  | inr e ↦ rw (AllValid, e) tt
  | inl e ↦ elim (Bool-cases (is_empty version)) [
    | inl f ↦ rw (AllValid, e, f) tt
    | inr f ↦
        let (there, bytes) = name_ok name e in
        rw (AllValid, e, f) (there, bytes, version_ok version f)
  ]
]

parse-AllValid : (js : Bytes) → AllValid (pkg_manifest_parse js)
unfolding pkg_manifest_parse
parse-AllValid [] = tt
parse-AllValid (c ∷ s) =
    let js = c ∷ s in
    manifest_of-AllValid (json_get_str js (codes "name")) (json_get_str js (codes "version"))
      (json_get_str js (codes "entry")) (json_get_str js (codes "description"))
      (json_get_str js (codes "author"))

-- A manifest that `pkg_manifest_parse` accepts has a name of lowercase letters, digits and `_`, which is
-- not empty, and a version that is not empty.
pub pkg_manifest_parse-IsValid :
    (js : Bytes) (m : PkgManifest) → pkg_manifest_parse js ≡ inr m → IsValid m
pkg_manifest_parse-IsValid js m h = rw (← ap AllValid h) (parse-AllValid js)
