-- ===== src/Package/Registry.antt =====
-- registry.json of src/hphpc/pkgcore.c: `pkg_registry_read`, `pkg_registry_add`, `pkg_registry_remove`,
-- `pkg_is_installed` and `pkg_installed_version` on the content of the file, which is `[]` where there
-- is none.
use holyphp.Prelude.{
  Bool, Bool-cases, Bytes, List, Option, [], bytes_eq, codes, drop, false, if◌then◌else◌, inl, inr,
  length, ltb, none, refl, some, suc, true, zero, ℕ, ◌++◌, ◌+◌, ◌||◌, ◌↔◌, ◌∷◌, ◌≡◌,
}
use holyphp.Runtime.Str.{index_from}
use holyphp.Package.Manifest.{json_get_str, or_else, quoted}

pub record InstalledPkg : Type 0 where
  pub name : Bytes
  pub version : Bytes

-- The loop of `pkg_registry_read` on what is left of the text; each round leaves the six bytes of the
-- key behind.
unfoldable pub read_loop : ℕ → Bytes → List InstalledPkg
unfolding json_get_str index_from
read_loop zero s = []
read_loop (suc fuel) s = elim (index_from 0 s (quoted (codes "name"))) [
  | none ↦ []
  | some i ↦
      let p = drop i s in
      let rest = read_loop fuel (drop (i + 6) s) in
      elim (json_get_str p (codes "name")) [
        | none ↦ []
        | some nm ↦
            record { name = nm; version = or_else (json_get_str p (codes "version")) [] } ∷ rest
      ]
]

unfoldable pub pkg_registry_read : Bytes → List InstalledPkg
unfolding read_loop
pkg_registry_read file = read_loop (length file) file

-- One line of the file; the last one has no comma.
abbrev pub line_of : Bytes → Bytes → Bool → Bytes
line_of name version comma =
    codes "  {\"name\": \""
    ++ (name
        ++ (codes "\", \"version\": \""
            ++ (version ++ (codes "\"}" ++ (if comma then codes ",\n" else codes "\n")))))

-- The lines of the entries, each with a comma where one follows; `total` is the number of entries that
-- the source counts, and `i` the number of the entry.
unfoldable pub lines_from : ℕ → ℕ → List InstalledPkg → Bytes
lines_from i total [] = []
lines_from i total (p ∷ ps) =
    line_of p.name p.version (ltb (i + 1) total) ++ lines_from (i + 1) total ps

-- An upgrade in place: every entry of the name takes the new version.
unfoldable pub upgrade : Bytes → Bytes → List InstalledPkg → List InstalledPkg
unfolding bytes_eq
upgrade name version [] = []
upgrade name version (p ∷ ps) =
    let rest = upgrade name version ps in
    if bytes_eq p.name name then record p { version = version } ∷ rest else p ∷ rest

-- The loop of `pkg_is_installed`.
unfoldable pub has_name : Bytes → List InstalledPkg → Bool
unfolding bytes_eq
has_name name [] = false
has_name name (p ∷ ps) = bytes_eq p.name name || has_name name ps

-- The loop of `pkg_installed_version`.
unfoldable pub version_of : Bytes → List InstalledPkg → Option Bytes
unfolding bytes_eq
version_of name [] = none
version_of name (p ∷ ps) =
    let rest = version_of name ps in if bytes_eq p.name name then some p.version else rest

-- The entries that `pkg_registry_remove` keeps.
unfoldable pub without : Bytes → List InstalledPkg → List InstalledPkg
unfolding bytes_eq
without name [] = []
without name (p ∷ ps) =
    let rest = without name ps in if bytes_eq p.name name then rest else p ∷ rest

-- The new content of the file. A new entry gets a comma behind it where there were others, and none
-- before it.
unfoldable pub pkg_registry_add : Bytes → Bytes → Bytes → Bytes
unfolding pkg_registry_read upgrade has_name lines_from
pkg_registry_add name version file =
    let v = pkg_registry_read file in
    let n = length v in
    let added = if has_name name v then [] else line_of name version (ltb 0 n) in
    codes "[\n" ++ (lines_from 0 n (upgrade name version v) ++ (added ++ codes "]\n"))

-- The comma is decided by the number of entries that there were, less none of those removed.
unfoldable pub pkg_registry_remove : Bytes → Bytes → Bytes
unfolding pkg_registry_read without lines_from
pkg_registry_remove name file =
    let v = pkg_registry_read file in
    codes "[\n" ++ (lines_from 0 (length v) (without name v) ++ codes "]\n")

unfoldable pub pkg_is_installed : Bytes → Bytes → Bool
unfolding pkg_registry_read has_name
pkg_is_installed name file = has_name name (pkg_registry_read file)

unfoldable pub pkg_installed_version : Bytes → Bytes → Option Bytes
unfolding pkg_registry_read version_of
pkg_installed_version name file = version_of name (pkg_registry_read file)

-- A package is installed exactly where it has a version in the registry.
pkg_is_installed_iff :
    (name file : Bytes)
    → (pkg_is_installed name file ≡ true)
      ↔ ((v : Bytes) × (pkg_installed_version name file ≡ some v))
unfolding pkg_is_installed pkg_installed_version
pkg_is_installed_iff name file = both name (pkg_registry_read file)
  where
    both :
        (name : Bytes) (ps : List InstalledPkg)
        → (has_name name ps ≡ true) ↔ ((v : Bytes) × (version_of name ps ≡ some v))
    both name [] = (λ h. absurd (cc), λ h. absurd (cc))
    both name (p ∷ ps) = elim (Bool-cases (bytes_eq p.name name)) [
      | inl e ↦ rw e (λ h. (p.version, refl), λ h. refl)
      | inr e ↦ rw e (both name ps)
    ]
