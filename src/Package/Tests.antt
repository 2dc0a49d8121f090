-- ===== src/Package/Tests.antt =====
-- Runs on manifests, versions, the registry and archives.
use holyphp.Prelude.{
  All, Bytes, List, [], all_bytes, arith, codes, false, inr, length, none, refl, replicate, some,
  ◌++◌, ◌+◌, ◌<◌, ◌^◌, ◌↔◌, ◌∷◌, ◌≡◌,
}
use holyphp.Runtime.Str.{less, more, opposite, same}
use holyphp.Package.Manifest.{
  PkgManifest, json_get_str, pkg_manifest_parse, pkg_version_cmp, version_parts,
}
use holyphp.Package.Hpx.{
  Entry, Memory, extract_rounds, is_safe, pkg_extract, pkg_pack, running, wrote,
}
use holyphp.Package.Manifest.Json.{escape, json_get_str-escape}
use holyphp.Package.Manifest.Order.{IsOlder, pkg_version_cmp_order}
use holyphp.Package.Registry.{
  pkg_installed_version, pkg_is_installed, pkg_registry_add, pkg_registry_remove,
}
use holyphp.Package.Hpx.Safe.{IsInside, files, pkg_extract-IsInside}
use holyphp.Package.Hpx.RoundTrip.{IsPackable, pkg_extract-pkg_pack}

newer : pkg_version_cmp (codes "1.10.0") (codes "1.9.3") ≡ more
unfolding pkg_version_cmp
newer = refl

-- A suffix is not compared.
suffix : pkg_version_cmp (codes "1.2.0-beta") (codes "1.2") ≡ same
unfolding pkg_version_cmp
suffix = refl

author_of :
    json_get_str (codes "{\"name\": \"a\\\"b\", \"author\" : \"me\"}") (codes "author")
    ≡ some (codes "me")
unfolding json_get_str
author_of = refl

-- The first occurrence is taken, also where it is a value.
value_as_key : json_get_str (codes "{\"entry\": \"name\", \"name\": \"x\"}") (codes "name") ≡ none
unfolding json_get_str
value_as_key = refl

abbrev zeroed : Memory
zeroed = record { before = λ p. []; behind = λ n. replicate n 0 }

two_files : List Entry
two_files =
    record { path = codes "hphp.json"; content = codes "{}\n" }
    ∷ record { path = codes "src/a.hphp"; content = [] }
    ∷ []

read_back : pkg_extract zeroed 4096 (pkg_pack two_files) ≡ wrote two_files
unfolding pkg_extract pkg_pack two_files
read_back = refl

-- A path that leaves the directory is skipped.
escaping : pkg_extract zeroed 4096 (codes "../x 1\na" ++ pkg_pack two_files) ≡ wrote two_files
unfolding pkg_extract pkg_pack two_files
escaping = refl

-- A size that leads far behind the end ends the loop.
far : pkg_extract zeroed 4096 (codes "x 99\na") ≡ wrote []
unfolding pkg_extract
far = refl

-- An unsafe name with the size 2^64 - 24: the loop goes back to the same header and does not end.
abbrev going_back : Bytes
going_back = codes ".. 18446744073709551592\n"

endless : extract_rounds zeroed 9 4096 going_back ≡ running []
unfolding extract_rounds
endless = refl

abbrev json_file : Entry
json_file = record { path = codes "hphp.json"; content = codes "{}\n" }

abbrev script_file : Entry
script_file = record { path = codes "src/a.hphp"; content = [] }

json_file-IsPackable : IsPackable json_file
unfolding all_bytes is_safe
json_file-IsPackable = (refl, refl, refl, refl, omega arith)

script_file-IsPackable : IsPackable script_file
unfolding all_bytes is_safe
script_file-IsPackable = (refl, refl, refl, refl, omega arith)

two_files-IsPackable : All IsPackable two_files
unfolding two_files
two_files-IsPackable = (json_file-IsPackable, (script_file-IsPackable, tt))

two_files_below : 4096 + length (pkg_pack two_files) < 2 ^ 64
unfolding two_files pkg_pack
two_files_below = omega arith

pkg_extract-pkg_pack_example : pkg_extract zeroed 4096 (pkg_pack two_files) ≡ wrote two_files
pkg_extract-pkg_pack_example =
    pkg_extract-pkg_pack zeroed 4096 two_files two_files_below two_files-IsPackable

-- Behind two files the loop goes back to its first header.
abbrev hostile : Bytes
hostile = codes "f 1\na../g 1\nb.. 18446744073709551579\n"

abbrev f_file : Entry
f_file = record { path = codes "f"; content = codes "a" }

hostile_run : extract_rounds zeroed 5 4096 hostile ≡ running (f_file ∷ f_file ∷ [])
unfolding extract_rounds
hostile_run = refl

pkg_extract-IsInside_example : All IsInside (files (extract_rounds zeroed 5 4096 hostile))
pkg_extract-IsInside_example = pkg_extract-IsInside zeroed 5 4096 hostile

abbrev small_json : Bytes
small_json = codes "{\"name\": \"m_1\", \"version\": \"1.0\"}"

abbrev small_manifest : PkgManifest
small_manifest = record {
  name = codes "m_1";
  version = codes "1.0";
  entry = codes "m_1.hphp";
  desc = [];
  author = [];
}

small_parsed : pkg_manifest_parse small_json ≡ inr small_manifest
unfolding pkg_manifest_parse
small_parsed = refl

older : pkg_version_cmp (codes "1.9.3") (codes "1.10.0") ≡ less
unfolding pkg_version_cmp
older = refl

much_older : pkg_version_cmp (codes "1.2") (codes "1.9.3") ≡ less
unfolding pkg_version_cmp
much_older = refl

-- The file after two additions to an empty registry: the comma stands behind the last entry.
abbrev with_two : Bytes
with_two =
    codes
      "[\n  {\"name\": \"a\", \"version\": \"1\"}\n  {\"name\": \"b\", \"version\": \"2\"},\n]\n"

two_additions :
    pkg_registry_add (codes "b") (codes "2") (pkg_registry_add (codes "a") (codes "1") (codes "[]"))
    ≡ with_two
unfolding pkg_registry_add
two_additions = refl

upgraded :
    pkg_installed_version (codes "a") (pkg_registry_add (codes "a") (codes "3") with_two)
    ≡ some (codes "3")
unfolding pkg_installed_version pkg_registry_add
upgraded = refl

removed : pkg_is_installed (codes "a") (pkg_registry_remove (codes "a") with_two) ≡ false
unfolding pkg_is_installed pkg_registry_remove
removed = refl

json_get_str-escape_example :
    json_get_str
      (codes "{\"name\": \"" ++ (escape (codes "a\"b\\c") ++ b'"' ∷ codes "}"))
      (codes "name")
    ≡ some (codes "a\"b\\c")
json_get_str-escape_example = json_get_str-escape (codes "a\"b\\c") (codes "}")

pkg_version_cmp_order_example :
    ((pkg_version_cmp (codes "1.9") (codes "1.10") ≡ less)
      ↔ IsOlder (version_parts 3 (codes "1.9")) (version_parts 3 (codes "1.10")))
    × ((pkg_version_cmp (codes "1.9") (codes "1.10") ≡ same)
        ↔ (version_parts 3 (codes "1.9") ≡ version_parts 3 (codes "1.10")))
    × (pkg_version_cmp (codes "1.10") (codes "1.9")
        ≡ opposite (pkg_version_cmp (codes "1.9") (codes "1.10")))
    × (pkg_version_cmp (codes "1.9") (codes "1.10") ≡ less
        → pkg_version_cmp (codes "1.10") (codes "2") ≡ less
        → pkg_version_cmp (codes "1.9") (codes "2") ≡ less)
pkg_version_cmp_order_example = pkg_version_cmp_order (codes "1.9") (codes "1.10") (codes "2")
