-- ===== src/Package/Hpx/Listing.antt =====
-- `pkg_list_entries` of src/hphpc/pkgcore.c: the names in an archive. Unlike `pkg_extract` it tests
-- neither the size of an entry nor its path.
use holyphp.Prelude.{
  All, Bytes, List, [], ap, arith, drop, false, if◌then◌else◌, leb, length, map, none, refl, some,
  suc, zero, ℕ, ◌++◌, ◌+◌, ◌<◌, ◌^◌, ◌∙◌, ◌∷◌, ◌≡◌,
}
use holyphp.Lexer.Cursor.{newline}
use holyphp.Package.Hpx.{Entry, decimal, header, pkg_pack, split_at, terminator}
use holyphp.Package.Hpx.Text.{IsDecimal, decimal-IsDecimal, split_at_free}
use holyphp.Package.Hpx.RoundTrip.{
  IsPackable, drop_front, header_line, length-pack_cons, line-IsFree, pack_cons,
}

-- The result of a listing: the names in order, or undefined behaviour, where a size leads past the end
-- of the address space.
pub data Listed : Type 0 where
  lost : Listed
  names : List Bytes → Listed

abbrev pub listed : Bytes → Listed → Listed
listed name lost = lost
listed name (names ns) = names (name ∷ ns)

-- The loop at the address `p`. A size that leads past the end of the buffer ends it.
unfoldable pub list_loop : ℕ → ℕ → Bytes → Listed
unfolding header split_at
list_loop zero p s = names []
list_loop (suc fuel) p s = elim (split_at newline s) [
  | none ↦ names []
  | some (head, body) ↦ elim (header head) [
    | none ↦ names []
    | some (name, sz) ↦
        let at_body = p + length head + 1 in
        let rest = list_loop fuel (at_body + sz) (drop sz body) in
        if leb (2 ^ 64) (at_body + sz) then lost else listed name rest
  ]
]

unfoldable pub pkg_list_entries : ℕ → Bytes → Listed
unfolding list_loop
pkg_list_entries base archive = list_loop (length archive + 1) base archive

-- One round of the loop over a file that was packed.
list_round :
    (fuel p : ℕ) (e : Entry) (dec tail : Bytes)
    → IsPackable e
    → length e.content < 2 ^ 64
    → IsDecimal (length e.content) dec
    → p + length (e.path ++ b' ' ∷ dec) + 1 + length e.content < 2 ^ 64
    → list_loop (suc fuel) p ((e.path ++ b' ' ∷ dec) ++ newline ∷ (e.content ++ tail))
      ≡ listed e.path
          (list_loop fuel (p + length (e.path ++ b' ' ∷ dec) + 1 + length e.content) tail)
unfolding list_loop
list_round fuel p e dec tail ok fits print below =
    let cut =
      split_at_free newline (e.path ++ b' ' ∷ dec) (e.content ++ tail)
        (line-IsFree newline e.path dec refl refl ok.1 print.0) in
    let head = header_line e dec (length e.content) ok fits print in
    let inside : leb (2 ^ 64) (p + length (e.path ++ b' ' ∷ dec) + 1 + length e.content) ≡ false =
      ground arith in
    rw (list_loop, cut, head, inside, drop_front e.content tail) refl

list_terminator : (fuel p : ℕ) → list_loop (suc fuel) p (terminator ++ newline ∷ []) ≡ names []
unfolding list_loop
list_terminator fuel p = refl

list-nothing : (fuel p : ℕ) → list_loop (suc fuel) p (pkg_pack []) ≡ names []
unfolding pkg_pack
list-nothing fuel p = list_terminator fuel p

list-pack :
    (es : List Entry) (fuel p : ℕ)
    → length (pkg_pack es) < fuel
    → p + length (pkg_pack es) < 2 ^ 64
    → All IsPackable es
    → list_loop fuel p (pkg_pack es) ≡ names (map (λ e. e.path) es)
list-pack es zero p enough below ok = absurd (omega arith)
list-pack [] (suc fuel) p enough below ok = list-nothing fuel p
list-pack (e ∷ es) (suc fuel) p enough below ok =
    let len = length-pack_cons e es in
    let at_next = p + length (e.path ++ b' ' ∷ decimal (length e.content)) + 1 + length e.content in
    let fits : length e.content < 2 ^ 64 = omega arith in
    ap (list_loop (suc fuel) p) (pack_cons e es)
    ∙ list_round fuel p e (decimal (length e.content)) (pkg_pack es) ok.0 fits
        (decimal-IsDecimal (length e.content) fits) (omega arith)
    ∙ ap (listed e.path) (list-pack es fuel at_next (omega arith) (omega arith) ok.1)

-- `pkg_list_entries` lists exactly the paths of the files in an archive that was packed, in their
-- order, under the conditions under which `pkg_extract` reads it back.
pkg_list_entries-pkg_pack :
    (base : ℕ) (es : List Entry)
    → base + length (pkg_pack es) < 2 ^ 64
    → All IsPackable es
    → pkg_list_entries base (pkg_pack es) ≡ names (map (λ e. e.path) es)
unfolding pkg_list_entries
pkg_list_entries-pkg_pack base es below ok =
    list-pack es (length (pkg_pack es) + 1) base (omega arith) below ok
