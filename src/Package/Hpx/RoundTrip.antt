-- ===== src/Package/Hpx/RoundTrip.antt =====
-- `pkg_extract` of src/hphpc/pkgcore.c on an archive that `pkg_pack_dir` wrote.
use holyphp.Prelude.{
  All, Bool-cases, Bytes, List, [], all_bytes, ap, append_assoc, arith, bytes_eq, bytes_eq_sound,
  drop, false, inl, inr, is_digit, leb, length, length-append, ltb, not, refl, some, suc, sym, take,
  true, zero, ℕ, ◌++◌, ◌+◌, ◌<◌, ◌==◌, ◌^◌, ◌∙◌, ◌∷◌, ◌≡◌, ◌≤◌,
}
use holyphp.Lexer.Cursor.{newline}
use holyphp.Package.Hpx.{
  Entry, Memory, also, decimal, extract_loop, extract_rounds, header, is_safe, pkg_extract,
  pkg_pack, terminator, wrote,
}
use holyphp.Package.Hpx.Text.{
  IsDecimal, IsFree, all_bytes-append, all_head, c_string_free, decimal-IsDecimal, digits-IsFree,
  split_at_free, strtoull-IsDecimal,
}

not_free : (c : ℕ) (s t : Bytes) → IsFree c (s ++ c ∷ t) → ⊥
unfolding all_bytes
not_free c [] t h = ground arith
not_free c (d ∷ s) t h = not_free c s t (all_head (λ e. not (e == c)) d (s ++ c ∷ t) h).1

-- A file that the format can hold.
abbrev pub IsPackable : Entry → Type 0
IsPackable e =
    IsFree b' ' e.path
    × IsFree newline e.path
    × IsFree 0 e.path
    × (is_safe e.path ≡ true)
    × (length e.path ≤ 1002)

terminator-IsFree : IsFree b' ' terminator
unfolding all_bytes
terminator-IsFree = refl

not_terminator : (s t : Bytes) → bytes_eq (s ++ b' ' ∷ t) terminator ≡ false
not_terminator s t = elim (Bool-cases (bytes_eq (s ++ b' ' ∷ t) terminator)) [
  | inl e ↦
      let same : s ++ b' ' ∷ t ≡ terminator = bytes_eq_sound (s ++ b' ' ∷ t) terminator e in
      absurd (not_free b' ' s t (rw same terminator-IsFree))
  | inr e ↦ e
]

IsFree-behind : (c : ℕ) (s : Bytes) → (c == b' ') ≡ false → IsFree c s → IsFree c (b' ' ∷ s)
unfolding all_bytes
IsFree-behind c s h g = ground arith

-- A header line has no byte `c` that is neither in the path nor a space nor a digit.
pub line-IsFree :
    (c : ℕ) (path dec : Bytes)
    → is_digit c ≡ false
    → (c == b' ') ≡ false
    → IsFree c path
    → all_bytes is_digit dec ≡ true
    → IsFree c (path ++ b' ' ∷ dec)
line-IsFree c path dec no_digit no_space free digits =
    all_bytes-append (λ d. not (d == c)) path (b' ' ∷ dec) free
      (IsFree-behind c dec no_space (digits-IsFree c dec no_digit digits))

pub header_line :
    (e : Entry) (dec : Bytes) (n : ℕ)
    → IsPackable e
    → n < 2 ^ 64
    → IsDecimal n dec
    → header (e.path ++ b' ' ∷ dec) ≡ some (e.path, n)
unfolding header
header_line e dec n (no_space, no_line, no_nul, safe, short) fits (digits, positive, few, value) =
    let text =
      c_string_free (e.path ++ b' ' ∷ dec) (line-IsFree 0 e.path dec refl refl no_nul digits) in
    let room : leb 1024 (length (e.path ++ b' ' ∷ dec)) ≡ false =
      ground (arith, length-append e.path (b' ' ∷ dec)) in
    rw
      (
        room,
        text,
        not_terminator e.path dec,
        split_at_free b' ' e.path dec no_space,
        strtoull-IsDecimal n dec fits (digits, positive, few, value),
      )
      refl

take_front : (s t : Bytes) → take (length s) (s ++ t) ≡ s
take_front [] t = refl
take_front (c ∷ s) t = ap (λ r. c ∷ r) (take_front s t)

pub drop_front : (s t : Bytes) → drop (length s) (s ++ t) ≡ t
drop_front [] t = refl
drop_front (c ∷ s) t = drop_front s t

-- One round of the loop over a file that was packed.
extract_round :
    (mem : Memory) (base : ℕ) (archive : Bytes) (fuel p : ℕ) (e : Entry) (dec tail : Bytes)
    → IsPackable e
    → length e.content < 2 ^ 64
    → IsDecimal (length e.content) dec
    → p + length (e.path ++ b' ' ∷ dec) + 1 + length e.content < 2 ^ 64
    → extract_loop mem base archive
        (suc fuel)
        p
        ((e.path ++ b' ' ∷ dec) ++ newline ∷ (e.content ++ tail))
      ≡ also true e (
          extract_loop mem base archive fuel
            (p + length (e.path ++ b' ' ∷ dec) + 1 + length e.content)
            tail)
unfolding extract_loop
extract_round mem base archive fuel p e dec tail ok fits print below =
    let cut =
      split_at_free newline (e.path ++ b' ' ∷ dec) (e.content ++ tail)
        (line-IsFree newline e.path dec refl refl ok.1 print.0) in
    let head = header_line e dec (length e.content) ok fits print in
    let at_body = p + length (e.path ++ b' ' ∷ dec) + 1 in
    let inside : leb (2 ^ 64) (at_body + length e.content) ≡ false = ground arith in
    let enough : ltb (at_body + length (e.content ++ tail)) (at_body + length e.content) ≡ false =
      ground (arith, length-append e.content tail) in
    rw
      (
        extract_loop,
        cut,
        head,
        inside,
        enough,
        ok.3,
        take_front e.content tail,
        drop_front e.content tail,
      )
      refl

pub pack_cons :
    (e : Entry) (es : List Entry)
    → pkg_pack (e ∷ es)
      ≡ (e.path ++ b' ' ∷ decimal (length e.content)) ++ newline ∷ (e.content ++ pkg_pack es)
unfolding pkg_pack
pack_cons e es =
    sym (
      append_assoc e.path (b' ' ∷ decimal (length e.content))
        (newline ∷ (e.content ++ pkg_pack es)))

pub length-pack_cons :
    (e : Entry) (es : List Entry)
    → length (pkg_pack (e ∷ es))
      ≡ length (e.path ++ b' ' ∷ decimal (length e.content))
        + 1
        + length e.content
        + length (pkg_pack es)
length-pack_cons e es =
    ap length (pack_cons e es)
    ∙ length-append (e.path ++ b' ' ∷ decimal (length e.content))
        (newline ∷ (e.content ++ pkg_pack es))
    ∙ omega (arith, length-append e.content (pkg_pack es))

read_terminator :
    (mem : Memory) (base : ℕ) (archive : Bytes) (fuel p : ℕ)
    → extract_loop mem base archive (suc fuel) p (terminator ++ newline ∷ []) ≡ wrote []
unfolding extract_loop
read_terminator mem base archive fuel p = refl

extract-nothing :
    (mem : Memory) (base : ℕ) (archive : Bytes) (fuel p : ℕ)
    → extract_loop mem base archive (suc fuel) p (pkg_pack []) ≡ wrote []
unfolding pkg_pack
extract-nothing mem base archive fuel p = read_terminator mem base archive fuel p

extract-pack :
    (mem : Memory) (base : ℕ) (archive : Bytes) (es : List Entry) (fuel p : ℕ)
    → length (pkg_pack es) < fuel
    → p + length (pkg_pack es) < 2 ^ 64
    → All IsPackable es
    → extract_loop mem base archive fuel p (pkg_pack es) ≡ wrote es
extract-pack mem base archive es zero p enough below ok = absurd (omega arith)
extract-pack mem base archive [] (suc fuel) p enough below ok =
    extract-nothing mem base archive fuel p
extract-pack mem base archive (e ∷ es) (suc fuel) p enough below ok =
    let len = length-pack_cons e es in
    let at_next = p + length (e.path ++ b' ' ∷ decimal (length e.content)) + 1 + length e.content in
    let fits : length e.content < 2 ^ 64 = omega arith in
    ap (extract_loop mem base archive (suc fuel) p) (pack_cons e es)
    ∙ extract_round mem base archive fuel p e (decimal (length e.content)) (pkg_pack es) ok.0 fits
        (decimal-IsDecimal (length e.content) fits) (omega arith)
    ∙ ap (also true e)
        (extract-pack mem base archive es fuel at_next (omega arith) (omega arith) ok.1)

-- Files whose paths hold no space, line break or NUL, are safe and have at most 1002 bytes are read back
-- from their archive, in their order and with their content, if the archive stands below the end of the
-- address space.
pub pkg_extract-pkg_pack :
    (mem : Memory) (base : ℕ) (es : List Entry)
    → base + length (pkg_pack es) < 2 ^ 64
    → All IsPackable es
    → pkg_extract mem base (pkg_pack es) ≡ wrote es
unfolding pkg_extract extract_rounds
pkg_extract-pkg_pack mem base es below ok =
    extract-pack mem base (pkg_pack es) es (length (pkg_pack es) + 1) base (omega arith) below ok
