-- ===== src/Package/Hpx/Safe.antt =====
-- Where `pkg_extract` of src/hphpc/pkgcore.c can write.
use holyphp.Prelude.{
  All, Bool, Bytes, List, Option, Option-cases, arith, codes, drop, false, get_or, if_lem,
  if◌then◌else◌, inl, inr, leb, length, ltb, none, refl, some, suc, take, true, zero, ℕ, ◌++◌, ◌+◌,
  ◌-◌, ◌^◌, ◌≡◌, ◌≢◌,
}
use holyphp.Lexer.Cursor.{newline}
use holyphp.Runtime.Str.Search.{NotBefore, index_from-none}
use holyphp.Runtime.Str.{index_from}
use holyphp.Package.Hpx.{
  Entry, Extracted, Memory, also, bytes_from, extract_loop, extract_rounds, header, is_safe,
  running, split_at, wrapped, wrote,
}

-- A path that is not absolute and in which `..` stands nowhere.
abbrev pub IsInside : Entry → Type 0
IsInside e = (get_or e.path 0 0 ≢ b'/') × NotBefore e.path (codes "..") (length e.path)

is_safe-IsInside :
    (name : Bytes)
    → is_safe name ≡ true
    → (get_or name 0 0 ≢ b'/') × NotBefore name (codes "..") (length name)
unfolding is_safe
is_safe-IsInside name h = inside (index_from 0 name (codes "..")) refl
  where
    inside :
        (f : Option ℕ)
        → index_from 0 name (codes "..") ≡ f
        → (get_or name 0 0 ≢ b'/') × NotBefore name (codes "..") (length name)
    inside (some i) e = absurd (grind arith)
    inside none e = (λ slash. absurd (grind arith), index_from-none 0 name (codes "..") e)

-- What is written, whether the loop has ended or not.
abbrev pub files : Extracted → List Entry
files (wrote es) = es
files (running es) = es

also-files :
    (keep : Bool) (e : Entry) (r : Extracted)
    → (keep ≡ true → IsInside e)
    → All IsInside (files r)
    → All IsInside (files (also keep e r))
also-files true e (wrote es) inside h = (inside refl, h)
also-files true e (running es) inside h = (inside refl, h)
also-files false e r inside h = h

loop-files :
    (mem : Memory) (base : ℕ) (archive : Bytes) (fuel p : ℕ) (s : Bytes)
    → All IsInside (files (extract_loop mem base archive fuel p s))
unfolding extract_loop
loop-files mem base archive zero p s = tt
loop-files mem base archive (suc fuel) p s = elim (Option-cases (split_at newline s)) [
  | inl cut ↦ rw (files, cut) tt
  | inr ((first, body), cut) ↦ elim (Option-cases (header first)) [
    | inl hd ↦ rw (files, cut, hd) tt
    | inr ((name, sz), hd) ↦
        let at_body = p + length first + 1 in
        let over = leb (2 ^ 64) (at_body + sz) in
        let next = if over then wrapped (at_body + sz) else at_body + sz in
        let ahead = if over then bytes_from mem base archive next else drop sz body in
        let content = if over then body ++ mem.behind (sz - length body) else take sz body in
        let e : Entry = record { path = name; content = content } in
        rw (files, cut, hd)
          (if_lem (λ r. All IsInside (files r)) (ltb (at_body + length body) next) (λ far. tt)
            (λ near.
              also-files (is_safe name) e (extract_loop mem base archive fuel next ahead)
                (is_safe-IsInside name) (loop-files mem base archive fuel next ahead)))
  ]
]

-- Whatever the bytes of an archive, its place in memory and the memory around it are, no path that
-- `pkg_extract` writes in any number of rounds starts with `/`, and `..` stands in none of them.
pub pkg_extract-IsInside :
    (mem : Memory) (fuel base : ℕ) (archive : Bytes)
    → All IsInside (files (extract_rounds mem fuel base archive))
unfolding extract_rounds
pkg_extract-IsInside mem fuel base archive = loop-files mem base archive fuel base archive
