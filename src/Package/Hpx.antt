-- ===== src/Package/Hpx.antt =====
-- The .hpx archives of src/hphpc/pkgcore.c: `pkg_pack_dir` and `pkg_extract` without the file system. A
-- file is its relative path and its content, in the order in which `collect_dir` finds them. Paths are
-- C strings, with no NUL inside.
pub mod Text
pub mod RoundTrip
pub mod Safe
pub mod Listing
use holyphp.Prelude.{
  Bool, Bytes, List, Option, [], bytes_eq, codes, drop, false, get_or, if◌then◌else◌, is_digit,
  is_space, leb, length, ltb, min, none, not, skip_bytes, some, suc, take, true, zero, ℕ, ◌%◌, ◌++◌,
  ◌+◌, ◌-◌, ◌/◌, ◌==◌, ◌>>=◌, ◌^◌, ◌||◌, ◌∷◌,
}
use holyphp.Lexer.Cursor.{c_string, line, newline}
use holyphp.Lexer.Number.{digits_value}
use holyphp.Runtime.Str.{index_from, more}

pub record Entry : Type 0 where
  pub path : Bytes
  pub content : Bytes

-- `%zu`: the loop of a decimal print, which `fuel` digits are enough for.
unfoldable pub emit : ℕ → ℕ → Bytes → Bytes
emit zero n out = out
emit (suc fuel) n out =
    let digit = (b'0' + n % 10) ∷ out in
    let more = emit fuel (n / 10) digit in if ltb n 10 then digit else more

-- A `size_t` has at most 20 digits.
unfoldable pub decimal : ℕ → Bytes
unfolding emit
decimal n = emit 20 n []

abbrev pub terminator : Bytes
terminator = codes "HPHX1"

-- The loop of `pkg_pack_dir` over the list of files.
unfoldable pub pkg_pack : List Entry → Bytes
unfolding decimal
pkg_pack [] = terminator ++ newline ∷ []
pkg_pack (e ∷ es) =
    e.path ++ b' ' ∷ (decimal (length e.content) ++ newline ∷ (e.content ++ pkg_pack es))

-- `memchr` and `strchr`: what stands before the first `c`, and what stands behind it.
unfoldable pub split_at : ℕ → Bytes → Option (Bytes × Bytes)
split_at c [] = none
split_at c (d ∷ s) =
    let rest = split_at c s in
    if d == c then some ([], s) else rest >>= (λ found. some (d ∷ found.0, found.1))

-- `strtoull(s, NULL, 10)`: white space, a sign (a minus is taken modulo 2^64) and digits; it saturates.
unfoldable pub to_u64 : Bytes → ℕ
unfolding digits_value skip_bytes
to_u64 s = min (digits_value 10 0 (take (length s - length (skip_bytes is_digit s)) s)) (2 ^ 64 - 1)

unfoldable pub signed_u64 : Bytes → ℕ
unfolding to_u64
signed_u64 [] = 0
signed_u64 (c ∷ s) =
    if c == b'-'
    then (2 ^ 64 - to_u64 s) % 2 ^ 64
    else if c == b'+'
    then to_u64 s
    else to_u64 (c ∷ s)

unfoldable pub strtoull : Bytes → ℕ
unfolding skip_bytes signed_u64
strtoull s = signed_u64 (skip_bytes is_space s)

-- The path and the size in a header line. `none` is the end of the archive: the terminator, or a
-- header that is malformed.
unfoldable pub header : Bytes → Option (Bytes × ℕ)
unfolding split_at strtoull c_string bytes_eq
header line =
    if leb 1024 (length line) || bytes_eq (c_string line) terminator
    then none
    else split_at b' ' (c_string line) >>= (λ found. some (found.0, strtoull found.1))

-- `!(name[0] == '/' || strstr(name, ".."))`
unfoldable pub is_safe : Bytes → Bool
unfolding index_from
is_safe name = elim (index_from 0 name (codes "..")) [
  | some i ↦ false
  | none ↦ not (get_or name 0 0 == b'/')
]

-- The files written, in order: when the loop ended, or, after all the rounds of the fuel, so far.
pub data Extracted : Type 0 where
  wrote : List Entry → Extracted
  running : List Entry → Extracted

abbrev pub also : Bool → Entry → Extracted → Extracted
also true e (wrote es) = wrote (e ∷ es)
also true e (running es) = running (e ∷ es)
also false e r = r

-- The memory around the buffer of an archive: the bytes from an address below it up to its start, and as
-- many bytes as one asks for behind its end.
pub record Memory : Type 0 where
  pub before : ℕ → Bytes
  pub behind : ℕ → Bytes

-- The memory from the address `p` to the end of the archive.
abbrev pub bytes_from : Memory → ℕ → Bytes → ℕ → Bytes
bytes_from mem base archive p =
    if leb base p then drop (p - base) archive else mem.before p ++ archive

-- `p + sz`, modulo the size of the address space.
abbrev pub wrapped : ℕ → ℕ
wrapped n = n % 2 ^ 64

-- The loop of `pkg_extract`, at the address `p` with the bytes `s` up to the end of the archive. Where
-- `p + sz` passes the end of the address space, the sum that is compared and that the loop goes on with
-- is the wrapped one, and a file is written from beyond the archive.
unfoldable pub extract_loop : Memory → ℕ → Bytes → ℕ → ℕ → Bytes → Extracted
unfolding header split_at is_safe
extract_loop mem base archive zero p s = running []
extract_loop mem base archive (suc fuel) p s = elim (split_at newline s) [
  | none ↦ wrote []
  | some (line, body) ↦ elim (header line) [
    | none ↦ wrote []
    | some (name, sz) ↦
        let at_body = p + length line + 1 in
        let over = leb (2 ^ 64) (at_body + sz) in
        let next = if over then wrapped (at_body + sz) else at_body + sz in
        let ahead = if over then bytes_from mem base archive next else drop sz body in
        let content = if over then body ++ mem.behind (sz - length body) else take sz body in
        let rest = extract_loop mem base archive fuel next ahead in
        if ltb (at_body + length body) next
        then wrote []
        else also (is_safe name) (record { path = name; content = content }) rest
  ]
]

-- `fuel` rounds of the loop. `base` is the address of the buffer that holds the archive. Without a wrap
-- a round reads at least one byte; with one the loop may go back and not end.
unfoldable pub extract_rounds : Memory → ℕ → ℕ → Bytes → Extracted
unfolding extract_loop
extract_rounds mem fuel base archive = extract_loop mem base archive fuel base archive

unfoldable pub pkg_extract : Memory → ℕ → Bytes → Extracted
unfolding extract_rounds
pkg_extract mem base archive = extract_rounds mem (length archive + 1) base archive
