-- ===== src/Runtime/Regex/Parse.antt =====
-- The parser of patterns of src/hphpc/runtime/hphp_std.c: rx_set_add, rx_escape_class, rx_parse_atom,
-- rx_parse_rep, rx_parse_seq, rx_parse_alt and rx_split_pattern. What is left of the pattern stands for
-- `src + pos`; the flags are the same for the whole pattern. A count in braces is a number without
-- bound, where the source has an int.
pub mod Pieces
pub mod Total
use holyphp.Prelude.{
  Bool, Bytes, Option, [], drop, false, if◌then◌else◌, is_alnum, is_alpha, is_digit, is_space,
  is_upper, leb, length, none, not, some, suc, take, true, zero, ℕ, ◌&&◌, ◌*◌, ◌+◌, ◌-◌, ◌==◌, ◌||◌,
  ◌∷◌,
}
use holyphp.Runtime.Regex.{
  Rx, RxAlts, RxKids, alt, any, bol, bow, branch, byte_at, char, class, done, eol, fail, group,
  item, rep, rx_is_word, seq, tolower,
}

pub record Flags : Type 0 where
  pub ci : Bool
  pub dotall : Bool
  pub multiline : Bool

-- A parsed part, what is left of the pattern and the number of groups; `failed` is `err`, and `starved`
-- a call without fuel.
pub data RxParsed (A : Type 0) : Type 0 where
  ok : A → Bytes → ℕ → RxParsed A
  failed : RxParsed A
  starved : RxParsed A

abbrev pub and_then : {A B : Type 0} → RxParsed A → (A → Bytes → ℕ → RxParsed B) → RxParsed B
and_then (ok a rest ng) f = f a rest ng
and_then failed f = failed
and_then starved f = starved

abbrev pub rx_peek : Bytes → ℕ
rx_peek [] = 0
rx_peek (c ∷ rest) = c

-- What rx_next leaves.
abbrev pub rx_skip : Bytes → Bytes
rx_skip [] = []
rx_skip (c ∷ rest) = rest

abbrev other_case : ℕ → ℕ
other_case c = if is_upper c then c + 32 else c - 32

unfoldable pub rx_set_add : (ℕ → Bool) → ℕ → Bool → ℕ → Bool
rx_set_add chars c ci d = d == c || ci && is_alpha c && d == other_case c || chars d

-- The loop from `lo`, `count` times.
unfoldable pub set_range : ℕ → ℕ → Bool → (ℕ → Bool) → ℕ → Bool
unfolding rx_set_add
set_range zero lo ci chars = chars
set_range (suc count) lo ci chars = set_range count (lo + 1) ci (rx_set_add chars lo ci)

-- The loop over all bytes below `n`.
unfoldable pub set_where : (ℕ → Bool) → ℕ → Bool → (ℕ → Bool) → ℕ → Bool
unfolding rx_set_add
set_where test zero ci chars = chars
set_where test (suc n) ci chars =
    set_where test n ci (if test n then rx_set_add chars n ci else chars)

-- Which class a letter behind a backslash names.
abbrev class_test : ℕ → Option (ℕ → Bool)
class_test c =
    if c == b'd'
    then some is_digit
    else if c == b'w'
    then some rx_is_word
    else if c == b's'
    then some is_space
    else none

abbrev negated : (ℕ → Bool) → ℕ → Bool
negated test b = not (test b)

abbrev all_where : Option (ℕ → Bool) → Bool → Bool → (ℕ → Bool) → Option (ℕ → Bool)
all_where none neg ci chars = none
all_where (some test) neg ci chars =
    some (set_where (if neg then negated test else test) 256 ci chars)

-- none where the letter names no class.
unfoldable pub rx_escape_class : (ℕ → Bool) → ℕ → Bool → Option (ℕ → Bool)
unfolding set_where
rx_escape_class chars c ci = all_where (class_test (tolower c)) (is_upper c) ci chars

abbrev pub is_range : Bytes → Bool
is_range (a ∷ b ∷ rest) = a == b'-' && not (b == b']')
is_range rest = false

-- A byte of a class, or the range that it begins.
abbrev pub class_range : ℕ → Bytes → Bool → (ℕ → Bool) → (ℕ → Bool) × Bytes
class_range lo rest ci chars =
    let hi_at = rx_skip rest in
    let escaped = rx_peek hi_at == 92 in
    let last = if escaped then rx_skip hi_at else hi_at in
    if is_range rest
    then (set_range (rx_peek last + 1 - lo) lo ci chars, rx_skip last)
    else (rx_set_add chars lo ci, rest)

abbrev pub class_escape : Option (ℕ → Bool) → ℕ → Bytes → Bool → (ℕ → Bool) → (ℕ → Bool) × Bytes
class_escape (some chars') e rest ci chars = (chars', rest)
class_escape none e rest ci chars = class_range e rest ci chars

-- One round of the loop over a class, behind its first byte `lo`.
unfoldable pub class_item : ℕ → Bytes → Bool → (ℕ → Bool) → (ℕ → Bool) × Bytes
unfolding rx_escape_class set_range rx_set_add
class_item lo rest ci chars =
    let e = rx_peek rest in
    if lo == 92
    then class_escape (rx_escape_class chars e ci) e (rx_skip rest) ci chars
    else class_range lo rest ci chars

-- The loop over a class: its members, and what is left from `]` on.
unfoldable pub class_loop : ℕ → Bool → Bool → (ℕ → Bool) → Bytes → (ℕ → Bool) × Bytes
unfolding class_item
class_loop zero first ci chars rest = (chars, rest)
class_loop (suc fuel) first ci chars [] = (chars, [])
class_loop (suc fuel) first ci chars (lo ∷ rest) =
    let (chars', left) = class_item lo rest ci chars in
    let again = class_loop fuel false ci chars' left in
    if lo == b']' && not first then (chars, lo ∷ rest) else again

abbrev pub closed : Bool → (ℕ → Bool) × Bytes → ℕ → RxParsed Rx
closed neg (chars, rest) ng =
    if rx_peek rest == b']' then ok (class neg chars) (rx_skip rest) ng else failed

unfoldable pub parse_class : Flags → Bytes → ℕ → RxParsed Rx
unfolding class_loop
parse_class fl rest ng =
    let neg = rx_peek rest == b'^' in
    let body = if neg then rx_skip rest else rest in
    closed neg (class_loop (length body) true fl.ci (λ _. false) body) ng

abbrev pub group_of : ℕ → Rx → Bytes → ℕ → RxParsed Rx
group_of gidx inner rest ng =
    if rx_peek rest == b')' then ok (group gidx (item inner done)) (rx_skip rest) ng else failed

-- Behind `(`; `parse_alt` is rx_parse_alt.
unfoldable pub parse_group : (Bytes → ℕ → RxParsed Rx) → Bytes → ℕ → RxParsed Rx
parse_group parse_alt rest ng =
    if rx_peek rest == b'?'
    then (if rx_peek (rx_skip rest) == b':'
        then and_then (parse_alt (rx_skip (rx_skip rest)) ng) (group_of 0)
        else failed)
    else and_then (parse_alt rest (ng + 1)) (group_of (ng + 1))

abbrev control_char : ℕ → ℕ
control_char e =
    if e == b'n'
    then 10
    else if e == b't'
    then 9
    else if e == b'r'
    then 13
    else if e == b'0'
    then 0
    else e

abbrev escaped_class : Option (ℕ → Bool) → Flags → ℕ → Rx
escaped_class (some chars) fl e = class false chars
escaped_class none fl e = if e == b'b' then bow else char (control_char e) fl.ci

unfoldable pub rx_parse_atom : (Bytes → ℕ → RxParsed Rx) → Flags → Bytes → ℕ → RxParsed Rx
unfolding parse_group parse_class rx_escape_class
rx_parse_atom parse_alt fl pat ng =
    let c = rx_peek pat in
    let rest = rx_skip pat in
    let e = rx_peek rest in
    if c == b'('
    then parse_group parse_alt rest ng
    else if c == b'['
    then parse_class fl rest ng
    else if c == b'.'
    then ok (any fl.dotall) rest ng
    else if c == b'^'
    then ok (bol fl.multiline) rest ng
    else if c == b'$'
    then ok (eol fl.multiline) rest ng
    else if c == 92
    then ok (escaped_class (rx_escape_class (λ _. false) e fl.ci) fl e) (rx_skip rest) ng
    else if c == b'*' || c == b'+' || c == b'?'
    then failed
    else ok (char c fl.ci) rest ng

-- while (isdigit(peek)) n = n * 10 + (next - '0')
unfoldable pub read_count : ℕ → Bytes → ℕ × Bytes
read_count n [] = (n, [])
read_count n (c ∷ rest) =
    let more = read_count (n * 10 + (c - b'0')) rest in if is_digit c then more else (n, c ∷ rest)

-- {m}, {m,} and {m,n}, behind the brace: the bounds and what is left in front of `}`.
unfoldable pub read_bounds : Bytes → (ℕ × Option ℕ) × Bytes
unfolding read_count
read_bounds rest =
    let (mn, rest') = read_count 0 rest in
    let (mx, rest'') = read_count 0 (rx_skip rest') in
    if rx_peek rest' == b','
    then (if is_digit (rx_peek (rx_skip rest'))
        then ((mn, some mx), rest'')
        else ((mn, none), rx_skip rest'))
    else ((mn, some mn), rest')

-- The question mark that makes a repetition lazy.
abbrev pub lazily : Rx → ℕ → Option ℕ → Bytes → ℕ → RxParsed Rx
lazily atom rmin rmax rest ng =
    if rx_peek rest == b'?'
    then ok (rep true rmin rmax atom) (rx_skip rest) ng
    else ok (rep false rmin rmax atom) rest ng

unfoldable pub quantified : Rx → Bytes → ℕ → RxParsed Rx
unfolding read_bounds
quantified atom rest ng =
    let c = rx_peek rest in
    let behind = rx_skip rest in
    let ((mn, mx), left) = read_bounds behind in
    if c == b'*'
    then lazily atom 0 none behind ng
    else if c == b'+'
    then lazily atom 1 none behind ng
    else if c == b'?'
    then lazily atom 0 (some 1) behind ng
    else if c == b'{'
    then (if rx_peek left == b'}' then lazily atom mn mx (rx_skip left) ng else failed)
    else ok atom rest ng

unfoldable pub rx_parse_rep : (Bytes → ℕ → RxParsed Rx) → Flags → Bytes → ℕ → RxParsed Rx
unfolding rx_parse_atom quantified
rx_parse_rep parse_alt fl pat ng = and_then (rx_parse_atom parse_alt fl pat ng) quantified

abbrev ends_seq : Bytes → Bool
ends_seq [] = true
ends_seq (c ∷ rest) = c == b'|' || c == b')'

abbrev pub add_kid : Rx → RxKids → Bytes → ℕ → RxParsed RxKids
add_kid n kids rest ng = ok (item n kids) rest ng

-- The items of a sequence; each reads a byte, so that `fuel` is the length of what is left.
unfoldable pub rx_parse_seq : ℕ → (Bytes → ℕ → RxParsed Rx) → Flags → Bytes → ℕ → RxParsed RxKids
unfolding rx_parse_rep
rx_parse_seq zero parse_alt fl pat ng = if ends_seq pat then ok done pat ng else starved
rx_parse_seq (suc fuel) parse_alt fl pat ng =
    let items =
      and_then (rx_parse_rep parse_alt fl pat ng)
        (λ n rest ng'. and_then (rx_parse_seq fuel parse_alt fl rest ng') (add_kid n)) in
    if ends_seq pat then ok done pat ng else items

-- The loop over the branches behind the first.
unfoldable pub rx_branches : ℕ → (Bytes → ℕ → RxParsed Rx) → Flags → Bytes → ℕ → RxParsed RxAlts
unfolding rx_parse_seq
rx_branches zero parse_alt fl pat ng = if rx_peek pat == b'|' then starved else ok fail pat ng
rx_branches (suc fuel) parse_alt fl pat ng =
    let rest = rx_skip pat in
    let others = and_then (rx_parse_seq (length rest) parse_alt fl rest ng) (λ kids rest' ng'.
      and_then (rx_branches fuel parse_alt fl rest' ng') (λ alts. ok (branch kids alts))) in
    if rx_peek pat == b'|' then others else ok fail pat ng

abbrev pub alternatives : RxKids → RxAlts → Rx
alternatives first fail = seq first
alternatives first (branch kids alts) = alt (branch first (branch kids alts))

-- `fuel` is the depth of groups that it can open.
unfoldable pub rx_parse_alt : ℕ → Flags → Bytes → ℕ → RxParsed Rx
unfolding rx_parse_seq rx_branches
rx_parse_alt zero fl pat ng = starved
rx_parse_alt (suc fuel) fl pat ng =
    and_then (rx_parse_seq (length pat) (rx_parse_alt fuel fl) fl pat ng) (λ first rest ng'.
      and_then (rx_branches (length rest) (rx_parse_alt fuel fl) fl rest ng')
        (λ alts. ok (alternatives first alts)))

-- s[1] ... s[n - 1] from the end, for the delimiter: its place.
unfoldable pub find_end : Bytes → ℕ → ℕ → Option ℕ
find_end s delim zero = none
find_end s delim (suc i) =
    let before = find_end s delim i in
    if i == 0 then none else if byte_at s i == delim then some i else before

abbrev has_byte : ℕ → Bytes → Bool
has_byte c [] = false
has_byte c (b ∷ s) = b == c || has_byte c s

abbrev flags_of : Bytes → Flags
flags_of s = record { ci = has_byte b'i' s; dotall = has_byte b's' s; multiline = has_byte b'm' s }

abbrev get_end : Option ℕ → ℕ → ℕ
get_end none n = n
get_end (some i) n = i

-- The flags and the body of a pattern.
unfoldable pub split_body : Bytes → Flags × Bytes
unfolding find_end
split_body s =
    let n = length s in
    let delim = rx_peek s in
    let delimited = leb 2 n && not (is_alnum delim) && not (delim == 92) && not (is_space delim) in
    let last = get_end (find_end s delim n) n in
    if delimited && leb 2 last
    then (flags_of (drop (last + 1) s), take (last - 1) (drop 1 s))
    else (flags_of [], s)

-- The tree and its groups, if the whole body was read.
abbrev whole_tree : RxParsed Rx → Option (Rx × ℕ)
whole_tree (ok tree [] ng) = some (tree, ng)
whole_tree (ok tree (c ∷ rest) ng) = none
whole_tree failed = none
whole_tree starved = none

unfoldable pub rx_split_pattern : Bytes → Option (Rx × ℕ)
unfolding split_body rx_parse_alt
rx_split_pattern s =
    let (fl, body) = split_body s in whole_tree (rx_parse_alt (length body + 1) fl body 0)
