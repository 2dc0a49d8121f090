-- ===== src/Runtime/Regex.antt =====
-- The matcher of the regular expressions of src/hphpc/runtime/hphp_std.c: the tree `Rx`, rx_m,
-- rx_m_seq, rx_m_rep_at, rx_k, rx_run and rx_search.
-- A `Cont` is the function that rx_k makes of it: C_SEQ and C_REP are the calls of rx_m_seq and
-- rx_m_rep_at that they stand for, C_GRP is `rx_k_group`, and C_DONE is `rx_k_done`. The subject is a
-- byte string, whose byte at its length is the NUL that ends it. A pattern has at most 31 groups that
-- capture: the source writes past its arrays of 32 entries at more, the model writes nothing.
pub mod Fails
pub mod Meaning
pub mod Spans
pub mod Parse
pub mod Preg
pub mod Search
mod Tests
use holyphp.Prelude.{
  Bool, Bytes, List, Option, false, get_or, if◌then◌else◌, is_alnum, is_upper, leb, length, ltb,
  none, not, replicate, set, some, suc, true, zero, ℕ, ◌&&◌, ◌+◌, ◌-◌, ◌==◌, ◌||◌,
}

mutual
  -- The fields that the matcher reads. `rmax` is none where the source has -1.
  pub data Rx : Type 0 where
    char : ℕ → Bool → Rx
    any : Bool → Rx
    class : Bool → (ℕ → Bool) → Rx
    bol : Bool → Rx
    eol : Bool → Rx
    bow : Rx
    seq : RxKids → Rx
    alt : RxAlts → Rx
    rep : Bool → ℕ → Option ℕ → Rx → Rx
    group : ℕ → RxKids → Rx

  -- The kids of a node of kind RX_SEQ.
  pub data RxKids : Type 0 where
    done : RxKids
    item : Rx → RxKids → RxKids

  -- The kids of a node of kind RX_ALT, each with the kids of its own.
  pub data RxAlts : Type 0 where
    fail : RxAlts
    branch : RxKids → RxAlts → RxAlts

-- cap_s and cap_e, which are written together: `none` is (size_t)-1 in both.
pub record RxCtx : Type 0 where
  pub caps : List (Option (ℕ × ℕ))
  pub end : ℕ

abbrev pub Result : Type 0
Result = Bool × RxCtx

abbrev pub Cont : Type 0
Cont = ℕ → RxCtx → Result

-- `if (a) return true;` in front of what follows it.
abbrev pub or_try : Result → (RxCtx → Result) → Result
or_try (true, c) rest = (true, c)
or_try (false, c) rest = rest c

abbrev pub tolower : ℕ → ℕ
tolower c = if is_upper c then c + 32 else c

abbrev pub rx_is_word : ℕ → Bool
rx_is_word c = is_alnum c || c == b'_'

-- c->s[pos]
abbrev pub byte_at : Bytes → ℕ → ℕ
byte_at s pos = get_or s pos 0

-- What follows a test that returns false where it fails.
abbrev pub when : Bool → RxCtx → (RxCtx → Result) → Result
when true c rest = rest c
when false c rest = (false, c)

-- A node for one byte.
unfoldable pub one : (ℕ → Bool) → Bytes → ℕ → RxCtx → Cont → Result
one ok s pos c k =
    when (ltb pos (length s)) c (λ d. when (ok (byte_at s pos)) d (λ d'. k (pos + 1) d'))

abbrev pub same_char : ℕ → Bool → ℕ → Bool
same_char ch ci b = if ci then tolower b == tolower ch else b == ch

abbrev pub in_class : Bool → (ℕ → Bool) → ℕ → Bool
in_class neg chars b = if chars b then not neg else neg

abbrev pub at_bol : Bool → Bytes → ℕ → Bool
at_bol multiline s pos = pos == 0 || multiline && byte_at s (pos - 1) == 10

abbrev pub at_eol : Bool → Bytes → ℕ → Bool
at_eol multiline s pos = pos == length s || multiline && byte_at s pos == 10

abbrev pub at_bow : Bytes → ℕ → Bool
at_bow s pos =
    let before = ltb 0 pos && rx_is_word (byte_at s (pos - 1)) in
    let after = ltb pos (length s) && rx_is_word (byte_at s pos) in
    if before then not after else after

-- rx_k at C_DONE.
unfoldable pub rx_k_done : Cont
rx_k_done pos c = (true, record c { end = pos })

abbrev pub with_span : RxCtx → ℕ → Option (ℕ × ℕ) → RxCtx
with_span c gidx span = record c { caps = set c.caps gidx span }

abbrev pub restore : ℕ → Option (ℕ × ℕ) → Result → Result
restore gidx old (true, c) = (true, c)
restore gidx old (false, c) = (false, with_span c gidx old)

-- rx_k at C_GRP, which is made for a group that captures.
unfoldable pub rx_k_group : ℕ → ℕ → Cont → Cont
rx_k_group gidx start next pos c =
    restore gidx (get_or c.caps gidx none) (next pos (with_span c gidx (some (start, pos))))

abbrev pub may_repeat : Option ℕ → ℕ → Bool
may_repeat none count = true
may_repeat (some rmax) count = leb (count + 1) rmax

-- `left` is iter_cap - count, and `body` is rx_m on the child.
unfoldable pub rx_m_rep_at :
    (ℕ → RxCtx → Cont → Result) → Bool → ℕ → Option ℕ → ℕ → ℕ → ℕ → RxCtx → Cont → Result
rx_m_rep_at body lazy rmin rmax zero count pos c k = when (leb rmin count) c (k pos)
rx_m_rep_at body lazy rmin rmax (suc left) count pos c k =
    let step : Cont = λ p d. rx_m_rep_at body lazy rmin rmax left (count + 1) p d k in
    let more : RxCtx → Result = λ d. when (may_repeat rmax count) d (λ d'. body pos d' step) in
    let stop : RxCtx → Result = λ d. when (leb rmin count) d (k pos) in
    if lazy then or_try (stop c) more else or_try (more c) stop

unfoldable mutual
  pub rx_m : Bytes → Rx → ℕ → RxCtx → Cont → Result
  rx_m s (char ch ci) pos c k = one (same_char ch ci) s pos c k
  rx_m s (any dotall) pos c k = one (λ b. dotall || not (b == 10)) s pos c k
  rx_m s (class neg chars) pos c k = one (in_class neg chars) s pos c k
  rx_m s (bol multiline) pos c k = when (at_bol multiline s pos) c (k pos)
  rx_m s (eol multiline) pos c k = when (at_eol multiline s pos) c (k pos)
  rx_m s bow pos c k = when (at_bow s pos) c (k pos)
  rx_m s (seq kids) pos c k = rx_m_seq s kids pos c k
  rx_m s (alt kids) pos c k = rx_m_alt s kids pos c k
  rx_m s (rep lazy rmin rmax child) pos c k =
      rx_m_rep_at (rx_m s child) lazy rmin rmax (length s + rmin + 2) 0 pos c k
  rx_m s (group zero kids) pos c k = rx_m_seq s kids pos c k
  rx_m s (group (suc g) kids) pos c k = rx_m_seq s kids pos c (rx_k_group (suc g) pos k)

  pub rx_m_seq : Bytes → RxKids → ℕ → RxCtx → Cont → Result
  rx_m_seq s done pos c k = k pos c
  rx_m_seq s (item n kids) pos c k = rx_m s n pos c (λ p d. rx_m_seq s kids p d k)

  -- The loop over the kids of RX_ALT.
  pub rx_m_alt : Bytes → RxAlts → ℕ → RxCtx → Cont → Result
  rx_m_alt s fail pos c k = (false, c)
  rx_m_alt s (branch kids rest) pos c k =
      or_try (rx_m_seq s kids pos c k) (λ d. rx_m_alt s rest pos d k)

abbrev pub no_match : RxCtx
no_match = record { caps = replicate 32 none; end = 0 }

-- The end of the match is in the context.
unfoldable pub rx_run : Rx → Bytes → ℕ → Result
rx_run tree s off = rx_m s tree off no_match rx_k_done

abbrev pub found : ℕ → Result → Option (ℕ × RxCtx) → Option (ℕ × RxCtx)
found off (true, c) rest = some (off, c)
found off (false, c) rest = rest

-- The loop of rx_search over the offsets from `off`, `rounds` of them: where the match begins, and its
-- context.
unfoldable pub search_from : Rx → Bytes → ℕ → ℕ → Option (ℕ × RxCtx)
search_from tree s zero off = none
search_from tree s (suc rounds) off =
    let rest = search_from tree s rounds (off + 1) in found off (rx_run tree s off) rest

unfoldable pub rx_search : Rx → Bytes → ℕ → Option (ℕ × RxCtx)
unfolding search_from
rx_search tree s off = search_from tree s (length s + 1 - off) off
