-- ===== src/Runtime/Regex/Meaning.antt =====
-- What a regular expression of src/hphpc/runtime/hphp_std.c means: the places where a match of a node
-- may end, and the matcher with its backtracking against it.
pub mod Bounds
pub mod Sound
pub mod Complete
use holyphp.Prelude.{
  Bool, Bytes, Option, length, none, not, some, suc, true, zero, ℕ, ◌+◌, ◌<◌, ◌==◌, ◌||◌, ◌≡◌, ◌≤◌,
  ◌⊎◌,
}
use holyphp.Runtime.Regex.{
  Rx, RxAlts, RxKids, alt, any, at_bol, at_bow, at_eol, bol, bow, branch, byte_at, char, class,
  done, eol, fail, group, in_class, item, rep, same_char, seq,
}

-- `n` matches in a row.
abbrev pub Iterates : (ℕ → ℕ → Type 0) → ℕ → ℕ → ℕ → Type 0
Iterates M zero pos e = pos ≡ e
Iterates M (suc n) pos e = (q : ℕ) × M pos q × Iterates M n q e

abbrev pub AtMost : ℕ → Option ℕ → Type 0
AtMost n none = Unit
AtMost n (some rmax) = n ≤ rmax

-- One byte of the subject that passes a test.
abbrev pub OneByte : (ℕ → Bool) → Bytes → ℕ → ℕ → Type 0
OneByte ok s pos e = (pos < length s) × (ok (byte_at s pos) ≡ true) × (e ≡ pos + 1)

abbrev pub Holds : Bool → ℕ → ℕ → Type 0
Holds test pos e = (test ≡ true) × (pos ≡ e)

unfoldable mutual
  -- `Matches s n pos e`: the node matches the bytes of the subject from `pos` to `e`.
  pub Matches : Bytes → Rx → ℕ → ℕ → Type 0
  Matches s (char ch ci) pos e = OneByte (same_char ch ci) s pos e
  Matches s (any dotall) pos e = OneByte (λ b. dotall || not (b == 10)) s pos e
  Matches s (class neg chars) pos e = OneByte (in_class neg chars) s pos e
  Matches s (bol multiline) pos e = Holds (at_bol multiline s pos) pos e
  Matches s (eol multiline) pos e = Holds (at_eol multiline s pos) pos e
  Matches s bow pos e = Holds (at_bow s pos) pos e
  Matches s (seq kids) pos e = MatchesSeq s kids pos e
  Matches s (alt kids) pos e = MatchesAlt s kids pos e
  Matches s (rep lazy rmin rmax child) pos e =
      (n : ℕ) × (rmin ≤ n) × AtMost n rmax × Iterates (Matches s child) n pos e
  Matches s (group g kids) pos e = MatchesSeq s kids pos e

  pub MatchesSeq : Bytes → RxKids → ℕ → ℕ → Type 0
  MatchesSeq s done pos e = pos ≡ e
  MatchesSeq s (item n kids) pos e = (q : ℕ) × Matches s n pos q × MatchesSeq s kids q e

  pub MatchesAlt : Bytes → RxAlts → ℕ → ℕ → Type 0
  MatchesAlt s fail pos e = ⊥
  MatchesAlt s (branch kids rest) pos e = MatchesSeq s kids pos e ⊎ MatchesAlt s rest pos e
