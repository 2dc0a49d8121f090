-- ===== src/Runtime/Regex/Meaning/Bounds.antt =====
-- Where a match of an expression of src/hphpc/runtime/hphp_std.c can end, and how few rounds of a
-- repetition give the same end.
use mathlib.Core.Path.{subst}
use native.Mathlib.Nat.{le_refl, le_trans}
use holyphp.Prelude.{
  Bool, Bytes, arith, dec_lt, inl, inr, length, not, suc, zero, ℕ, ◌+◌, ◌-◌, ◌<◌, ◌==◌, ◌||◌, ◌≡◌,
  ◌≤◌,
}
use holyphp.Runtime.Regex.{
  Rx, RxAlts, RxKids, alt, any, at_bol, at_bow, at_eol, bol, bow, branch, char, class, done, eol,
  fail, group, in_class, item, rep, same_char, seq,
}
use holyphp.Runtime.Regex.Meaning.{Holds, Iterates, Matches, MatchesAlt, MatchesSeq, OneByte}

-- A match ends behind its begin, and inside the subject if it begins there.
abbrev pub Within : Bytes → (ℕ → ℕ → Type 0) → Type 0
Within s M = (pos e : ℕ) → M pos e → (pos ≤ e) × (pos ≤ length s → e ≤ length s)

one_within : (ok : ℕ → Bool) (s : Bytes) → Within s (OneByte ok s)
one_within ok s pos e (short, _, next) = (omega arith, λ _. omega arith)

Holds-within : (s : Bytes) (test : ℕ → Bool) → Within s (λ pos e. Holds (test pos) pos e)
Holds-within s test pos e (_, same) = (omega arith, λ h. omega arith)

seq_within :
    (s : Bytes) (M N : ℕ → ℕ → Type 0)
    → Within s M
    → Within s N
    → Within s (λ pos e. (q : ℕ) × M pos q × N q e)
seq_within s M N hm hn pos e (q, m, n) =
    let (first, inside) = hm pos q m in
    let (second, inside') = hn q e n in (le_trans first second, λ h. inside' (inside h))

pub Iterates-within :
    (s : Bytes) (M : ℕ → ℕ → Type 0) → Within s M → (n : ℕ) → Within s (Iterates M n)
Iterates-within s M hm zero pos e same = (omega arith, λ h. omega arith)
Iterates-within s M hm (suc n) pos e its =
    seq_within s M (Iterates M n) hm (Iterates-within s M hm n) pos e its

mutual
  unfolding Matches MatchesSeq MatchesAlt

  matches_within : (s : Bytes) (n : Rx) → Within s (Matches s n)
  matches_within s (char ch ci) pos e m = one_within (same_char ch ci) s pos e m
  matches_within s (any dotall) pos e m = one_within (λ b. dotall || not (b == 10)) s pos e m
  matches_within s (class neg chars) pos e m = one_within (in_class neg chars) s pos e m
  matches_within s (bol multiline) pos e m = Holds-within s (at_bol multiline s) pos e m
  matches_within s (eol multiline) pos e m = Holds-within s (at_eol multiline s) pos e m
  matches_within s bow pos e m = Holds-within s (at_bow s) pos e m
  matches_within s (seq kids) pos e m = kids_within s kids pos e m
  matches_within s (alt kids) pos e m = alts_within s kids pos e m
  matches_within s (rep lazy rmin rmax child) pos e (n, _, _, its) =
      Iterates-within s (Matches s child) (matches_within s child) n pos e its
  matches_within s (group g kids) pos e m = kids_within s kids pos e m

  kids_within : (s : Bytes) (kids : RxKids) → Within s (MatchesSeq s kids)
  kids_within s done pos e same = (omega arith, λ h. omega arith)
  kids_within s (item n kids) pos e m =
      seq_within s (Matches s n) (MatchesSeq s kids) (matches_within s n) (kids_within s kids) pos e
        m

  alts_within : (s : Bytes) (kids : RxAlts) → Within s (MatchesAlt s kids)
  alts_within s fail pos e m = absurd m
  alts_within s (branch kids rest) pos e (inl m) = kids_within s kids pos e m
  alts_within s (branch kids rest) pos e (inr m) = alts_within s rest pos e m

pub Matches-Within : (s : Bytes) (n : Rx) → Within s (Matches s n)
Matches-Within s n pos e m = matches_within s n pos e m

-- Rounds that read nothing can be left out down to `rmin`: so many rounds are enough.
abbrev Shorter : (ℕ → ℕ → Type 0) → ℕ → ℕ → ℕ → ℕ → Type 0
Shorter M rmin n pos e =
    (m : ℕ) × (rmin ≤ m) × (m ≤ n) × (m ≤ rmin + (e - pos)) × Iterates M m pos e

module _ (s : Bytes) (M : ℕ → ℕ → Type 0) (within : Within s M) where
  -- A round in front of rounds that are few already.
  round_in_front :
      (n rmin pos q e : ℕ)
      → pos < q
      → M pos q
      → q ≤ e
      → Shorter M (rmin - 1) n q e
      → Shorter M rmin (suc n) pos e
  round_in_front n rmin pos q e lt m le (j, least, most, few, its) =
      (suc j, omega arith, omega arith, omega arith, (q, m, its))

  pub shorten : (n rmin pos e : ℕ) → rmin ≤ n → Iterates M n pos e → Shorter M rmin n pos e
  shorten zero rmin pos e least its = (0, least, omega arith, omega arith, its)
  shorten (suc n) rmin pos e least (q, m, its) =
      let (le, _) = within pos q m in
      let (le', _) = Iterates-within s M within n q e its in
      let shorter : (r : ℕ) → r ≤ n → Shorter M r n q e = λ r h. shorten n r q e h its in
      elim (dec_lt pos q) [
        | yes lt ↦ round_in_front n rmin pos q e lt m le' (shorter (rmin - 1) (omega arith))
        | no ge ↦ elim (dec_lt n rmin) [
          | yes all ↦ (suc n, least, le_refl (suc n), omega arith, (q, m, its))
          | no fewer ↦
              let same : q ≡ pos = omega arith in
              let (j, l, most, few, js) = shorter rmin (omega arith) in
              (j, l, omega arith, omega arith, subst (λ p. Iterates M j p e) same js)
        ]
      ]
