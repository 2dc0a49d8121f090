-- ===== src/Runtime/Regex/Meaning/Sound.antt =====
-- A match that rx_m of src/hphpc/runtime/hphp_std.c finds is one of the expression.
use mathlib.Core.Path.{subst}
use native.Mathlib.Nat.{zero-add}
use holyphp.Prelude.{
  Bool, Bytes, Option, arith, false, get_or, inl, inr, leb, leb→le, length, ltb, ltb→lt, none, not,
  refl, some, suc, sym, true, zero, ℕ, ◌+◌, ◌==◌, ◌||◌, ◌∙◌, ◌≡◌, ◌≤◌, ◌⊎◌,
}
use holyphp.Runtime.Regex.{
  Cont, Result, Rx, RxAlts, RxCtx, RxKids, alt, any, at_bol, at_bow, at_eol, bol, bow, branch,
  byte_at, char, class, done, eol, fail, group, in_class, item, may_repeat, one, or_try, rep,
  restore, rx_k_group, rx_m, rx_m_alt, rx_m_rep_at, rx_m_seq, same_char, seq, when, with_span,
}
use holyphp.Runtime.Regex.Meaning.{
  AtMost, Holds, Iterates, Matches, MatchesAlt, MatchesSeq, OneByte,
}

-- The continuation was called at an end of a match, and its result is the result.
abbrev Reached : (ℕ → Type 0) → Cont → Result → Type 0
Reached Ends k r = (e : ℕ) × (d : RxCtx) × Ends e × (k e d ≡ r)

-- What a matcher finds are the matches `M`.
abbrev SoundFor : (ℕ → ℕ → Type 0) → (ℕ → RxCtx → Cont → Result) → Type 0
SoundFor M f =
    (pos : ℕ) (c : RxCtx) (k : Cont) → (f pos c k).0 ≡ true → Reached (M pos) k (f pos c k)

when-true :
    (b : Bool) (c : RxCtx) (rest : RxCtx → Result)
    → (when b c rest).0 ≡ true
    → (b ≡ true) × (when b c rest ≡ rest c)
when-true true c rest h = (refl, refl)
when-true false c rest h = absurd (cc)

or_try_cases :
    (r : Result) (rest : RxCtx → Result)
    → (or_try r rest).0 ≡ true
    → ((r.0 ≡ true) × (or_try r rest ≡ r))
      ⊎ ((d : RxCtx) × ((rest d).0 ≡ true) × (or_try r rest ≡ rest d))
or_try_cases (true, c) rest h = inl (refl, refl)
or_try_cases (false, c) rest h = inr (c, h, refl)

succeeds : {r r' : Result} → r ≡ r' → r.0 ≡ true → r'.0 ≡ true
succeeds e h = subst (λ (r : Result). r.0 ≡ true) e h

when_sound :
    (test : Bool) (pos : ℕ) (c : RxCtx) (k : Cont)
    → (when test c (k pos)).0 ≡ true
    → Reached (Holds test pos) k (when test c (k pos))
when_sound test pos c k h =
    let (e, same) = when-true test c (k pos) h in (pos, c, (e, refl), sym same)

one_sound : (ok : ℕ → Bool) (s : Bytes) → SoundFor (OneByte ok s) (one ok s)
unfolding one
one_sound ok s pos c k h =
    let inner : RxCtx → Result = λ d. when (ok (byte_at s pos)) d (λ d'. k (pos + 1) d') in
    let (short, same) = when-true (ltb pos (length s)) c inner h in
    let (passes, same') = when-true (ok (byte_at s pos)) c (k (pos + 1)) (succeeds same h) in
    (pos + 1, c, (ltb→lt pos (length s) short, passes, refl), sym (same ∙ same'))

-- A first match in front of the others.
seq_sound :
    (M N : ℕ → ℕ → Type 0) (f g : ℕ → RxCtx → Cont → Result)
    → SoundFor M f
    → SoundFor N g
    → SoundFor (λ pos e. (q : ℕ) × M pos q × N q e) (λ pos c k. f pos c (λ p d. g p d k))
seq_sound M N f g hf hg pos c k h =
    let (q, d, m, same) = hf pos c (λ p d. g p d k) h in
    let (e, d', n, same') = hg q d k (succeeds (sym same) h) in (e, d', (q, m, n), same' ∙ same)

alt_sound :
    (M N : ℕ → ℕ → Type 0) (f g : ℕ → RxCtx → Cont → Result)
    → SoundFor M f
    → SoundFor N g
    → SoundFor (λ pos e. M pos e ⊎ N pos e) (λ pos c k. or_try (f pos c k) (λ d. g pos d k))
alt_sound M N f g hf hg pos c k h = elim (or_try_cases (f pos c k) (λ d. g pos d k) h) [
  | inl (t, same) ↦ let (e, d, m, r) = hf pos c k t in (e, d, inl m, r ∙ sym same)
  | inr (d, t, same) ↦ let (e, d', m, r) = hg pos d k t in (e, d', inr m, r ∙ sym same)
]

group_sound :
    (M : ℕ → ℕ → Type 0) (f : ℕ → RxCtx → Cont → Result) (g : ℕ)
    → SoundFor M f
    → SoundFor M (λ pos c k. f pos c (rx_k_group g pos k))
unfolding rx_k_group
group_sound M f g hf pos c k h =
    let (e, d, m, same) = hf pos c (rx_k_group g pos k) h in
    let inner = with_span d g (some (pos, e)) in
    let old = get_or d.caps g none in
    (e, inner, m, sym (restored (k e inner) old (succeeds (sym same) h)) ∙ same)
  where
    restored :
        (r : Result) (old : Option (ℕ × ℕ)) → (restore g old r).0 ≡ true → restore g old r ≡ r
    restored (true, c) old h = refl
    restored (false, c) old h = absurd (cc)

may_repeat-AtMost :
    (rmax : Option ℕ) (count : ℕ) → may_repeat rmax count ≡ true → AtMost (count + 1) rmax
may_repeat-AtMost none count h = tt
may_repeat-AtMost (some rmax) count h = leb→le (count + 1) rmax h

either_sound :
    (M : ℕ → ℕ → Type 0) (f g : ℕ → RxCtx → Cont → Result)
    → SoundFor M f
    → SoundFor M g
    → SoundFor M (λ pos c k. or_try (f pos c k) (λ d. g pos d k))
either_sound M f g hf hg pos c k h =
    let (e, d, m, r) = alt_sound M M f g hf hg pos c k h in (e, d, either m, r)
  where
    either : {A : Type 0} → A ⊎ A → A
    either (inl a) = a
    either (inr a) = a

module _ (M : ℕ → ℕ → Type 0) (body : ℕ → RxCtx → Cont → Result) (body_sound : SoundFor M body)
    (rmin : ℕ) (rmax : Option ℕ) where
  -- What is left to match after `count` rounds.
  abbrev Rounds : ℕ → ℕ → ℕ → Type 0
  Rounds count pos e = (n : ℕ) × (rmin ≤ count + n) × AtMost (count + n) rmax × Iterates M n pos e

  stop_sound :
      (count : ℕ)
      → AtMost count rmax
      → SoundFor (Rounds count) (λ pos c k. when (leb rmin count) c (k pos))
  stop_sound count most pos c k h =
      let (enough, same) = when-true (leb rmin count) c (k pos) h in
      let zero_more : count + 0 ≡ count = omega arith in
      let least = leb→le rmin count enough in
      (pos, c, (0, omega arith, subst (λ n. AtMost n rmax) (sym zero_more) most, refl), sym same)

  again : (count : ℕ) (f : ℕ → RxCtx → Cont → Result) → ℕ → RxCtx → Cont → Result
  again count f pos c k = when (may_repeat rmax count) c (λ d. body pos d (λ p d'. f p d' k))

  again_sound :
      (count : ℕ) (f : ℕ → RxCtx → Cont → Result)
      → (AtMost (count + 1) rmax → SoundFor (Rounds (count + 1)) f)
      → SoundFor (Rounds count) (again count f)
  unfolding again
  again_sound count f hf pos c k h =
      let rest : RxCtx → Result = λ d. body pos d (λ p d'. f p d' k) in
      let (more, same) = when-true (may_repeat rmax count) c rest h in
      let most = may_repeat-AtMost rmax count more in
      let (e, d, (q, m, its'), r) =
        seq_sound M (Rounds (count + 1)) body f body_sound (hf most) pos c k (succeeds same h) in
      let (n, least, at_most, its) = its' in
      let one_more : count + 1 + n ≡ count + suc n = omega arith in
      (
        e,
        d,
        (suc n, omega arith, subst (λ j. AtMost j rmax) one_more at_most, (q, m, its)),
        r ∙ sym same,
      )

  rep_sound :
      (lazy : Bool) (left count : ℕ)
      → AtMost count rmax
      → SoundFor (Rounds count) (rx_m_rep_at body lazy rmin rmax left count)
  unfolding rx_m_rep_at again
  rep_sound lazy zero count most pos c k h = stop_sound count most pos c k h
  rep_sound true (suc left) count most pos c k h =
      either_sound (Rounds count) (λ p d j. when (leb rmin count) d (j p))
        (again count (rx_m_rep_at body true rmin rmax left (count + 1))) (stop_sound count most)
        (again_sound count _ (rep_sound true left (count + 1))) pos c k h
  rep_sound false (suc left) count most pos c k h =
      either_sound (Rounds count) (again count (rx_m_rep_at body false rmin rmax left (count + 1)))
        (λ p d j. when (leb rmin count) d (j p))
        (again_sound count _ (rep_sound false left (count + 1))) (stop_sound count most) pos c k h

no_rounds : (rmax : Option ℕ) → AtMost 0 rmax
no_rounds none = tt
no_rounds (some rmax) = omega arith

mutual
  unfolding rx_m rx_m_seq rx_m_alt Matches MatchesSeq MatchesAlt

  rx_m_sound : (s : Bytes) (n : Rx) → SoundFor (Matches s n) (rx_m s n)
  rx_m_sound s (char ch ci) pos c k h = one_sound (same_char ch ci) s pos c k h
  rx_m_sound s (any dotall) pos c k h = one_sound (λ b. dotall || not (b == 10)) s pos c k h
  rx_m_sound s (class neg chars) pos c k h = one_sound (in_class neg chars) s pos c k h
  rx_m_sound s (bol multiline) pos c k h = when_sound (at_bol multiline s pos) pos c k h
  rx_m_sound s (eol multiline) pos c k h = when_sound (at_eol multiline s pos) pos c k h
  rx_m_sound s bow pos c k h = when_sound (at_bow s pos) pos c k h
  rx_m_sound s (seq kids) pos c k h = seq_kids_sound s kids pos c k h
  rx_m_sound s (alt kids) pos c k h = alt_kids_sound s kids pos c k h
  rx_m_sound s (rep lazy rmin rmax child) pos c k h =
      let loop = rep_sound (Matches s child) (rx_m s child) (rx_m_sound s child) rmin rmax in
      let (e, d, rounds, r) = loop lazy (length s + rmin + 2) 0 (no_rounds rmax) pos c k h in
      let (n, least, most, its) = rounds in
      (e, d, (n, omega arith, subst (λ j. AtMost j rmax) (zero-add n) most, its), r)
  rx_m_sound s (group zero kids) pos c k h = seq_kids_sound s kids pos c k h
  rx_m_sound s (group (suc g) kids) pos c k h =
      group_sound (MatchesSeq s kids) (rx_m_seq s kids) (suc g) (seq_kids_sound s kids) pos c k h

  seq_kids_sound : (s : Bytes) (kids : RxKids) → SoundFor (MatchesSeq s kids) (rx_m_seq s kids)
  seq_kids_sound s done pos c k h = (pos, c, refl, refl)
  seq_kids_sound s (item n kids) pos c k h =
      seq_sound (Matches s n) (MatchesSeq s kids) (rx_m s n) (rx_m_seq s kids) (rx_m_sound s n)
        (seq_kids_sound s kids) pos c k h

  alt_kids_sound : (s : Bytes) (kids : RxAlts) → SoundFor (MatchesAlt s kids) (rx_m_alt s kids)
  alt_kids_sound s fail pos c k h = absurd (cc)
  alt_kids_sound s (branch kids rest) pos c k h =
      alt_sound (MatchesSeq s kids) (MatchesAlt s rest) (rx_m_seq s kids) (rx_m_alt s rest)
        (seq_kids_sound s kids) (alt_kids_sound s rest) pos c k h

-- A match that rx_m finds is one of the expression, and what follows it was tried at its end.
pub rx_m-Matches :
    (s : Bytes) (n : Rx) (pos : ℕ) (c : RxCtx) (k : Cont)
    → (rx_m s n pos c k).0 ≡ true
    → (e : ℕ) × (d : RxCtx) × Matches s n pos e × (k e d ≡ rx_m s n pos c k)
rx_m-Matches s n pos c k h = rx_m_sound s n pos c k h
