-- ===== src/Runtime/Regex/Meaning/Complete.antt =====
-- rx_m of src/hphpc/runtime/hphp_std.c finds a match wherever the expression has one.
use mathlib.Core.Path.{subst}
use holyphp.Prelude.{
  Bool, Bytes, Option, arith, false, get_or, inl, inr, leb, length, ltb, lt→ltb, none, not, refl,
  some, suc, sym, true, zero, ℕ, ◌+◌, ◌==◌, ◌||◌, ◌≡◌, ◌≤◌,
}
use holyphp.Runtime.Regex.{
  Cont, Result, Rx, RxAlts, RxCtx, RxKids, alt, any, at_bol, at_bow, at_eol, bol, bow, branch,
  byte_at, char, class, done, eol, fail, group, in_class, item, may_repeat, one, or_try, rep,
  restore, rx_k_group, rx_m, rx_m_alt, rx_m_rep_at, rx_m_seq, same_char, seq, when, with_span,
}
use holyphp.Runtime.Regex.Meaning.{
  AtMost, Holds, Iterates, Matches, MatchesAlt, MatchesSeq, OneByte,
}
use holyphp.Runtime.Regex.Meaning.Bounds.{Matches-Within, Within, Iterates-within, shorten}

abbrev pub Accepts : Cont → ℕ → Type 0
Accepts k e = (d : RxCtx) → (k e d).0 ≡ true

-- A matcher succeeds where a match of `M` ends at a place that the continuation accepts.
abbrev CompleteFor : Bytes → (ℕ → ℕ → Type 0) → (ℕ → RxCtx → Cont → Result) → Type 0
CompleteFor s M f =
    (pos e : ℕ) (c : RxCtx) (k : Cont)
    → pos ≤ length s
    → M pos e
    → Accepts k e
    → (f pos c k).0 ≡ true

or_try_left : (r : Result) (rest : RxCtx → Result) → r.0 ≡ true → (or_try r rest).0 ≡ true
or_try_left (true, c) rest h = refl
or_try_left (false, c) rest h = absurd (cc)

or_try_right :
    (r : Result) (rest : RxCtx → Result)
    → ((d : RxCtx) → (rest d).0 ≡ true)
    → (or_try r rest).0 ≡ true
or_try_right (true, c) rest h = refl
or_try_right (false, c) rest h = h c

when_complete :
    (test : Bool) (c : RxCtx) (rest : RxCtx → Result)
    → test ≡ true
    → (rest c).0 ≡ true
    → (when test c rest).0 ≡ true
when_complete true c rest e h = h
when_complete false c rest e h = absurd (cc)

Holds-complete :
    (s : Bytes) (test : ℕ → Bool)
    → CompleteFor s (λ pos e. Holds (test pos) pos e) (λ pos c k. when (test pos) c (k pos))
Holds-complete s test pos e c k inside (t, same) h =
    when_complete (test pos) c (k pos) t (subst (λ p. (k p c).0 ≡ true) (sym same) (h c))

one_complete : (ok : ℕ → Bool) (s : Bytes) → CompleteFor s (OneByte ok s) (one ok s)
unfolding one
one_complete ok s pos e c k inside (short, passes, same) h =
    let inner : RxCtx → Result = λ d. when (ok (byte_at s pos)) d (λ d'. k (pos + 1) d') in
    let at_end = subst (λ p. (k p c).0 ≡ true) same (h c) in
    when_complete (ltb pos (length s)) c inner (lt→ltb pos (length s) short)
      (when_complete (ok (byte_at s pos)) c (k (pos + 1)) passes at_end)

seq_complete :
    (s : Bytes) (M N : ℕ → ℕ → Type 0) (f g : ℕ → RxCtx → Cont → Result)
    → Within s M
    → CompleteFor s M f
    → CompleteFor s N g
    → CompleteFor s (λ pos e. (q : ℕ) × M pos q × N q e) (λ pos c k. f pos c (λ p d. g p d k))
seq_complete s M N f g within hf hg pos e c k inside (q, m, n) h =
    let (_, stays) = within pos q m in
    let next = stays inside in hf pos q c (λ p d. g p d k) inside m (λ d. hg q e d k next n h)

restore-true : (g : ℕ) (old : Option (ℕ × ℕ)) (r : Result) → r.0 ≡ true → (restore g old r).0 ≡ true
restore-true g old (true, c) h = refl
restore-true g old (false, c) h = h

group_complete :
    (s : Bytes) (M : ℕ → ℕ → Type 0) (f : ℕ → RxCtx → Cont → Result) (g : ℕ)
    → CompleteFor s M f
    → CompleteFor s M (λ pos c k. f pos c (rx_k_group g pos k))
unfolding rx_k_group
group_complete s M f g hf pos e c k inside m h = hf pos e c (rx_k_group g pos k) inside m (λ d.
    restore-true g (get_or d.caps g none) (k e (with_span d g (some (pos, e))))
      (h (with_span d g (some (pos, e)))))

AtMost-may_repeat :
    (rmax : Option ℕ) (count n : ℕ) → AtMost (count + suc n) rmax → may_repeat rmax count ≡ true
AtMost-may_repeat none count n h = refl
AtMost-may_repeat (some rmax) count n h = ground arith

module _ (s : Bytes) (M : ℕ → ℕ → Type 0) (within : Within s M) (body : ℕ → RxCtx → Cont → Result)
    (body_complete : CompleteFor s M body) (rmin : ℕ) (rmax : Option ℕ) where
  stop_complete :
      (count pos e : ℕ) (c : RxCtx) (k : Cont)
      → pos ≤ length s
      → rmin ≤ count + 0
      → pos ≡ e
      → Accepts k e
      → (when (leb rmin count) c (k pos)).0 ≡ true
  stop_complete count pos e c k inside least same h =
      Holds-complete s (λ p. leb rmin count) pos e c k inside (ground arith, same) h

  -- One round more, in front of those that `f` makes.
  again_complete :
      (count n pos q : ℕ) (c : RxCtx) (step : Cont)
      → pos ≤ length s
      → AtMost (count + suc n) rmax
      → M pos q
      → Accepts step q
      → (when (may_repeat rmax count) c (λ d. body pos d step)).0 ≡ true
  again_complete count n pos q c step inside most m h =
      when_complete (may_repeat rmax count) c (λ d. body pos d step)
        (AtMost-may_repeat rmax count n most) (body_complete pos q c step inside m h)

  rep_complete :
      (lazy : Bool) (left n count pos e : ℕ) (c : RxCtx) (k : Cont)
      → pos ≤ length s
      → n ≤ left
      → rmin ≤ count + n
      → AtMost (count + n) rmax
      → Iterates M n pos e
      → Accepts k e
      → (rx_m_rep_at body lazy rmin rmax left count pos c k).0 ≡ true
  unfolding rx_m_rep_at
  rep_complete lazy zero zero count pos e c k inside le least most its h =
      stop_complete count pos e c k inside least its h
  rep_complete lazy zero (suc n) count pos e c k inside le least most its h = absurd (omega arith)
  rep_complete true (suc left) zero count pos e c k inside le least most its h =
      or_try_left _ _ (stop_complete count pos e c k inside least its h)
  rep_complete false (suc left) zero count pos e c k inside le least most its h =
      or_try_right _ (λ d. when (leb rmin count) d (k pos))
        (λ d. stop_complete count pos e d k inside least its h)
  rep_complete true (suc left) (suc n) count pos e c k inside le least most (q, m, its) h =
      let step : Cont = λ p d. rx_m_rep_at body true rmin rmax left (count + 1) p d k in
      let (_, stays) = within pos q m in
      let next = stays inside in
      let shift : count + suc n ≡ count + 1 + n = omega arith in
      let rest : Accepts step q = λ d.
        rep_complete true left n (count + 1) q e d k next (omega arith) (omega arith)
          (subst (λ j. AtMost j rmax) shift most) its h in
      or_try_right _ (λ d. when (may_repeat rmax count) d (λ d'. body pos d' step))
        (λ d. again_complete count n pos q d step inside most m rest)
  rep_complete false (suc left) (suc n) count pos e c k inside le least most (q, m, its) h =
      let step : Cont = λ p d. rx_m_rep_at body false rmin rmax left (count + 1) p d k in
      let (_, stays) = within pos q m in
      let next = stays inside in
      let shift : count + suc n ≡ count + 1 + n = omega arith in
      let rest : Accepts step q = λ d.
        rep_complete false left n (count + 1) q e d k next (omega arith) (omega arith)
          (subst (λ j. AtMost j rmax) shift most) its h in
      or_try_left _ _ (again_complete count n pos q c step inside most m rest)

AtMost-fewer : (rmax : Option ℕ) (m n : ℕ) → m ≤ n → AtMost n rmax → AtMost (0 + m) rmax
AtMost-fewer none m n le h = tt
AtMost-fewer (some rmax) m n le h = omega arith

-- The guard against rounds that read nothing leaves enough rounds.
loop_complete :
    (s : Bytes) (child : Rx) (lazy : Bool) (rmin : ℕ) (rmax : Option ℕ)
    → CompleteFor s (Matches s child) (rx_m s child)
    → (pos e : ℕ) (c : RxCtx) (k : Cont) → pos ≤ length s
    → Matches s (rep lazy rmin rmax child) pos e
    → Accepts k e
    → (rx_m s (rep lazy rmin rmax child) pos c k).0 ≡ true
unfolding rx_m Matches
loop_complete s child lazy rmin rmax ih pos e c k inside (n, least, most, its) h =
    let M = Matches s child in
    let (j, l, le, few, js) = shorten s M (Matches-Within s child) n rmin pos e least its in
    let (_, stays) = Iterates-within s M (Matches-Within s child) n pos e its in
    let bound = stays inside in
    rep_complete s M (Matches-Within s child) (rx_m s child) ih rmin rmax lazy (length s + rmin + 2)
      j 0 pos e c k inside (omega arith) (omega arith) (AtMost-fewer rmax j n le most) js h

mutual
  unfolding rx_m rx_m_seq rx_m_alt Matches MatchesSeq MatchesAlt

  rx_m_complete : (s : Bytes) (n : Rx) → CompleteFor s (Matches s n) (rx_m s n)
  rx_m_complete s (char ch ci) pos e c k i m h = one_complete (same_char ch ci) s pos e c k i m h
  rx_m_complete s (any dotall) pos e c k i m h =
      one_complete (λ b. dotall || not (b == 10)) s pos e c k i m h
  rx_m_complete s (class neg chars) pos e c k i m h =
      one_complete (in_class neg chars) s pos e c k i m h
  rx_m_complete s (bol multiline) pos e c k i m h =
      Holds-complete s (at_bol multiline s) pos e c k i m h
  rx_m_complete s (eol multiline) pos e c k i m h =
      Holds-complete s (at_eol multiline s) pos e c k i m h
  rx_m_complete s bow pos e c k i m h = Holds-complete s (at_bow s) pos e c k i m h
  rx_m_complete s (seq kids) pos e c k i m h = kids_complete s kids pos e c k i m h
  rx_m_complete s (alt kids) pos e c k i m h = alts_complete s kids pos e c k i m h
  rx_m_complete s (rep lazy rmin rmax child) pos e c k i m h =
      loop_complete s child lazy rmin rmax (rx_m_complete s child) pos e c k i m h
  rx_m_complete s (group zero kids) pos e c k i m h = kids_complete s kids pos e c k i m h
  rx_m_complete s (group (suc g) kids) pos e c k i m h =
      group_complete s (MatchesSeq s kids) (rx_m_seq s kids) (suc g) (kids_complete s kids) pos e c
        k i m h

  kids_complete : (s : Bytes) (kids : RxKids) → CompleteFor s (MatchesSeq s kids) (rx_m_seq s kids)
  kids_complete s done pos e c k i same h = subst (λ p. (k p c).0 ≡ true) (sym same) (h c)
  kids_complete s (item n kids) pos e c k i m h =
      seq_complete s (Matches s n) (MatchesSeq s kids) (rx_m s n) (rx_m_seq s kids)
        (Matches-Within s n) (rx_m_complete s n) (kids_complete s kids) pos e c k i m h

  alts_complete : (s : Bytes) (kids : RxAlts) → CompleteFor s (MatchesAlt s kids) (rx_m_alt s kids)
  alts_complete s fail pos e c k i m h = absurd m
  alts_complete s (branch kids rest) pos e c k i (inl m) h =
      or_try_left _ _ (kids_complete s kids pos e c k i m h)
  alts_complete s (branch kids rest) pos e c k i (inr m) h =
      or_try_right _ (λ d. rx_m_alt s rest pos d k) (λ d. alts_complete s rest pos e d k i m h)

-- rx_m succeeds where the expression has a match that what follows it accepts.
pub Matches-rx_m :
    (s : Bytes) (n : Rx) (pos e : ℕ) (c : RxCtx) (k : Cont)
    → pos ≤ length s
    → Matches s n pos e
    → Accepts k e
    → (rx_m s n pos c k).0 ≡ true
Matches-rx_m s n pos e c k i m h = rx_m_complete s n pos e c k i m h
