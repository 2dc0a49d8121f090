-- ===== src/Runtime/Regex/Fails.antt =====
-- An attempt of rx_m of src/hphpc/runtime/hphp_std.c that fails leaves the context as it found it.
use mathlib.Core.Path.{subst}
use holyphp.Prelude.{
  Bool, Bytes, List, Option, [], ap, false, get_or, leb, length, ltb, none, not, refl, set, some,
  suc, sym, true, zero, ℕ, ◌+◌, ◌==◌, ◌||◌, ◌∙◌, ◌∷◌, ◌≡◌,
}
use holyphp.Runtime.Regex.{
  Cont, Result, Rx, RxAlts, RxCtx, RxKids, alt, any, at_bol, at_bow, at_eol, bol, bow, branch,
  byte_at, char, class, done, eol, fail, group, in_class, item, may_repeat, one, or_try, rep,
  restore, rx_k_group, rx_m, rx_m_alt, rx_m_rep_at, rx_m_seq, same_char, seq, when, with_span,
}

abbrev pub FailsClean : Cont → Type 0
FailsClean k = (p : ℕ) (d : RxCtx) → (k p d).0 ≡ false → (k p d).1 ≡ d

abbrev Clean : (ℕ → RxCtx → Cont → Result) → Type 0
Clean f =
    (pos : ℕ) (c : RxCtx) (k : Cont) → FailsClean k → (f pos c k).0 ≡ false → (f pos c k).1 ≡ c

when_clean :
    (test : Bool) (c : RxCtx) (rest : RxCtx → Result)
    → ((rest c).0 ≡ false → (rest c).1 ≡ c)
    → (when test c rest).0 ≡ false
    → (when test c rest).1 ≡ c
when_clean true c rest g h = g h
when_clean false c rest g h = refl

or_try_clean :
    (c : RxCtx) (r : Result) (rest : RxCtx → Result)
    → (r.0 ≡ false → r.1 ≡ c)
    → ((rest c).0 ≡ false → (rest c).1 ≡ c)
    → (or_try r rest).0 ≡ false
    → (or_try r rest).1 ≡ c
or_try_clean c (true, d) rest h g = λ e. absurd (cc)
or_try_clean c (false, d) rest h g =
    let same : c ≡ d = sym (h refl) in subst (λ d'. (rest d').0 ≡ false → (rest d').1 ≡ c) same g

assert-Clean : (test : ℕ → Bool) → Clean (λ pos c k. when (test pos) c (k pos))
assert-Clean test pos c k hk h = when_clean (test pos) c (k pos) (hk pos c) h

one-Clean : (ok : ℕ → Bool) (s : Bytes) → Clean (one ok s)
unfolding one
one-Clean ok s pos c k hk h =
    when_clean (ltb pos (length s)) c (λ d. when (ok (byte_at s pos)) d (λ d'. k (pos + 1) d'))
      (when_clean (ok (byte_at s pos)) c (k (pos + 1)) (hk (pos + 1) c)) h

seq-Clean :
    (f g : ℕ → RxCtx → Cont → Result)
    → Clean f
    → Clean g
    → Clean (λ pos c k. f pos c (λ p d. g p d k))
seq-Clean f g hf hg pos c k hk h = hf pos c (λ p d. g p d k) (λ p d. hg p d k hk) h

alt-Clean :
    (f g : ℕ → RxCtx → Cont → Result)
    → Clean f
    → Clean g
    → Clean (λ pos c k. or_try (f pos c k) (λ d. g pos d k))
alt-Clean f g hf hg pos c k hk h =
    or_try_clean c (f pos c k) (λ d. g pos d k) (hf pos c k hk) (hg pos c k hk) h

set_back : {A : Type 0} (l : List A) (i : ℕ) (v w : A) → set (set l i v) i (get_or l i w) ≡ l
set_back [] i v w = refl
set_back (x ∷ l) zero v w = refl
set_back (x ∷ l) (suc i) v w = ap (λ t. x ∷ t) (set_back l i v w)

-- The old span is back in its place.
restore_clean :
    (g : ℕ) (c : RxCtx) (span : ℕ × ℕ) (r : Result)
    → (r.0 ≡ false → r.1 ≡ with_span c g (some span))
    → (restore g (get_or c.caps g none) r).0 ≡ false
    → (restore g (get_or c.caps g none) r).1 ≡ c
restore_clean g c span (true, d) h e = absurd (cc)
restore_clean g c span (false, d) h e =
    ap (λ d'. with_span d' g (get_or c.caps g none)) (h refl)
    ∙ ap (λ l. record c { caps = l }) (set_back c.caps g (some span) none)

group-Clean :
    (f : ℕ → RxCtx → Cont → Result) (g : ℕ)
    → Clean f
    → Clean (λ pos c k. f pos c (rx_k_group g pos k))
unfolding rx_k_group
group-Clean f g hf pos c k hk h =
    hf pos c (rx_k_group g pos k)
      (λ p d.
        restore_clean g d (pos, p) (k p (with_span d g (some (pos, p))))
          (hk p (with_span d g (some (pos, p)))))
      h

again : ℕ → Option ℕ → (f g : ℕ → RxCtx → Cont → Result) → ℕ → RxCtx → Cont → Result
again count rmax f g pos c k = when (may_repeat rmax count) c (λ d. f pos d (λ p d'. g p d' k))

again-Clean :
    (count : ℕ) (rmax : Option ℕ) (f g : ℕ → RxCtx → Cont → Result)
    → Clean f
    → Clean g
    → Clean (again count rmax f g)
unfolding again
again-Clean count rmax f g hf hg pos c k hk h =
    when_clean (may_repeat rmax count) c (λ d. f pos d (λ p d'. g p d' k))
      (seq-Clean f g hf hg pos c k hk) h

rep-Clean :
    (body : ℕ → RxCtx → Cont → Result) (rmin : ℕ) (rmax : Option ℕ)
    → Clean body
    → (lazy : Bool) (left count : ℕ) → Clean (rx_m_rep_at body lazy rmin rmax left count)
unfolding rx_m_rep_at again
rep-Clean body rmin rmax hb lazy zero count pos c k hk h =
    assert-Clean (λ _. leb rmin count) pos c k hk h
rep-Clean body rmin rmax hb true (suc left) count pos c k hk h =
    let next = rx_m_rep_at body true rmin rmax left (count + 1) in
    let ih = rep-Clean body rmin rmax hb true left (count + 1) in
    alt-Clean (λ p d j. when (leb rmin count) d (j p)) (again count rmax body next)
      (assert-Clean (λ _. leb rmin count)) (again-Clean count rmax body next hb ih) pos c k hk h
rep-Clean body rmin rmax hb false (suc left) count pos c k hk h =
    let next = rx_m_rep_at body false rmin rmax left (count + 1) in
    let ih = rep-Clean body rmin rmax hb false left (count + 1) in
    alt-Clean (again count rmax body next) (λ p d j. when (leb rmin count) d (j p))
      (again-Clean count rmax body next hb ih) (assert-Clean (λ _. leb rmin count)) pos c k hk h

mutual
  unfolding rx_m rx_m_seq rx_m_alt

  node-Clean : (s : Bytes) (n : Rx) → Clean (rx_m s n)
  node-Clean s (char ch ci) pos c k hk h = one-Clean (same_char ch ci) s pos c k hk h
  node-Clean s (any dotall) pos c k hk h = one-Clean (λ b. dotall || not (b == 10)) s pos c k hk h
  node-Clean s (class neg chars) pos c k hk h = one-Clean (in_class neg chars) s pos c k hk h
  node-Clean s (bol multiline) pos c k hk h = assert-Clean (at_bol multiline s) pos c k hk h
  node-Clean s (eol multiline) pos c k hk h = assert-Clean (at_eol multiline s) pos c k hk h
  node-Clean s bow pos c k hk h = assert-Clean (at_bow s) pos c k hk h
  node-Clean s (seq kids) pos c k hk h = kids-Clean s kids pos c k hk h
  node-Clean s (alt kids) pos c k hk h = alts-Clean s kids pos c k hk h
  node-Clean s (rep lazy rmin rmax child) pos c k hk h =
      rep-Clean (rx_m s child) rmin rmax (node-Clean s child) lazy (length s + rmin + 2) 0 pos c k
        hk h
  node-Clean s (group zero kids) pos c k hk h = kids-Clean s kids pos c k hk h
  node-Clean s (group (suc g) kids) pos c k hk h =
      group-Clean (rx_m_seq s kids) (suc g) (kids-Clean s kids) pos c k hk h

  kids-Clean : (s : Bytes) (kids : RxKids) → Clean (rx_m_seq s kids)
  kids-Clean s done pos c k hk h = hk pos c h
  kids-Clean s (item n kids) pos c k hk h =
      seq-Clean (rx_m s n) (rx_m_seq s kids) (node-Clean s n) (kids-Clean s kids) pos c k hk h

  alts-Clean : (s : Bytes) (kids : RxAlts) → Clean (rx_m_alt s kids)
  alts-Clean s fail pos c k hk h = refl
  alts-Clean s (branch kids rest) pos c k hk h =
      alt-Clean (rx_m_seq s kids) (rx_m_alt s rest) (kids-Clean s kids) (alts-Clean s rest) pos c k
        hk h

-- An attempt that fails leaves the captures and the end as they were, if what follows it does.
pub rx_m-clean :
    (s : Bytes) (n : Rx) (pos : ℕ) (c : RxCtx) (k : Cont)
    → FailsClean k
    → (rx_m s n pos c k).0 ≡ false
    → (rx_m s n pos c k).1 ≡ c
rx_m-clean s n pos c k hk h = node-Clean s n pos c k hk h
