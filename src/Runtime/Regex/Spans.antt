-- ===== src/Runtime/Regex/Spans.antt =====
-- The spans that rx_m of src/hphpc/runtime/hphp_std.c captures lie inside the subject, where
-- rx_match_arr reads them, and an attempt that fails leaves none behind.
use native.Mathlib.Nat.{le_refl, le_trans}
use holyphp.Prelude.{
  All, Bool, Bytes, List, Option, [], arith, false, get_or, leb, length, ltb, none, not, refl, set,
  some, suc, true, zero, ℕ, ◌+◌, ◌==◌, ◌||◌, ◌∷◌, ◌≡◌, ◌≤◌,
}
use holyphp.Runtime.Regex.{
  Cont, Result, Rx, RxAlts, RxCtx, RxKids, alt, any, at_bol, at_bow, at_eol, bol, bow, branch,
  byte_at, char, class, done, eol, fail, group, in_class, item, may_repeat, no_match, one, or_try,
  rep, restore, rx_k_done, rx_k_group, rx_m, rx_m_alt, rx_m_rep_at, rx_m_seq, rx_run, same_char,
  seq, when, with_span,
}

abbrev pub SpanIn : Bytes → Option (ℕ × ℕ) → Type 0
SpanIn s none = Unit
SpanIn s (some (a, b)) = (a ≤ b) × (b ≤ length s)

abbrev pub SpansIn : Bytes → RxCtx → Type 0
SpansIn s c = All (SpanIn s) c.caps

module _ {A : Type 0} (P : A → Type 0) where
  All-set : (l : List A) (i : ℕ) (v : A) → P v → All P l → All P (set l i v)
  All-set [] i v h hs = tt
  All-set (x ∷ l) zero v h hs = (h, hs.1)
  All-set (x ∷ l) (suc i) v h hs = (hs.0, All-set l i v h hs.1)

  All-get_or : (l : List A) (i : ℕ) (v : A) → P v → All P l → P (get_or l i v)
  All-get_or [] i v h hs = h
  All-get_or (x ∷ l) zero v h hs = hs.0
  All-get_or (x ∷ l) (suc i) v h hs = All-get_or l i v h hs.1

module _ (s : Bytes) where
  -- A continuation that is called at `lo` or later keeps the spans inside.
  abbrev KeepsFrom : ℕ → Cont → Type 0
  KeepsFrom lo k = (p : ℕ) (d : RxCtx) → lo ≤ p → p ≤ length s → SpansIn s d → SpansIn s (k p d).1

  abbrev Keeps : (ℕ → RxCtx → Cont → Result) → Type 0
  Keeps f =
      (pos : ℕ) (c : RxCtx) (k : Cont)
      → pos ≤ length s
      → KeepsFrom pos k
      → SpansIn s c
      → SpansIn s (f pos c k).1

  when_keeps :
      (test : Bool) (c : RxCtx) (rest : RxCtx → Result)
      → SpansIn s c
      → (test ≡ true → SpansIn s (rest c).1)
      → SpansIn s (when test c rest).1
  when_keeps true c rest h g = g refl
  when_keeps false c rest h g = h

  or_try_keeps :
      (r : Result) (rest : RxCtx → Result)
      → SpansIn s r.1
      → ((d : RxCtx) → SpansIn s d → SpansIn s (rest d).1)
      → SpansIn s (or_try r rest).1
  or_try_keeps (true, c) rest h g = h
  or_try_keeps (false, c) rest h g = g c h

  one-Keeps : (ok : ℕ → Bool) → Keeps (one ok s)
  unfolding one
  one-Keeps ok pos c k inside hk h =
      when_keeps (ltb pos (length s)) c (λ d. when (ok (byte_at s pos)) d (λ d'. k (pos + 1) d')) h
        (λ short.
          when_keeps (ok (byte_at s pos)) c (k (pos + 1)) h
            (λ _. hk (pos + 1) c (omega arith) (ground (arith, short)) h))

  assert-Keeps : (test : ℕ → Bool) → Keeps (λ pos c k. when (test pos) c (k pos))
  assert-Keeps test pos c k inside hk h =
      when_keeps (test pos) c (k pos) h (λ _. hk pos c (le_refl pos) inside h)

  seq-Keeps :
      (f g : ℕ → RxCtx → Cont → Result)
      → Keeps f
      → Keeps g
      → Keeps (λ pos c k. f pos c (λ p d. g p d k))
  seq-Keeps f g hf hg pos c k inside hk h =
      hf pos c (λ p d. g p d k) inside
        (λ p d le within hd. hg p d k within (λ q e le'. hk q e (le_trans le le')) hd) h

  alt-Keeps :
      (f g : ℕ → RxCtx → Cont → Result)
      → Keeps f
      → Keeps g
      → Keeps (λ pos c k. or_try (f pos c k) (λ d. g pos d k))
  alt-Keeps f g hf hg pos c k inside hk h =
      or_try_keeps (f pos c k) (λ d. g pos d k) (hf pos c k inside hk h)
        (λ d hd. hg pos d k inside hk hd)

  restore_keeps :
      (g : ℕ) (old : Option (ℕ × ℕ)) (r : Result)
      → SpanIn s old
      → SpansIn s r.1
      → SpansIn s (restore g old r).1
  restore_keeps g old (true, c) ho h = h
  restore_keeps g old (false, c) ho h = All-set (SpanIn s) c.caps g old ho h

  group-Keeps :
      (f : ℕ → RxCtx → Cont → Result) (g : ℕ)
      → Keeps f
      → Keeps (λ pos c k. f pos c (rx_k_group g pos k))
  unfolding rx_k_group
  group-Keeps f g hf pos c k inside hk h = hf pos c (rx_k_group g pos k) inside captured h
    where
      captured : KeepsFrom pos (rx_k_group g pos k)
      captured p d le within hd =
          let inner = with_span d g (some (pos, p)) in
          restore_keeps g (get_or d.caps g none) (k p inner)
            (All-get_or (SpanIn s) d.caps g none tt hd)
            (hk p inner le within (All-set (SpanIn s) d.caps g (some (pos, p)) (le, within) hd))

  again : ℕ → Option ℕ → (f g : ℕ → RxCtx → Cont → Result) → ℕ → RxCtx → Cont → Result
  again count rmax f g pos c k = when (may_repeat rmax count) c (λ d. f pos d (λ p d'. g p d' k))

  again-Keeps :
      (count : ℕ) (rmax : Option ℕ) (f g : ℕ → RxCtx → Cont → Result)
      → Keeps f
      → Keeps g
      → Keeps (again count rmax f g)
  unfolding again
  again-Keeps count rmax f g hf hg pos c k inside hk h =
      when_keeps (may_repeat rmax count) c (λ d. f pos d (λ p d'. g p d' k)) h
        (λ _. seq-Keeps f g hf hg pos c k inside hk h)

  rep-Keeps :
      (body : ℕ → RxCtx → Cont → Result) (rmin : ℕ) (rmax : Option ℕ)
      → Keeps body
      → (lazy : Bool) (left count : ℕ) → Keeps (rx_m_rep_at body lazy rmin rmax left count)
  unfolding rx_m_rep_at again
  rep-Keeps body rmin rmax hb lazy zero count pos c k inside hk h =
      assert-Keeps (λ _. leb rmin count) pos c k inside hk h
  rep-Keeps body rmin rmax hb true (suc left) count pos c k inside hk h =
      let next = rx_m_rep_at body true rmin rmax left (count + 1) in
      let ih = rep-Keeps body rmin rmax hb true left (count + 1) in
      alt-Keeps (λ p d j. when (leb rmin count) d (j p)) (again count rmax body next)
        (assert-Keeps (λ _. leb rmin count)) (again-Keeps count rmax body next hb ih) pos c k inside
        hk h
  rep-Keeps body rmin rmax hb false (suc left) count pos c k inside hk h =
      let next = rx_m_rep_at body false rmin rmax left (count + 1) in
      let ih = rep-Keeps body rmin rmax hb false left (count + 1) in
      alt-Keeps (again count rmax body next) (λ p d j. when (leb rmin count) d (j p))
        (again-Keeps count rmax body next hb ih) (assert-Keeps (λ _. leb rmin count)) pos c k inside
        hk h

mutual
  unfolding rx_m rx_m_seq rx_m_alt

  node-Keeps : (s : Bytes) (n : Rx) → Keeps s (rx_m s n)
  node-Keeps s (char ch ci) pos c k i hk h = one-Keeps s (same_char ch ci) pos c k i hk h
  node-Keeps s (any dotall) pos c k i hk h =
      one-Keeps s (λ b. dotall || not (b == 10)) pos c k i hk h
  node-Keeps s (class neg chars) pos c k i hk h = one-Keeps s (in_class neg chars) pos c k i hk h
  node-Keeps s (bol multiline) pos c k i hk h = assert-Keeps s (at_bol multiline s) pos c k i hk h
  node-Keeps s (eol multiline) pos c k i hk h = assert-Keeps s (at_eol multiline s) pos c k i hk h
  node-Keeps s bow pos c k i hk h = assert-Keeps s (at_bow s) pos c k i hk h
  node-Keeps s (seq kids) pos c k i hk h = kids_keep s kids pos c k i hk h
  node-Keeps s (alt kids) pos c k i hk h = alts_keep s kids pos c k i hk h
  node-Keeps s (rep lazy rmin rmax child) pos c k i hk h =
      rep-Keeps s (rx_m s child) rmin rmax (node-Keeps s child) lazy (length s + rmin + 2) 0 pos c k
        i hk h
  node-Keeps s (group zero kids) pos c k i hk h = kids_keep s kids pos c k i hk h
  node-Keeps s (group (suc g) kids) pos c k i hk h =
      group-Keeps s (rx_m_seq s kids) (suc g) (kids_keep s kids) pos c k i hk h

  kids_keep : (s : Bytes) (kids : RxKids) → Keeps s (rx_m_seq s kids)
  kids_keep s done pos c k i hk h = hk pos c (le_refl pos) i h
  kids_keep s (item n kids) pos c k i hk h =
      seq-Keeps s (rx_m s n) (rx_m_seq s kids) (node-Keeps s n) (kids_keep s kids) pos c k i hk h

  alts_keep : (s : Bytes) (kids : RxAlts) → Keeps s (rx_m_alt s kids)
  alts_keep s fail pos c k i hk h = h
  alts_keep s (branch kids rest) pos c k i hk h =
      alt-Keeps s (rx_m_seq s kids) (rx_m_alt s rest) (kids_keep s kids) (alts_keep s rest) pos c k
        i hk h

-- Every span that a run captures begins at or before its end, which lies in the subject.
pub rx_run-SpansIn :
    (tree : Rx) (s : Bytes) (off : ℕ) → off ≤ length s → SpansIn s (rx_run tree s off).1
unfolding rx_run rx_k_done
rx_run-SpansIn tree s off inside =
    node-Keeps s tree off no_match rx_k_done inside (λ p d le within h. h) (omega arith)
