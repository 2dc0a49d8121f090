-- ===== src/Runtime/Regex/Search.antt =====
-- rx_run and rx_search of src/hphpc/runtime/hphp_std.c find the leftmost match of an expression.
use mathlib.Core.Path.{subst}
use holyphp.Prelude.{
  Bytes, Option, ap, arith, dec_lt, false, length, none, refl, some, suc, true, zero, ℕ, ◌+◌, ◌-◌,
  ◌<◌, ◌∙◌, ◌≡◌, ◌≤◌,
}
use holyphp.Runtime.Regex.{
  Result, Rx, RxCtx, found, no_match, rx_k_done, rx_run, rx_search, search_from,
}
use holyphp.Runtime.Regex.Meaning.{Matches}
use holyphp.Runtime.Regex.Meaning.Sound.{rx_m-Matches}
use holyphp.Runtime.Regex.Meaning.Bounds.{Matches-Within}
use holyphp.Runtime.Regex.Spans.{SpansIn, rx_run-SpansIn}
use holyphp.Runtime.Regex.Meaning.Complete.{Matches-rx_m}

run_sound :
    (tree : Rx) (s : Bytes) (off : ℕ)
    → (rx_run tree s off).0 ≡ true
    → Matches s tree off (rx_run tree s off).1.end
unfolding rx_run rx_k_done
run_sound tree s off h =
    let (e, d, m, same) = rx_m-Matches s tree off no_match rx_k_done h in
    subst (Matches s tree off) (ap (λ (r : Result). r.1.end) same) m

-- rx_run succeeds exactly where a match begins, and ends at the end of one.
pub rx_run-Matches :
    (tree : Rx) (s : Bytes) (off : ℕ)
    → off ≤ length s
    → ((rx_run tree s off).0 ≡ true → Matches s tree off (rx_run tree s off).1.end)
      × ((e : ℕ) → Matches s tree off e → (rx_run tree s off).0 ≡ true)
unfolding rx_run rx_k_done
rx_run-Matches tree s off inside =
    (run_sound tree s off, λ e m. Matches-rx_m s tree off e no_match rx_k_done inside m (λ d. refl))

abbrev NoMatch : Bytes → Rx → ℕ → Type 0
NoMatch s tree j = (e : ℕ) → ¬ (Matches s tree j e)

-- What a search from `off` owes: the leftmost match, or that there is none.
abbrev pub Leftmost : Bytes → Rx → ℕ → Option (ℕ × RxCtx) → Type 0
Leftmost s tree off none = (j : ℕ) → off ≤ j → j ≤ length s → NoMatch s tree j
Leftmost s tree off (some (i, c)) =
    (off ≤ i)
    × (i ≤ length s)
    × Matches s tree i c.end
    × ((j : ℕ) → off ≤ j → j < i → NoMatch s tree j)

NoMatch-at :
    (tree : Rx) (s : Bytes) (off : ℕ)
    → off ≤ length s
    → (rx_run tree s off).0 ≡ false
    → NoMatch s tree off
NoMatch-at tree s off inside h e m =
    let found : (rx_run tree s off).0 ≡ true = (rx_run-Matches tree s off inside).1 e m in cc

-- An offset without a match, in front of the others.
later :
    (tree : Rx) (s : Bytes) (off : ℕ) (o : Option (ℕ × RxCtx))
    → NoMatch s tree off
    → Leftmost s tree (off + 1) o
    → Leftmost s tree off o
later tree s off none here h = λ j le inside e m. elim (dec_lt off j) [
  | yes lt ↦ h j (omega arith) inside e m
  | no ge ↦ let same : j ≡ off = omega arith in here e (subst (λ p. Matches s tree p e) same m)
]
later tree s off (some (i, c)) here (le, inside, m, first) = (omega arith, inside, m, earlier)
  where
    earlier : (j : ℕ) → off ≤ j → j < i → NoMatch s tree j
    earlier j le' lt e m' = elim (dec_lt off j) [
      | yes after ↦ first j (omega arith) lt e m'
      | no ge ↦ let same : j ≡ off = omega arith in here e (subst (λ p. Matches s tree p e) same m')
    ]

found-Leftmost :
    (tree : Rx) (s : Bytes) (off : ℕ) (r : Result) (rest : Option (ℕ × RxCtx))
    → off ≤ length s
    → rx_run tree s off ≡ r
    → Leftmost s tree (off + 1) rest
    → Leftmost s tree off (found off r rest)
found-Leftmost tree s off (true, c) rest inside same h =
    let ran : (rx_run tree s off).0 ≡ true = ap (λ (r : Result). r.0) same in
    let m =
      subst (Matches s tree off) (ap (λ (r : Result). r.1.end) same) (run_sound tree s off ran) in
    (omega arith, inside, m, λ j le lt. absurd (omega arith))
found-Leftmost tree s off (false, c) rest inside same h =
    later tree s off rest (NoMatch-at tree s off inside (ap (λ (r : Result). r.0) same)) h

search-Leftmost :
    (tree : Rx) (s : Bytes) (rounds off : ℕ)
    → length s + 1 ≡ off + rounds
    → Leftmost s tree off (search_from tree s rounds off)
unfolding search_from
search-Leftmost tree s zero off h = λ j le inside e m. absurd (omega arith)
search-Leftmost tree s (suc rounds) off h =
    found-Leftmost tree s off (rx_run tree s off) (search_from tree s rounds (off + 1))
      (omega arith) refl (search-Leftmost tree s rounds (off + 1) (omega arith))

-- rx_search gives the leftmost match at or after the offset, or none if no match begins there.
pub rx_search-Leftmost :
    (tree : Rx) (s : Bytes) (off : ℕ) → off ≤ length s → Leftmost s tree off (rx_search tree s off)
unfolding rx_search
rx_search-Leftmost tree s off inside = search-Leftmost tree s (length s + 1 - off) off (omega arith)

found_spans :
    (tree : Rx) (s : Bytes) (off i : ℕ) (c : RxCtx) (r : Result) (rest : Option (ℕ × RxCtx))
    → off ≤ length s
    → rx_run tree s off ≡ r
    → (rest ≡ some (i, c) → SpansIn s c)
    → found off r rest ≡ some (i, c)
    → SpansIn s c
found_spans tree s off i c (true, d) rest inside same h e =
    let same_ctx : d ≡ c = cc in
    subst (SpansIn s) (ap (λ (r : Result). r.1) same ∙ same_ctx) (rx_run-SpansIn tree s off inside)
found_spans tree s off i c (false, d) rest inside same h e = h e

search_spans :
    (tree : Rx) (s : Bytes) (rounds off i : ℕ) (c : RxCtx)
    → length s + 1 ≡ off + rounds
    → search_from tree s rounds off ≡ some (i, c)
    → SpansIn s c
unfolding search_from
search_spans tree s zero off i c h e = absurd (cc)
search_spans tree s (suc rounds) off i c h e =
    found_spans tree s off i c (rx_run tree s off) (search_from tree s rounds (off + 1))
      (omega arith) refl (search_spans tree s rounds (off + 1) i c (omega arith)) e

-- What rx_search finds lies in the subject: the match itself and every span that it captures.
pub rx_search-SpansIn :
    (tree : Rx) (s : Bytes) (off i : ℕ) (c : RxCtx)
    → off ≤ length s
    → rx_search tree s off ≡ some (i, c)
    → (off ≤ i) × (i ≤ c.end) × (c.end ≤ length s) × SpansIn s c
unfolding rx_search
rx_search-SpansIn tree s off i c inside e =
    let (le, within, m, _) = subst (Leftmost s tree off) e (rx_search-Leftmost tree s off inside) in
    let (begins, ends) = Matches-Within s tree i c.end m in
    (le, begins, ends within, search_spans tree s (length s + 1 - off) off i c (omega arith) e)
