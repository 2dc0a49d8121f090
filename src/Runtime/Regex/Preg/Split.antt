-- ===== src/Runtime/Regex/Preg/Split.antt =====
-- preg_split of src/hphpc/runtime/hphp_std.c with an expression that matches no empty string.
use mathlib.Core.Path.{subst}
use holyphp.Prelude.{
  Bytes, List, [], ap, append_assoc, arith, drop, false, if_lem, leb, length, none, suc, sym, true,
  zero, ℕ, ◌++◌, ◌+◌, ◌<◌, ◌==◌, ◌∙◌, ◌∷◌, ◌≡◌, ◌≢◌, ◌≤◌,
}
use holyphp.Runtime.Regex.{Rx, rx_search}
use holyphp.Runtime.Regex.Meaning.{Matches}
use holyphp.Runtime.Regex.Search.{Leftmost, rx_search-Leftmost, rx_search-SpansIn}
use holyphp.Runtime.Regex.Preg.{
  CopyOutcome, after_search_lem, between, hpbi_preg_split, last_piece, ok, rest_of, preg_split_loop,
}

-- The pieces from `off` on: what stands between the matches, each the leftmost behind the one before,
-- and what is left behind the last.
pub data Cuts (s : Bytes) (tree : Rx) : ℕ → List Bytes → Type 0 where
  last :
      {off : ℕ}
      → ((j e : ℕ) → off ≤ j → j ≤ length s → ¬ (Matches s tree j e))
      → Cuts s tree off (drop off s ∷ [])
  cut :
      {off : ℕ} {cuts : List Bytes} (ms me : ℕ)
      → off ≤ ms
      → me ≤ length s
      → Matches s tree ms me
      → ((j e : ℕ) → off ≤ j → j < ms → ¬ (Matches s tree j e))
      → Cuts s tree me cuts
      → Cuts s tree off (between s off ms ∷ cuts)

abbrev Splits : Bytes → Rx → ℕ → List Bytes → CopyOutcome (List Bytes) → Type 0
Splits s tree off parts r = (cuts : List Bytes) × (r ≡ ok (parts ++ cuts)) × Cuts s tree off cuts

-- The end of the loop, where no match is left.
stop_splits :
    (s : Bytes) (tree : Rx) (off : ℕ) (parts : List Bytes)
    → off ≤ length s
    → Leftmost s tree off none
    → Splits s tree off parts (last_piece parts (rest_of s off))
stop_splits s tree off parts within nothing =
    let inside : leb off (length s) ≡ true = ground arith in
    (drop off s ∷ [], rw inside, last (λ j e le lt. nothing j le lt e))

loop_splits :
    (s : Bytes) (tree : Rx)
    → ((p : ℕ) → ¬ (Matches s tree p p))
    → (fuel off : ℕ) (parts : List Bytes) → off ≤ length s
    → length s < off + fuel
    → Splits s tree off parts (preg_split_loop tree s fuel off parts)
unfolding preg_split_loop
loop_splits s tree reads zero off parts within lt = absurd (omega arith)
loop_splits s tree reads (suc fuel) off parts within lt =
    let leftmost = rx_search-Leftmost tree s off within in
    if_lem (Splits s tree off parts) (leb off (length s))
      (λ inside.
        after_search_lem (Splits s tree off parts) (rx_search tree s off) _
          (last_piece parts (rest_of s off))
          (λ e. stop_splits s tree off parts within (subst (Leftmost s tree off) e leftmost))
          (λ ms c e.
            let (le, _, m, first) = subst (Leftmost s tree off) e leftmost in
            let (_, begins, ends, _) = rx_search-SpansIn tree s off ms c within e in
            let moved : ms ≢ c.end = λ same. reads ms (subst (Matches s tree ms) (sym same) m) in
            let differs : (c.end == ms) ≡ false = ground (arith, moved) in
            let (cuts, same, rest) =
              loop_splits s tree reads fuel c.end (parts ++ between s off ms ∷ []) ends
                (ground (arith, moved)) in
            (
              between s off ms ∷ cuts,
              rw differs (same ∙ ap ok (append_assoc parts (between s off ms ∷ []) cuts)),
              cut ms c.end le ends m (λ j e' le' lt'. first j le' lt' e') rest,
            )))
      (λ outside. absurd (ground arith))

-- preg_split ends, with the pieces between the successive leftmost matches.
pub hpbi_preg_split-Cuts :
    (tree : Rx) (s : Bytes)
    → ((p : ℕ) → ¬ (Matches s tree p p))
    → (cuts : List Bytes) × (hpbi_preg_split tree s ≡ ok cuts) × Cuts s tree 0 cuts
unfolding hpbi_preg_split
hpbi_preg_split-Cuts tree s reads =
    loop_splits s tree reads (length s + 2) 0 [] (omega arith) (omega arith)
