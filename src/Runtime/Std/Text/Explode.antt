-- ===== src/Runtime/Std/Text/Explode.antt =====
-- `hpbi_explode` of src/hphpc/runtime/hphp_std.c against `hp_implode`.
use holyphp.Prelude.{
  All, Bool-cases, Bytes, List, Option, [], ap, append_assoc, arith, drop, false, if_lem, inl, inr,
  length, length-drop, ltb, none, refl, some, suc, sym, true, zero, ℕ, ◌++◌, ◌+◌, ◌<◌, ◌==◌, ◌>>=◌,
  ◌∙◌, ◌∷◌, ◌≡◌,
}
use holyphp.Runtime.Str.{hp_str_index, index_from, is_prefix}
use holyphp.Runtime.Str.Search.{prefix_split}
use holyphp.Runtime.Std.Text.Pieces.{explode_loop, hp_implode, hpbi_explode}

-- `d` starts at no byte of `piece` in `piece ++ s`.
abbrev NoHit : Bytes → Bytes → Bytes → Type 0
NoHit d [] s = Unit
NoHit d (c ∷ p) s = (is_prefix d (c ∷ p ++ s) ≡ false) × NoHit d p s

-- `d` does not occur in `p`.
abbrev pub Free : Bytes → Bytes → Type 0
Free d p = hp_str_index p d ≡ none

NoHit-append :
    (d p s : Bytes) (b : ℕ)
    → NoHit d p (b ∷ s)
    → is_prefix d (b ∷ s) ≡ false
    → NoHit d (p ++ b ∷ []) s
NoHit-append d [] s b h e = (e, tt)
NoHit-append d (c ∷ p) s b h e =
    (ap (λ l. is_prefix d (c ∷ l)) (append_assoc p (b ∷ []) s) ∙ h.0, NoHit-append d p s b (h.1) e)

is_prefix-append : (d p s : Bytes) → is_prefix d p ≡ true → is_prefix d (p ++ s) ≡ true
unfolding is_prefix
is_prefix-append [] p s h = refl
is_prefix-append (c ∷ d) [] s h = absurd (cc)
is_prefix-append (c ∷ d) (b ∷ p) s h = elim (Bool-cases (c == b)) [
  | inl e ↦ rw e (is_prefix-append d p s (ground arith))
  | inr e ↦ absurd (ground arith)
]

not_prefix : (d p s : Bytes) → is_prefix d (p ++ s) ≡ false → is_prefix d p ≡ false
not_prefix d p s h = elim (Bool-cases (is_prefix d p)) [
  | inr e ↦ e
  | inl e ↦ (let both = is_prefix-append d p s e in absurd (cc))
]

is_prefix_short : (d s : Bytes) → length s < length d → is_prefix d s ≡ false
unfolding is_prefix
is_prefix_short [] s h = absurd (omega arith)
is_prefix_short (c ∷ d) [] h = refl
is_prefix_short (c ∷ d) (b ∷ s) h = let rest = is_prefix_short d s (omega arith) in ground arith

miss_free :
    (i : ℕ) (c : ℕ) (s d : Bytes)
    → is_prefix d (c ∷ s) ≡ false
    → index_from (i + 1) s d ≡ none
    → index_from i (c ∷ s) d ≡ none
unfolding index_from
miss_free i c s d e r = ground arith

NoHit-free : (i : ℕ) (d p s : Bytes) → NoHit d p s → index_from i p d ≡ none
unfolding index_from
NoHit-free i d [] s h = refl
NoHit-free i d (c ∷ p) s h =
    miss_free i c p d (not_prefix d (c ∷ p) s (h.0)) (NoHit-free (i + 1) d p s (h.1))

short_free : (i : ℕ) (d s : Bytes) → length s < length d → index_from i s d ≡ none
unfolding index_from
short_free i d [] h = refl
short_free i d (c ∷ s) h =
    miss_free i c s d (is_prefix_short d (c ∷ s) h) (short_free (i + 1) d s (omega arith))

last_free :
    (i : ℕ) (d p s : Bytes) → NoHit d p s → length s < length d → index_from i (p ++ s) d ≡ none
last_free i d [] s h l = short_free i d s l
last_free i d (c ∷ p) s h l = miss_free i c (p ++ s) d (h.0) (last_free (i + 1) d p s (h.1) l)

index_from-Free : (c : ℕ) (d p : Bytes) → index_from 0 p (c ∷ d) ≡ none → Free (c ∷ d) p
unfolding hp_str_index
index_from-Free c d p h = h

-- What the loop returns: a list of pieces without `d` that joins to `whole`.
abbrev pub Splits : Bytes → Bytes → Option (List Bytes) → Type 0
Splits d whole none = ⊥
Splits d whole (some []) = ⊥
Splits d whole (some (p ∷ ps)) = (hp_implode d (p ∷ ps) ≡ whole) × All (Free d) (p ∷ ps)

Splits-cons :
    (d p whole : Bytes) (o : Option (List Bytes))
    → Free d p
    → Splits d whole o
    → Splits d (p ++ d ++ whole) (o >>= (λ rest. some (p ∷ rest)))
unfolding hp_implode
Splits-cons d p whole none f h = elim h [ ]
Splits-cons d p whole (some []) f h = elim h [ ]
Splits-cons d p whole (some (q ∷ qs)) f h = (ap (λ w. p ++ d ++ w) (h.0), (f, h.1))

Splits-same : (d w w' : Bytes) (o : Option (List Bytes)) → w ≡ w' → Splits d w o → Splits d w' o
Splits-same d w w' o e h = rw (sym e) h

last_piece :
    (c : ℕ) (d piece s : Bytes)
    → NoHit (c ∷ d) piece s
    → length s < length (c ∷ d)
    → Splits (c ∷ d) (piece ++ s) (some ((piece ++ s) ∷ []))
unfolding hp_implode
last_piece c d piece s h l =
    (refl, (index_from-Free c d (piece ++ s) (last_free 0 (c ∷ d) piece s h l), tt))

explode_loop-Splits :
    (fuel c : ℕ) (d piece s : Bytes)
    → length s < fuel
    → NoHit (c ∷ d) piece s
    → Splits (c ∷ d) (piece ++ s) (explode_loop fuel (c ∷ d) piece s)
unfolding explode_loop hp_implode
explode_loop-Splits zero c d piece s l h = absurd (omega arith)
explode_loop-Splits (suc fuel) c d piece [] l h =
    if_lem (Splits (c ∷ d) (piece ++ [])) (ltb 0 (length (c ∷ d)))
      (λ e. last_piece c d piece [] h (omega arith)) (λ e. absurd (ground arith))
explode_loop-Splits (suc fuel) c d piece (b ∷ s) l h =
    let rest = drop (length (c ∷ d)) (b ∷ s) in
    let fewer : length rest < fuel = omega (arith, length-drop (length (c ∷ d)) (b ∷ s)) in
    if_lem (Splits (c ∷ d) (piece ++ b ∷ s)) (ltb (length (b ∷ s)) (length (c ∷ d)))
      (λ e. last_piece c d piece (b ∷ s) h (ground arith))
      (λ e.
        if_lem (Splits (c ∷ d) (piece ++ b ∷ s)) (is_prefix (c ∷ d) (b ∷ s))
          (λ m.
            Splits-same (c ∷ d) (piece ++ (c ∷ d) ++ rest) (piece ++ b ∷ s)
              (explode_loop fuel (c ∷ d) [] rest >>= (λ qs. some (piece ∷ qs)))
              (append_assoc piece (c ∷ d) rest
                ∙ ap (λ w. piece ++ w) (sym (prefix_split (c ∷ d) (b ∷ s) m)))
              (Splits-cons (c ∷ d) piece rest (explode_loop fuel (c ∷ d) [] rest)
                (index_from-Free c d piece (NoHit-free 0 (c ∷ d) piece (b ∷ s) h))
                (explode_loop-Splits fuel c d [] rest fewer tt)))
          (λ m.
            Splits-same (c ∷ d) ((piece ++ b ∷ []) ++ s) (piece ++ b ∷ s)
              (explode_loop fuel (c ∷ d) (piece ++ b ∷ []) s) (append_assoc piece (b ∷ []) s)
              (explode_loop-Splits fuel c d (piece ++ b ∷ []) s (omega arith)
                (NoHit-append (c ∷ d) piece s b h m))))

-- For a delimiter that is not empty `hpbi_explode` gives at least one piece; the delimiter occurs in none
-- of them, and `hp_implode` joins them with it to the string again.
pub hpbi_explode-Splits : (c : ℕ) (d s : Bytes) → Splits (c ∷ d) s (hpbi_explode (c ∷ d) s)
unfolding hpbi_explode
hpbi_explode-Splits c d s = explode_loop-Splits (suc (length s)) c d [] s (omega arith) tt
