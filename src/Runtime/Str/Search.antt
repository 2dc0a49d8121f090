-- ===== src/Runtime/Str/Search.antt =====
-- `hp_str_index` and `hp_str_replace` of src/hphpc/runtime/hphp_rt.c against the occurrences of a
-- string in another.
use holyphp.Prelude.{
  Bool-cases, Bytes, Option, [], ap, append-nil, append_assoc, arith, drop, false, inl, inr, length,
  length-drop, none, refl, some, suc, sym, true, zero, ℕ, ◌++◌, ◌+◌, ◌<◌, ◌∙◌, ◌∷◌, ◌≡◌, ◌≢◌,
}
use holyphp.Runtime.Str.{hp_str_index, hp_str_replace, index_from, is_prefix, replace_loop}

-- `needle` stands in `hay` at the position `i`.
abbrev pub OccursAt : Bytes → Bytes → ℕ → Type 0
OccursAt hay needle i = (i < length hay) × (is_prefix needle (drop i hay) ≡ true)

-- No position before `i`.
abbrev pub NotBefore : Bytes → Bytes → ℕ → Type 0
NotBefore hay needle i = (j : ℕ) → j < i → is_prefix needle (drop j hay) ≡ false

NotBefore-cons :
    (c : ℕ) (s needle : Bytes) (k : ℕ)
    → is_prefix needle (c ∷ s) ≡ false
    → NotBefore s needle k
    → NotBefore (c ∷ s) needle (suc k)
NotBefore-cons c s needle k e h zero lt = e
NotBefore-cons c s needle k e h (suc j) lt = h j (omega arith)

index_from-some :
    (i : ℕ) (hay needle : Bytes) (r : ℕ)
    → index_from i hay needle ≡ some r
    → (k : ℕ) × (r ≡ i + k) × OccursAt hay needle k × NotBefore hay needle k
unfolding index_from
index_from-some i [] needle r h = absurd (cc)
index_from-some i (c ∷ s) needle r h = elim (Bool-cases (is_prefix needle (c ∷ s))) [
  | inl e ↦ (0, ground arith, (omega arith, e), λ j lt. absurd (omega arith))
  | inr e ↦
      let (k, at_k, occurs, before) = index_from-some (i + 1) s needle r (ground arith) in
      (
        suc k,
        omega arith,
        (omega (arith, occurs.0), occurs.1),
        NotBefore-cons c s needle k e before,
      )
]

pub index_from-none :
    (i : ℕ) (hay needle : Bytes)
    → index_from i hay needle ≡ none
    → NotBefore hay needle (length hay)
unfolding index_from
index_from-none i [] needle h = λ j lt. absurd (omega arith)
index_from-none i (c ∷ s) needle h = elim (Bool-cases (is_prefix needle (c ∷ s))) [
  | inl e ↦ absurd (ground arith)
  | inr e ↦ NotBefore-cons c s needle (length s) e (index_from-none (i + 1) s needle (ground arith))
]

-- What a result of `hp_str_index` says: the first position of the needle, or that there is none.
abbrev pub FirstAt : Bytes → Bytes → Option ℕ → Type 0
FirstAt hay needle none = NotBefore hay needle (length hay)
FirstAt hay needle (some i) = OccursAt hay needle i × NotBefore hay needle i

-- For a needle that is not empty `hp_str_index` gives its first position, and -1 exactly where it
-- stands at no position.
pub hp_str_index-FirstAt :
    (hay needle : Bytes) → needle ≢ [] → FirstAt hay needle (hp_str_index hay needle)
unfolding hp_str_index
hp_str_index-FirstAt hay [] h = absurd (h refl)
hp_str_index-FirstAt hay (c ∷ n) h = go (index_from 0 hay (c ∷ n)) refl
  where
    go : (r : Option ℕ) → index_from 0 hay (c ∷ n) ≡ r → FirstAt hay (c ∷ n) r
    go none e = index_from-none 0 hay (c ∷ n) e
    go (some r) e =
        let (k, at_k, occurs, before) = index_from-some 0 hay (c ∷ n) r e in
        let equal : r ≡ k = omega arith in rw equal (occurs, before)

pub prefix_split : (p s : Bytes) → is_prefix p s ≡ true → s ≡ p ++ drop (length p) s
unfolding is_prefix
prefix_split [] s h = refl
prefix_split (c ∷ p) [] h = absurd (cc)
prefix_split (c ∷ p) (d ∷ s) h = ground (arith, prefix_split p s)

replace_same :
    (fuel : ℕ) (s p out : Bytes)
    → length s < fuel
    → 0 < length p
    → replace_loop fuel s p p out ≡ out ++ s
unfolding replace_loop
replace_same zero s p out h k = absurd (omega arith)
replace_same (suc fuel) [] p out h k = sym (append-nil out)
replace_same (suc fuel) (c ∷ s) p out h k = elim (Bool-cases (is_prefix p (c ∷ s))) [
  | inl e ↦ rw e (
      replace_same fuel (drop (length p) (c ∷ s)) p (out ++ p)
        (omega (arith, length-drop (length p) (c ∷ s))) k
      ∙ append_assoc out p _
      ∙ ap (λ r. out ++ r) (sym (prefix_split p (c ∷ s) e)))
  | inr e ↦
      rw e (replace_same fuel s p (out ++ c ∷ []) (omega arith) k ∙ append_assoc out (c ∷ []) s)
]

-- Replacing a string by itself gives the subject back, for every subject: the loop reaches its end.
hp_str_replace_self : (s p : Bytes) → hp_str_replace s p p ≡ s
unfolding hp_str_replace
hp_str_replace_self s [] = refl
hp_str_replace_self s (c ∷ p) =
    replace_same (suc (length s)) s (c ∷ p) [] (omega arith) (omega arith)

replace_absent :
    (fuel : ℕ) (s p by out : Bytes)
    → length s < fuel
    → NotBefore s p (length s)
    → replace_loop fuel s p by out ≡ out ++ s
unfolding replace_loop
replace_absent zero s p by out h n = absurd (omega arith)
replace_absent (suc fuel) [] p by out h n = sym (append-nil out)
replace_absent (suc fuel) (c ∷ s) p by out h n = rw (n 0 (omega arith)) (
    replace_absent fuel s p by (out ++ c ∷ []) (omega arith) (λ j lt. n (suc j) (omega arith))
    ∙ append_assoc out (c ∷ []) s)

-- Where `hp_str_index` finds nothing, `hp_str_replace` changes nothing.
hp_str_replace_absent : (s p by : Bytes) → hp_str_index s p ≡ none → hp_str_replace s p by ≡ s
unfolding hp_str_replace hp_str_index
hp_str_replace_absent s [] by h = refl
hp_str_replace_absent s (c ∷ p) by h =
    replace_absent (suc (length s)) s (c ∷ p) by [] (omega arith) (index_from-none 0 s (c ∷ p) h)
