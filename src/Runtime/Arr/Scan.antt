-- ===== src/Runtime/Arr/Scan.antt =====
-- The scan over the keys of an array, `hp_key_index` without a hash index.
use holyphp.Prelude.{
  Bool, Bool-cases, List, [], ap, arith, get_or, if◌then◌else◌, inl, inr, length, suc, true, ℕ,
  ◌++◌, ◌+◌, ◌<◌, ◌∙◌, ◌∷◌, ◌≡◌, ◌≢◌,
}
use holyphp.Runtime.Value.{Hval, hp_key_eq, hp_key_eq_sound}
use holyphp.Runtime.Arr.{Found, element, endless, missing, scan}

-- Where a scan stops.
pub scan_element :
    {D : Type 0} (junk : Hval D) (i : ℕ) (ks : List (Hval D)) (key : Hval D) (r : ℕ)
    → scan i ks key ≡ element r
    → (n : ℕ) × (r ≡ i + n) × (n < length ks) × (hp_key_eq (get_or ks n junk) key ≡ true)
unfolding scan
scan_element junk i [] key r h = absurd (cc)
scan_element junk i (k ∷ ks) key r h = elim (Bool-cases (hp_key_eq k key)) [
  | inl e ↦ (0, ground arith, omega arith, e)
  | inr e ↦
      let (n, at_n, lt, same) = scan_element junk (i + 1) ks key r (ground arith) in
      (suc n, omega arith, omega arith, same)
]

-- A scan always ends.
pub scan-ne-endless :
    {D : Type 0} (i : ℕ) (ks : List (Hval D)) (key : Hval D) → scan i ks key ≢ endless
unfolding scan
scan-ne-endless i [] key h = cc
scan-ne-endless i (k ∷ ks) key h = elim (Bool-cases (hp_key_eq k key)) [
  | inl e ↦ ground arith
  | inr e ↦ scan-ne-endless (i + 1) ks key (ground arith)
]

abbrev pub then_last : Found → Bool → ℕ → Found
then_last (element r) b n = element r
then_last missing b n = if b then element n else missing
then_last endless b n = endless

pub scan-append :
    {D : Type 0} (i : ℕ) (ks : List (Hval D)) (k key : Hval D)
    → scan i (ks ++ k ∷ []) key ≡ then_last (scan i ks key) (hp_key_eq k key) (i + length ks)
unfolding scan
scan-append i [] k key = ground arith
scan-append i (k' ∷ ks) k key = elim (Bool-cases (hp_key_eq k' key)) [
  | inl e ↦ rw e
  | inr e ↦
      let f : (i + 1) + length ks ≡ i + suc (length ks) = omega arith in
      rw e (scan-append (i + 1) ks k key ∙ ap (then_last (scan (i + 1) ks key) (hp_key_eq k key)) f)
]

module _ {D : Type 0} (junk : Hval D) where
  -- The element that a lookup finds holds the key that was looked up.
  pub scan_holds :
      (ks : List (Hval D)) (key : Hval D) (r : ℕ)
      → scan 0 ks key ≡ element r
      → (r < length ks) × (get_or ks r junk ≡ key)
  scan_holds ks key r e =
      let (n, at_n, lt, equal) = scan_element junk 0 ks key r e in
      let same_place : r ≡ n = omega arith in
      rw same_place (lt, hp_key_eq_sound (get_or ks n junk) key equal)
