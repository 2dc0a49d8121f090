-- ===== src/Runtime/Std/Text/Distance.antt =====
-- `hpbi_levenshtein` of src/hphpc/runtime/hphp_std.c: one row of distances, rewritten for each byte.
use mathlib.Core.List.{reverse_aux}
use holyphp.Prelude.{
  Bytes, List, Option, [], ap, arith, false, get_or, if◌then◌else◌, length, ltb, min, none, refl,
  reverse, some, suc, ℕ, ◌+◌, ◌<◌, ◌==◌, ◌∙◌, ◌∷◌, ◌≡◌,
}

abbrev pub new_entry : ℕ → ℕ → ℕ → ℕ → ℕ
new_entry prev left cur cost =
    let side = if ltb (left + 1) (cur + 1) then left + 1 else cur + 1 in
    if ltb (prev + cost) side then prev + cost else side

-- The inner loop: `prev` is the old entry to the left, `left` the new one.
unfoldable pub lev_row : ℕ → ℕ → ℕ → Bytes → List ℕ → List ℕ
lev_row c prev left [] dp = []
lev_row c prev left (y ∷ ys) [] = []
lev_row c prev left (y ∷ ys) (cur ∷ dp) =
    let best = new_entry prev left cur (if c == y then 0 else 1) in best ∷ lev_row c cur best ys dp

-- The outer loop: `i` is the number of the byte.
unfoldable pub lev_rows : ℕ → Bytes → Bytes → List ℕ → List ℕ
unfolding lev_row
lev_rows i [] y dp = dp
lev_rows i (c ∷ x) y [] = []
lev_rows i (c ∷ x) y (d ∷ dp) = lev_rows (i + 1) x y (i ∷ lev_row c d i y dp)

abbrev pub first_row : ℕ → Bytes → List ℕ
first_row j [] = j ∷ []
first_row j (y ∷ ys) = j ∷ first_row (j + 1) ys

-- The row has 512 entries; -1 is `none`.
unfoldable pub hpbi_levenshtein : Bytes → Bytes → Option ℕ
unfolding lev_rows
hpbi_levenshtein x y =
    if ltb 512 (length y + 1)
    then none
    else some (get_or (lev_rows 1 x y (first_row 0 y)) (length y) 0)

-- The edit distance of two strings that are given from their ends: the last bytes are kept or replaced,
-- or the last byte of one is dropped.
unfoldable pub distance : Bytes → Bytes → ℕ
distance [] q = length q
distance (c ∷ p) [] = suc (length p)
distance (c ∷ p) (y ∷ q) =
    let change = distance p q + (if c == y then 0 else 1) in
    let drop_one = distance (c ∷ p) q + 1 in
    let add_one = distance p (y ∷ q) + 1 in min change (min drop_one add_one)

-- The row behind the first entry.
unfoldable pub distances : Bytes → Bytes → Bytes → List ℕ
unfolding distance
distances p q [] = []
distances p q (y ∷ ys) = distance p (y ∷ q) ∷ distances p (y ∷ q) ys

if_min : (a b : ℕ) → (if ltb a b then a else b) ≡ min a b
if_min a b = ground arith

new_entry_lem :
    (prev left cur cost : ℕ)
    → new_entry prev left cur cost ≡ min (prev + cost) (min (left + 1) (cur + 1))
new_entry_lem prev left cur cost =
    if_min (prev + cost) (if ltb (left + 1) (cur + 1) then left + 1 else cur + 1)
    ∙ ap (min (prev + cost)) (if_min (left + 1) (cur + 1))

-- A turn of the outer loop makes the row of `c ∷ p` from the row of `p`.
lev_row-distances :
    (c : ℕ) (p q ys : Bytes)
    → lev_row c (distance p q) (distance (c ∷ p) q) ys (distances p q ys) ≡ distances (c ∷ p) q ys
unfolding lev_row distances distance
lev_row-distances c p q [] = refl
lev_row-distances c p q (y ∷ ys) =
    ap (λ b. b ∷ lev_row c (distance p (y ∷ q)) b ys (distances p (y ∷ q) ys))
      (new_entry_lem (distance p q) (distance (c ∷ p) q) (distance p (y ∷ q))
        (if c == y then 0 else 1))
    ∙ ap (λ r. distance (c ∷ p) (y ∷ q) ∷ r) (lev_row-distances c p (y ∷ q) ys)

abbrev full_row : Bytes → Bytes → List ℕ
full_row p y = distance p [] ∷ distances p [] y

lev_rows-full_row :
    (x p y : Bytes) → lev_rows (length p + 1) x y (full_row p y) ≡ full_row (reverse_aux x p) y
unfolding lev_rows distance
lev_rows-full_row [] p y = refl
lev_rows-full_row (c ∷ x) p y =
    let one : length p + 1 ≡ suc (length p) = omega arith in
    ap (λ i. lev_rows (i + 1) x y (i ∷ lev_row c (distance p []) i y (distances p [] y))) one
    ∙ ap (λ r. lev_rows (suc (length p) + 1) x y (suc (length p) ∷ r)) (lev_row-distances c p [] y)
    ∙ lev_rows-full_row x (c ∷ p) y

first_row_lem : (q y : Bytes) → first_row (length q) y ≡ distance [] q ∷ distances [] q y
unfolding distance distances
first_row_lem q [] = refl
first_row_lem q (b ∷ y) =
    let one : length q + 1 ≡ suc (length q) = omega arith in
    ap (λ j. length q ∷ first_row j y) one ∙ ap (λ r. length q ∷ r) (first_row_lem (b ∷ q) y)

last_entry :
    (p q y : Bytes)
    → get_or (distance p q ∷ distances p q y) (length y) 0 ≡ distance p (reverse_aux y q)
unfolding distances
last_entry p q [] = refl
last_entry p q (b ∷ y) = last_entry p (b ∷ q) y

-- The row that the loops keep gives the edit distance of the two strings, defined by its recurrence, for
-- a second string of at most 511 bytes.
pub hpbi_levenshtein-distance :
    (x y : Bytes) → length y < 512 → hpbi_levenshtein x y ≡ some (distance (reverse x) (reverse y))
unfolding hpbi_levenshtein distance
hpbi_levenshtein-distance x y h =
    let small : ltb 512 (length y + 1) ≡ false = ground arith in
    let rows = ap (lev_rows 1 x y) (first_row_lem [] y) ∙ lev_rows-full_row x [] y in
    let entry = ap (λ r. get_or r (length y) 0) rows ∙ last_entry (reverse x) [] y in
    ap (λ b. if b then none else some (get_or (lev_rows 1 x y (first_row 0 y)) (length y) 0)) small
    ∙ ap some entry
