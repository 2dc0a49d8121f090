-- ===== src/Runtime/Regex/Parse/Pieces.antt =====
-- The parser of patterns of src/hphpc/runtime/hphp_std.c never goes back in the pattern: classes, counts and
-- groups.
use native.Mathlib.Nat.{le_refl, le_trans}
use holyphp.Prelude.{
  Bool, Bytes, Option, [], arith, false, if_lem, if◌then◌else◌, is_digit, length, none, not, some,
  suc, true, zero, ℕ, ◌&&◌, ◌*◌, ◌+◌, ◌-◌, ◌==◌, ◌∷◌, ◌≤◌,
}
use holyphp.Runtime.Regex.{Rx}
use holyphp.Runtime.Regex.Parse.{
  Flags, RxParsed, and_then, class_escape, class_item, class_loop, class_range, closed, failed,
  group_of, is_range, lazily, ok, parse_class, quantified, read_bounds, read_count, rx_escape_class,
  rx_peek, rx_skip, starved,
}

-- The parser has ended and left at most `n` bytes.
abbrev pub Leaves : {A : Type 0} → ℕ → RxParsed A → Type 0
Leaves n (ok a rest ng) = length rest ≤ n
Leaves n failed = Unit
Leaves n starved = ⊥

pub and_then-Leaves :
    {A B : Type 0} (n k : ℕ) (m : RxParsed A) (f : A → Bytes → ℕ → RxParsed B)
    → Leaves n m
    → ((a : A) (rest : Bytes) (ng : ℕ) → length rest ≤ n → Leaves k (f a rest ng))
    → Leaves k (and_then m f)
and_then-Leaves n k (ok a rest ng) f h g = g a rest ng h
and_then-Leaves n k failed f h g = tt
and_then-Leaves n k starved f h g = absurd h

pub fewer : {A : Type 0} (n k : ℕ) (m : RxParsed A) → n ≤ k → Leaves n m → Leaves k m
fewer n k (ok a rest ng) le h = le_trans h le
fewer n k failed le h = tt
fewer n k starved le h = h

pub skip_le : (rest : Bytes) → length (rx_skip rest) ≤ length rest
skip_le [] = omega arith
skip_le (c ∷ rest) = omega arith

pub skip2_le : (rest : Bytes) → length (rx_skip (rx_skip rest)) ≤ length rest
skip2_le rest = le_trans (skip_le (rx_skip rest)) (skip_le rest)

range_le :
    (lo : ℕ) (rest : Bytes) (ci : Bool) (chars : ℕ → Bool)
    → length (class_range lo rest ci chars).1 ≤ length rest
range_le lo rest ci chars =
    let once = skip_le rest in
    let two = skip2_le rest in
    let three = skip_le (rx_skip (rx_skip rest)) in
    if_lem (λ (p : (ℕ → Bool) × Bytes). length p.1 ≤ length rest) (is_range rest)
      (λ _.
        if_lem (λ (t : Bytes). length (rx_skip t) ≤ length rest) (rx_peek (rx_skip rest) == 92)
          (λ _. le_trans three two) (λ _. two))
      (λ _. le_refl (length rest))

escape_le :
    (o : Option (ℕ → Bool)) (e : ℕ) (rest : Bytes) (ci : Bool) (chars : ℕ → Bool)
    → length (class_escape o e rest ci chars).1 ≤ length rest
escape_le none e rest ci chars = range_le e rest ci chars
escape_le (some chars') e rest ci chars = le_refl (length rest)

item_le :
    (lo : ℕ) (rest : Bytes) (ci : Bool) (chars : ℕ → Bool)
    → length (class_item lo rest ci chars).1 ≤ length rest
unfolding class_item
item_le lo rest ci chars =
    if_lem (λ (p : (ℕ → Bool) × Bytes). length p.1 ≤ length rest) (lo == 92)
      (λ _.
        le_trans
          (escape_le (rx_escape_class chars (rx_peek rest) ci) (rx_peek rest) (rx_skip rest) ci
            chars)
          (skip_le rest))
      (λ _. range_le lo rest ci chars)

class_le :
    (fuel : ℕ) (first ci : Bool) (chars : ℕ → Bool) (rest : Bytes)
    → length (class_loop fuel first ci chars rest).1 ≤ length rest
unfolding class_loop
class_le zero first ci chars rest = le_refl (length rest)
class_le (suc fuel) first ci chars [] = omega arith
class_le (suc fuel) first ci chars (lo ∷ rest) =
    let (chars', left) = class_item lo rest ci chars in
    if_lem (λ (p : (ℕ → Bool) × Bytes). length p.1 ≤ length (lo ∷ rest)) (lo == b']' && not first)
      (λ _. le_refl (length (lo ∷ rest)))
      (λ _.
        let shorter = item_le lo rest ci chars in
        omega (
          arith,
          class_le fuel false ci (class_item lo rest ci chars).0 (class_item lo rest ci chars).1,
        ))

count_le : (n : ℕ) (rest : Bytes) → length (read_count n rest).1 ≤ length rest
unfolding read_count
count_le n [] = omega arith
count_le n (c ∷ rest) =
    if_lem (λ (p : ℕ × Bytes). length p.1 ≤ length (c ∷ rest)) (is_digit c)
      (λ _. omega (arith, count_le (n * 10 + (c - b'0')) rest)) (λ _. le_refl (length (c ∷ rest)))

bounds_le : (rest : Bytes) → length (read_bounds rest).1 ≤ length rest
unfolding read_bounds
bounds_le rest =
    let after = (read_count 0 rest).1 in
    let first = count_le 0 rest in
    let comma = le_trans (skip_le after) first in
    if_lem (λ (p : (ℕ × Option ℕ) × Bytes). length p.1 ≤ length rest) (rx_peek after == b',')
      (λ _.
        if_lem (λ (p : (ℕ × Option ℕ) × Bytes). length p.1 ≤ length rest)
          (is_digit (rx_peek (rx_skip after))) (λ _. le_trans (count_le 0 (rx_skip after)) comma)
          (λ _. comma))
      (λ _. first)

lazily-Leaves :
    (atom : Rx) (rmin : ℕ) (rmax : Option ℕ) (rest : Bytes) (ng n : ℕ)
    → length rest ≤ n
    → Leaves n (lazily atom rmin rmax rest ng)
lazily-Leaves atom rmin rmax rest ng n h =
    if_lem (Leaves n) (rx_peek rest == b'?') (λ _. le_trans (skip_le rest) h) (λ _. h)

pub quantified-Leaves :
    (atom : Rx) (rest : Bytes) (ng : ℕ) → Leaves (length rest) (quantified atom rest ng)
unfolding quantified
quantified-Leaves atom rest ng =
    let n = length rest in
    let c = rx_peek rest in
    let behind = rx_skip rest in
    let ((mn, mx), left) = read_bounds behind in
    let shorter = skip_le rest in
    let left_le = le_trans (bounds_le behind) shorter in
    let past = le_trans (skip_le (read_bounds behind).1) left_le in
    if_lem (Leaves n) (c == b'*') (λ _. lazily-Leaves atom 0 none behind ng n shorter)
      (λ _.
        if_lem (Leaves n) (c == b'+') (λ _. lazily-Leaves atom 1 none behind ng n shorter)
          (λ _.
            if_lem (Leaves n) (c == b'?') (λ _. lazily-Leaves atom 0 (some 1) behind ng n shorter)
              (λ _.
                if_lem (Leaves n) (c == b'{')
                  (λ _.
                    if_lem (Leaves n) (rx_peek left == b'}')
                      (λ _. lazily-Leaves atom mn mx (rx_skip left) ng n past) (λ _. tt))
                  (λ _. le_refl n))))

pub group_of-Leaves :
    (n gidx : ℕ) (inner : Rx) (rest : Bytes) (ng : ℕ)
    → length rest ≤ n
    → Leaves n (group_of gidx inner rest ng)
group_of-Leaves n gidx inner rest ng h =
    if_lem (Leaves n) (rx_peek rest == b')') (λ _. le_trans (skip_le rest) h) (λ _. tt)

closed-Leaves :
    (n : ℕ) (neg : Bool) (p : (ℕ → Bool) × Bytes) (ng : ℕ)
    → length p.1 ≤ n
    → Leaves n (closed neg p ng)
closed-Leaves n neg (chars, rest) ng h =
    if_lem (Leaves n) (rx_peek rest == b']') (λ _. le_trans (skip_le rest) h) (λ _. tt)

pub class-Leaves :
    (fl : Flags) (rest : Bytes) (ng : ℕ) → Leaves (length rest) (parse_class fl rest ng)
unfolding parse_class
class-Leaves fl rest ng =
    let neg = rx_peek rest == b'^' in
    let body = if neg then rx_skip rest else rest in
    let inside : length body ≤ length rest =
      if_lem (λ (t : Bytes). length t ≤ length rest) neg (λ _. skip_le rest)
        (λ _. le_refl (length rest)) in
    closed-Leaves (length rest) neg (class_loop (length body) true fl.ci (λ _. false) body) ng
      (le_trans (class_le (length body) true fl.ci (λ _. false) body) inside)
