-- ===== src/Runtime/Str/Slice.antt =====
-- What `hp_str_slice` of src/hphpc/runtime/hphp_rt.c cuts out.
use native.Mathlib.Nat.{zero-add}
use holyphp.Prelude.{
  Bool-cases, Bytes, [], ap, arith, drop, inl, inr, leb, leb→le, length, refl, suc, take, zero, ℕ,
  ◌++◌, ◌+◌, ◌-◌, ◌∷◌, ◌≡◌, ◌≤◌,
}
use holyphp.Prelude.Int.{negsuc, pos, ℤ}
use holyphp.Runtime.Str.{end_index, hp_str_slice, norm_index}

-- `norm_index` gives a position inside the string or at its end, for every index.
pub norm_index-le : (i : ℤ) (len : ℕ) → norm_index i len ≤ len
unfolding norm_index
norm_index-le (pos n) len = ground arith
norm_index-le (negsuc n) len = ground arith

pub end_index-le : (i : ℤ) (len : ℕ) → end_index i len ≤ len
unfolding end_index
end_index-le (pos n) len = ground arith
end_index-le (negsuc n) len = ground arith

norm_index_within : (n len : ℕ) → n ≤ len → norm_index (pos n) len ≡ n
unfolding norm_index
norm_index_within n len h = ground arith

end_index_within : (n len : ℕ) → n ≤ len → end_index (pos n) len ≡ n
unfolding end_index
end_index_within n len h = ground arith

-- An index from the end is the position that many bytes before it.
norm_index_from_end : (n len : ℕ) → n + 1 ≤ len → norm_index (negsuc n) len ≡ len - (n + 1)
unfolding norm_index
norm_index_from_end n len h = ground arith

end_index_from_end : (n len : ℕ) → n + 1 ≤ len → end_index (negsuc n) len ≡ len - (n + 1)
unfolding end_index
end_index_from_end n len h = ground arith

-- The slice in terms of the two positions.
slice_cut :
    (s : Bytes) (i j : ℤ)
    → hp_str_slice s i j
      ≡ take (end_index j (length s) - norm_index i (length s)) (drop (norm_index i (length s)) s)
unfolding hp_str_slice
slice_cut s i j =
    let a = norm_index i (length s) in
    let b = end_index j (length s) in
    elim (Bool-cases (leb b a)) [
      | inr e ↦ rw e
      | inl e ↦ let empty : b - a ≡ 0 = omega (arith, leb→le b a e) in rw (e, empty)
    ]

take-nil : (n : ℕ) → take {A = ℕ} n [] ≡ []
take-nil zero = refl
take-nil (suc n) = refl

drop-nil : (n : ℕ) → drop {A = ℕ} n [] ≡ []
drop-nil zero = refl
drop-nil (suc n) = refl

take_split : (m n : ℕ) (s : Bytes) → take m s ++ take n (drop m s) ≡ take (m + n) s
take_split zero n s = rw zero-add
take_split (suc m) n [] = rw (take-nil, take-nil)
take_split (suc m) n (c ∷ s) =
    let e : suc m + n ≡ suc (m + n) = omega arith in rw e (ap (λ r. c ∷ r) (take_split m n s))

drop-drop : (m n : ℕ) (s : Bytes) → drop n (drop m s) ≡ drop (m + n) s
drop-drop zero n s = rw zero-add
drop-drop (suc m) n [] = rw (drop-nil, drop-nil)
drop-drop (suc m) n (c ∷ s) =
    let e : suc m + n ≡ suc (m + n) = omega arith in rw e (drop-drop m n s)

-- Slices that meet at a position inside the string join to one slice.
pub slice_join :
    (s : Bytes) (a b c : ℕ)
    → a ≤ b
    → b ≤ c
    → c ≤ length s
    → hp_str_slice s (pos a) (pos b) ++ hp_str_slice s (pos b) (pos c)
      ≡ hp_str_slice s (pos a) (pos c)
slice_join s a b c ab bc within =
    let e : c - a ≡ (b - a) + (c - b) = omega arith in
    let f : a + (b - a) ≡ b = omega arith in
    rw (
      slice_cut s (pos a) (pos b),
      slice_cut s (pos b) (pos c),
      slice_cut s (pos a) (pos c),
      norm_index_within a (length s) (omega arith),
      norm_index_within b (length s) (omega arith),
      end_index_within b (length s) (omega arith),
      end_index_within c (length s) within,
      e,
      ← take_split,
      drop-drop,
      f,
    )

-- Cutting at a place counted from the end is cutting at the same place counted from the start: the
-- last `n + 1` bytes are the slice from -(n + 1) to the length.
slice_from_end :
    (s : Bytes) (n : ℕ) (j : ℤ)
    → n + 1 ≤ length s
    → (hp_str_slice s (negsuc n) j ≡ hp_str_slice s (pos (length s - (n + 1))) j)
      × (hp_str_slice s j (negsuc n) ≡ hp_str_slice s j (pos (length s - (n + 1))))
slice_from_end s n j h = (
  rw (
    slice_cut s (negsuc n) j,
    slice_cut s (pos (length s - (n + 1))) j,
    norm_index_from_end n (length s) h,
    norm_index_within (length s - (n + 1)) (length s) (omega arith),
  ),
  rw (
    slice_cut s j (negsuc n),
    slice_cut s j (pos (length s - (n + 1))),
    end_index_from_end n (length s) h,
    end_index_within (length s - (n + 1)) (length s) (omega arith),
  ),
)
