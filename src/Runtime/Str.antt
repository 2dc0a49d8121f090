-- ===== src/Runtime/Str.antt =====
-- The byte strings of src/hphpc/runtime/hphp_rt.c. A string is the list of its bytes; a NULL pointer,
-- which every operation treats as the empty string or refuses, is not modelled. Lengths stay below
-- 2 ^ 63, so that the casts to `int64_t` keep them.
pub mod Slice
pub mod Search
pub mod Trim
pub mod Builder
pub mod Numeric
pub mod Order
mod Tests
use Prim.Native.Nat.{bit_xor}
use holyphp.Prelude.{
  Bool, Bytes, Option, [], drop, false, if◌then◌else◌, is_lower, is_upper, leb, length, ltb, map,
  none, some, suc, take, true, zero, ℕ, ◌%◌, ◌&&◌, ◌*◌, ◌++◌, ◌+◌, ◌-◌, ◌==◌, ◌^◌, ◌||◌, ◌∷◌,
}
use holyphp.Prelude.Int.{ltb_ℤ, negsuc, pos, ℤ, ◌+ℤ◌}

-- A negative index counts from the end.
abbrev pub from_end : ℤ → ℕ → ℤ
from_end i len = if ltb_ℤ i (pos 0) then i +ℤ pos len else i

abbrev pub clamp : ℕ → ℤ → ℕ
clamp len (negsuc n) = 0
clamp len (pos n) = if ltb len n then len else n

unfoldable pub norm_index : ℤ → ℕ → ℕ
unfolding ◌+ℤ◌
norm_index i len = clamp len (from_end i len)

-- The end of a slice: out of range on either side is the length.
abbrev pub clamp_end : ℕ → ℤ → ℕ
clamp_end len (negsuc n) = len
clamp_end len (pos n) = if ltb len n then len else n

unfoldable pub end_index : ℤ → ℕ → ℕ
unfolding ◌+ℤ◌
end_index i len = clamp_end len (from_end i len)

unfoldable pub hp_str_slice : Bytes → ℤ → ℤ → Bytes
unfolding norm_index end_index
hp_str_slice s start end =
    let a = norm_index start (length s) in
    let b = end_index end (length s) in if leb b a then [] else take (b - a) (drop a s)

unfoldable pub hp_str_char_at : Bytes → ℤ → Bytes
hp_str_char_at s (negsuc n) = []
hp_str_char_at s (pos i) = if leb (length s) i then [] else take 1 (drop i s)

-- `memcmp(s, needle, needle->len) == 0` where enough bytes are left.
unfoldable pub is_prefix : Bytes → Bytes → Bool
is_prefix [] s = true
is_prefix (c ∷ p) [] = false
is_prefix (c ∷ p) (d ∷ s) = c == d && is_prefix p s

-- The loop of `hp_str_index`, from the position `i` on; -1 is `none`.
unfoldable pub index_from : ℕ → Bytes → Bytes → Option ℕ
unfolding is_prefix
index_from i [] needle = none
index_from i (c ∷ s) needle =
    let rest = index_from (i + 1) s needle in if is_prefix needle (c ∷ s) then some i else rest

unfoldable pub hp_str_index : Bytes → Bytes → Option ℕ
unfolding index_from
hp_str_index hay [] = some 0
hp_str_index hay (c ∷ needle) = index_from 0 hay (c ∷ needle)

-- The loop of `hp_str_replace`: `out` is what has been written.
unfoldable pub replace_loop : ℕ → Bytes → Bytes → Bytes → Bytes → Bytes
unfolding is_prefix
replace_loop zero s search by out = out
replace_loop (suc fuel) [] search by out = out
replace_loop (suc fuel) (c ∷ s) search by out =
    let hit = replace_loop fuel (drop (length search) (c ∷ s)) search by (out ++ by) in
    let miss = replace_loop fuel s search by (out ++ c ∷ []) in
    if is_prefix search (c ∷ s) then hit else miss

unfoldable pub hp_str_replace : Bytes → Bytes → Bytes → Bytes
unfolding replace_loop
hp_str_replace subject [] by = subject
hp_str_replace subject (c ∷ search) by =
    replace_loop (suc (length subject)) subject (c ∷ search) by []

abbrev pub is_ws : ℕ → Bool
is_ws c = c == 32 || c == 9 || c == 10 || c == 13 || c == 0 || c == 11 || c == 12

-- `while (a < b && is_ws(s->data[a])) a++`, as the bytes that are left.
unfoldable pub trim_left : Bytes → Bytes
trim_left [] = []
trim_left (c ∷ s) = if is_ws c then trim_left s else c ∷ s

-- A byte before what is kept: a blank goes if nothing is kept behind it.
abbrev pub keep : ℕ → Bytes → Bytes
keep c [] = if is_ws c then [] else c ∷ []
keep c (d ∷ r) = c ∷ d ∷ r

-- `while (b > a && is_ws(s->data[b - 1])) b--`
unfoldable pub trim_right : Bytes → Bytes
trim_right [] = []
trim_right (c ∷ s) = keep c (trim_right s)

unfoldable pub hp_str_trim : Bytes → Bytes
unfolding trim_left trim_right
hp_str_trim s = trim_right (trim_left s)

unfoldable pub to_upper : ℕ → ℕ
to_upper c = if is_lower c then c - 32 else c

unfoldable pub to_lower : ℕ → ℕ
to_lower c = if is_upper c then c + 32 else c

unfoldable pub hp_str_toupper : Bytes → Bytes
unfolding to_upper
hp_str_toupper s = map to_upper s

unfoldable pub hp_str_tolower : Bytes → Bytes
unfolding to_lower
hp_str_tolower s = map to_lower s

abbrev pub copies : ℕ → Bytes → Bytes
copies zero s = []
copies (suc n) s = s ++ copies n s

unfoldable pub hp_str_repeat : Bytes → ℤ → Bytes
hp_str_repeat s (negsuc n) = []
hp_str_repeat s (pos n) = copies n s

-- The sign of the result of `hp_str_cmp`; the size of what `memcmp` returns is not specified.
pub data Sign : Type 0 where
  less same more : Sign

abbrev pub opposite : Sign → Sign
opposite less = more
opposite same = same
opposite more = less

unfoldable pub hp_str_cmp : Bytes → Bytes → Sign
hp_str_cmp [] [] = same
hp_str_cmp [] (b ∷ t) = less
hp_str_cmp (a ∷ s) [] = more
hp_str_cmp (a ∷ s) (b ∷ t) = if ltb a b then less else if ltb b a then more else hp_str_cmp s t

-- FNV-1a over 32 bits; 0 is kept for "not computed".
unfoldable pub fnv1a : ℕ → Bytes → ℕ
fnv1a h [] = h
fnv1a h (c ∷ s) = fnv1a (bit_xor h c * 16_777_619 % 2 ^ 32) s

unfoldable pub hp_str_hash : Bytes → ℕ
unfolding fnv1a
hp_str_hash s = let h = fnv1a 2_166_136_261 s in if h == 0 then 1 else h
