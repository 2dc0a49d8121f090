-- ===== src/Runtime/Usort.antt =====
-- usort of src/hphpc/runtime/hphp_std.c: hp_sort_with_fn, an insertion sort in the buffers of the array
-- with a closure of the program, which is the parameter `call`: what hp_val_to_int makes of its result.
-- The closure changes nothing else. No keys (a NULL pointer) are the empty list, so that a write of a
-- key changes nothing there.
pub mod Back
pub mod Sorted
pub mod Stable
mod Tests
use holyphp.Prelude.{
  Bool, [], false, get_or, if◌then◌else◌, ltb, not, set, suc, true, zero, ℕ, ◌+◌, ◌-◌, ◌∷◌,
}
use holyphp.Prelude.Int.{negsuc, pos, ℤ}
use holyphp.Runtime.Value.{Hval, int, null}
use holyphp.Runtime.Arr.{Harr}

-- `hp_val_to_int(r) > 0`
abbrev pub is_positive : ℤ → Bool
is_positive (pos n) = ltb 0 n
is_positive (negsuc n) = false

module _ {D : Type 0} (junk : Hval D) (call : Hval D → Hval D → ℤ) where
  -- `A`: the key or the value of the element `j`; without keys its position is the key.
  abbrev pub compared : Bool → Harr D → ℕ → Hval D
  compared by_key a j =
      if by_key
      then elim a.keys [ [] ↦ int (pos j) | k ∷ ks ↦ get_or (k ∷ ks) j junk ]
      else get_or a.vals j junk

  -- `a->vals[j] = v; if (a->keys) a->keys[j] = k;`
  abbrev pub put : Harr D → ℕ → Hval D → Hval D → Harr D
  put a j k v = record a { vals = set a.vals j v; keys = set a.keys j k }

  -- The inner loop from `j` down, with the element that it moves, and the writes behind the loop.
  unfoldable pub sink : Bool → Hval D → Hval D → ℕ → Harr D → Harr D
  sink by_key tk tv zero a = put a 0 tk tv
  sink by_key tk tv (suc j) a =
      let rest =
        sink by_key tk tv j (put a (suc j) (get_or a.keys j junk) (get_or a.vals j junk)) in
      if is_positive (call (compared by_key a j) (if by_key then tk else tv))
      then rest
      else put a (suc j) tk tv

  -- `tk`
  abbrev pub moved_key : Harr D → ℕ → Hval D
  moved_key a i = elim a.keys [ [] ↦ null | k ∷ ks ↦ get_or (k ∷ ks) i junk ]

  -- The outer loop from `i` on, `n` rounds.
  unfoldable pub sort_loop : Bool → ℕ → ℕ → Harr D → Harr D
  unfolding sink
  sort_loop by_key zero i a = a
  sort_loop by_key (suc n) i a =
      sort_loop by_key n (i + 1) (sink by_key (moved_key a i) (get_or a.vals i junk) i a)

  unfoldable pub hp_sort_with_fn : Bool → Harr D → Harr D
  unfolding sort_loop
  hp_sort_with_fn by_key a = if ltb a.len 2 then a else sort_loop by_key (a.len - 1) 1 a

  -- The array that usort leaves.
  unfoldable pub hpbi_usort : Harr D → Harr D
  unfolding hp_sort_with_fn
  hpbi_usort a = if not a.is_map then hp_sort_with_fn false a else a

  unfoldable pub hpbi_uasort : Harr D → Harr D
  unfolding hp_sort_with_fn
  hpbi_uasort a = hp_sort_with_fn false a

  unfoldable pub hpbi_uksort : Harr D → Harr D
  unfolding hp_sort_with_fn
  hpbi_uksort a = hp_sort_with_fn true a
