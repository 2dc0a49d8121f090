-- ===== src/Runtime/Arr/Ops.antt =====
-- The operations on arrays of src/hphpc/runtime/hphp_rt.c. `none` is a loop over the hash index that
-- does not end; an operation that touches no index always returns.
use holyphp.Prelude.{
  Bool, List, Option, [], drop, false, get_or, if◌then◌else◌, none, not, reverse, some, suc, take,
  true, zero, ℕ, ◌++◌, ◌+◌, ◌-◌, ◌==◌, ◌>>=◌, ◌||◌, ◌∷◌,
}
use holyphp.Prelude.Int.{ltb_ℤ, pos, ℤ, ◌+ℤ◌}
use holyphp.Runtime.Value.{Hval, eq_ℤ, int, null, str}
use holyphp.Runtime.Arr.{
  Found, Harr, element, endless, hp_arr_index_add, hp_arr_index_del, hp_arr_new, hp_key_index,
  missing,
}

unfoldable pub found_bool : Found → Option Bool
found_bool (element i) = some true
found_bool missing = some false
found_bool endless = none

module _ {D : Type 0} (junk : Hval D) where
  -- A write at a position of a buffer; behind what was written before stands junk.
  unfoldable pub write : List (Hval D) → ℕ → Hval D → List (Hval D)
  write [] zero v = v ∷ []
  write [] (suc i) v = junk ∷ write [] i v
  write (x ∷ xs) zero v = v ∷ xs
  write (x ∷ xs) (suc i) v = x ∷ write xs i v

  -- The new element takes the next integer key; the index is left as it is.
  unfoldable pub hp_arr_push : Harr D → Hval D → Harr D
  unfolding write ◌+ℤ◌
  hp_arr_push a v = record a {
    vals = write a.vals a.len v;
    keys = if a.is_map then write a.keys a.len (int a.next_index) else a.keys;
    len = a.len + 1;
    next_index = a.next_index +ℤ pos 1;
  }

  unfoldable pub value_at : Harr D → Found → Option (Hval D)
  value_at a (element i) = some (get_or a.vals i junk)
  value_at a missing = some null
  value_at a endless = none

  -- Whether a new key turns a list into a map.
  abbrev pub becomes_map : Harr D → Hval D → Bool
  becomes_map a (str s) = true
  becomes_map a (int i) = not (eq_ℤ i a.next_index)
  becomes_map a k = false

  -- `if (idx.tag == HV_INT && idx.u.i >= a->next_index) a->next_index = idx.u.i + 1`
  unfoldable pub bump : Hval D → Harr D → Harr D
  unfolding ◌+ℤ◌
  bump (int i) a = if ltb_ℤ i a.next_index then a else record a { next_index = i +ℤ pos 1 }
  bump k a = a

  -- A new element behind the others, under a key that is not there.
  unfoldable pub append_key : Harr D → Hval D → Hval D → Harr D
  unfolding write
  append_key a k v =
      let m = a.is_map || becomes_map a k in
      record a {
        is_map = m;
        vals = write a.vals a.len v;
        keys = if m then write a.keys a.len k else a.keys;
        len = a.len + 1;
      }

  unfoldable pub set_found : Harr D → Hval D → Hval D → Found → Option (Harr D)
  unfolding append_key write hp_arr_index_add bump
  set_found a k v endless = none
  set_found a k v (element i) = some (record a { vals = write a.vals i v })
  set_found a k v missing = do
    let b = append_key a k v
    c ← (if b.is_map then hp_arr_index_add junk b a.len else some b)
    some (bump k c)

  -- The last element moves to the place `i` that is cleared.
  unfoldable pub move_last : Harr D → ℕ → Option (Harr D)
  unfolding hp_arr_index_del hp_arr_index_add write
  move_last a i = do
    let last = a.len - 1
    b ← (if a.is_map then hp_arr_index_del junk a i else some a)
    c ← (if a.is_map then hp_arr_index_del junk b last else some b)
    let d = record c {
      keys = if a.is_map then write c.keys i (get_or c.keys last junk) else c.keys;
      vals = write c.vals i (get_or c.vals last junk);
    }
    e ←
        (if a.is_map
          then elim d.index [ none ↦ some d | some t ↦ hp_arr_index_add junk d i ]
          else some d)
    some (record e { len = last })

  unfoldable pub unset_found : Harr D → Found → Option (Harr D)
  unfolding move_last hp_arr_index_del
  unset_found a endless = none
  unset_found a missing = some a
  unset_found a (element i) =
      let last = a.len - 1 in
      if i == last
      then (if a.is_map then hp_arr_index_del junk a i else some a)
        >>= (λ b. some (record b { len = last }))
      else move_last a i

  -- The new array and the value.
  unfoldable pub hp_arr_pop : Harr D → Harr D × Hval D
  hp_arr_pop a =
      if a.len == 0
      then (a, null)
      else (record a { len = a.len - 1 }, get_or a.vals (a.len - 1) junk)

  -- `memmove(buf, buf + 1, …)`: what stands behind the last element stays.
  abbrev pub shift_down : ℕ → List (Hval D) → List (Hval D)
  shift_down len buf = take (len - 1) (drop 1 buf) ++ drop (len - 1) buf

  unfoldable pub hp_arr_shift : Harr D → Harr D × Hval D
  hp_arr_shift a = if a.len == 0 then (a, null) else (
    record a {
      vals = shift_down a.len a.vals;
      keys = if a.is_map then shift_down a.len a.keys else a.keys;
      len = a.len - 1;
    },
    get_or a.vals 0 junk,
  )

  abbrev pub shift_up : ℕ → Hval D → List (Hval D) → List (Hval D)
  shift_up len v buf = v ∷ (take len buf ++ drop (len + 1) buf)

  unfoldable pub hp_arr_unshift : Harr D → Hval D → Harr D
  unfolding ◌+ℤ◌
  hp_arr_unshift a v = record a {
    vals = shift_up a.len v a.vals;
    keys = if a.is_map then shift_up a.len (int a.next_index) a.keys else a.keys;
    next_index = if a.is_map then a.next_index +ℤ pos 1 else a.next_index;
    len = a.len + 1;
  }

  -- `for (…) hp_arr_push(r, …)`
  unfoldable pub push_all : Harr D → List (Hval D) → Harr D
  unfolding hp_arr_push
  push_all r [] = r
  push_all r (v ∷ vs) = push_all (hp_arr_push r v) vs

  unfoldable pub hp_arr_values : Harr D → Harr D
  unfolding push_all hp_arr_new
  hp_arr_values a = push_all hp_arr_new (take a.len a.vals)

  abbrev pub positions : ℕ → ℕ → List (Hval D)
  positions i zero = []
  positions i (suc n) = int (pos i) ∷ positions (i + 1) n

  unfoldable pub hp_arr_keys : Harr D → Harr D
  unfolding push_all hp_arr_new
  hp_arr_keys a = push_all hp_arr_new (if a.is_map then take a.len a.keys else positions 0 a.len)

  unfoldable pub hp_arr_reverse : Harr D → Harr D
  unfolding push_all hp_arr_new
  hp_arr_reverse a = push_all hp_arr_new (reverse (take a.len a.vals))

-- The operations that look a key up.
module _ {D : Type 0} (junk : Hval D) (trunc : D → ℤ) where
  unfoldable pub hp_arr_get : Harr D → Hval D → Option (Hval D)
  unfolding hp_key_index value_at
  hp_arr_get a key = value_at junk a (hp_key_index junk trunc a key)

  unfoldable pub hp_arr_has : Harr D → Hval D → Option Bool
  unfolding hp_key_index found_bool
  hp_arr_has a key = found_bool (hp_key_index junk trunc a key)

  unfoldable pub hp_arr_set : Harr D → Hval D → Hval D → Option (Harr D)
  unfolding hp_arr_push set_found hp_key_index
  hp_arr_set a null v = some (hp_arr_push junk a v)
  hp_arr_set a k v = set_found junk a k v (hp_key_index junk trunc a k)

  unfoldable pub hp_arr_unset : Harr D → Hval D → Option (Harr D)
  unfolding unset_found hp_key_index
  hp_arr_unset a key = unset_found junk a (hp_key_index junk trunc a key)
