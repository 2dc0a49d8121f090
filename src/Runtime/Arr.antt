-- ===== src/Runtime/Arr.antt =====
-- The arrays of src/hphpc/runtime/hphp_rt.c: lists, and maps with an optional open-addressing index.
-- `vals` and `keys` are the buffers; they may be longer than `len`, and what stands behind `len` is what
-- was written there before. `junk` is the content of memory that was never written. Every array has
-- `rc` 1, since no code increments it, so `hp_arr_cow` is the identity. A loop over the index that would
-- not end gives `none`.
pub mod Ops
pub mod Buffers
pub mod Scan
pub mod Map
pub mod Items
mod Tests
use holyphp.Prelude.{
  Bool, List, Option, [], false, get_or, if◌then◌else◌, leb, length, ltb, none, not, replicate, set,
  some, suc, take, true, zero, ℕ, ◌%◌, ◌&&◌, ◌*◌, ◌+◌, ◌-◌, ◌/◌, ◌==◌, ◌>>=◌, ◌^◌, ◌||◌, ◌∷◌,
}
use holyphp.Prelude.Int.{negsuc, pos, ℤ}
use holyphp.Runtime.Str.{hp_str_hash}
use holyphp.Runtime.Value.{Hval, bool, float, hp_key_eq, int, is_key, null, str}

pub record Harr (D : Type 0) : Type 0 where
  pub vals : List (Hval D)
  pub keys : List (Hval D)
  pub len : ℕ
  pub is_map : Bool
  pub next_index : ℤ
  pub index : Option (List ℕ)
  pub ibudget : ℕ

unfoldable pub hp_arr_new : {D : Type 0} → Harr D
hp_arr_new = record {
  vals = [];
  keys = [];
  len = 0;
  is_map = false;
  next_index = pos 0;
  index = none;
  ibudget = 0;
}

-- A deleted slot of the index; 0 is an empty one, and `i + 1` stands for the element `i`.
abbrev pub tombstone : ℕ
tombstone = 0xFFFF_FFFF

-- The bit pattern of an `int64_t`.
abbrev pub to_u64 : ℤ → ℕ
to_u64 (pos n) = n % 2 ^ 64
to_u64 (negsuc n) = 2 ^ 64 - 1 - n % 2 ^ 64

unfoldable pub hp_hash_int : ℤ → ℕ
hp_hash_int k = to_u64 k * 0x9E37_79B9_7F4A_7C15 % 2 ^ 64 / 2 ^ 32

unfoldable pub hash_key : {D : Type 0} → Hval D → ℕ
unfolding hp_hash_int hp_str_hash
hash_key (int k) = hp_hash_int k
hash_key (str s) = hp_str_hash s
hash_key k = 0

-- The next slot: `(slot + 1) & (icap - 1)` with `icap` a power of two.
abbrev pub next_slot : List ℕ → ℕ → ℕ
next_slot table slot = (slot + 1) % length table

-- `while (index[slot] != 0 && index[slot] != tombstone) slot = …`
unfoldable pub free_slot : ℕ → List ℕ → ℕ → Option ℕ
free_slot zero table slot = none
free_slot (suc fuel) table slot =
    let e = get_or table slot 0 in
    let rest = free_slot fuel table (next_slot table slot) in
    if e == 0 || e == tombstone then some slot else rest

-- One entry into a table, for the element `i` with the key `k`.
unfoldable pub enter : {D : Type 0} → Hval D → ℕ → List ℕ → Option (List ℕ)
unfolding hash_key free_slot
enter k i table = do
  slot ← free_slot (length table) table (hash_key k % length table)
  some (set table slot (i + 1))

-- The loop of `hp_arr_index_rebuild` over the keys, from the element `i` on.
unfoldable pub enter_all : {D : Type 0} → ℕ → List (Hval D) → List ℕ → Option (List ℕ)
unfolding enter
enter_all i [] table = some table
enter_all i (k ∷ ks) table =
    (if is_key k then enter k i table else some table) >>= enter_all (i + 1) ks

unfoldable pub hp_arr_index_rebuild : {D : Type 0} → Harr D → ℕ → Option (Harr D)
unfolding enter_all
hp_arr_index_rebuild a icap = do
  table ← enter_all 0 (take a.len a.keys) (replicate icap 0)
  some (record a { index = some table; ibudget = icap / 2 })

-- The capacity of the index, 0 where there is none.
abbrev pub icap : {D : Type 0} → Harr D → ℕ
icap a = elim a.index [ none ↦ 0 | some t ↦ length t ]

-- `if (a->ibudget == 0)`: grow to keep the load low, or rebuild to clear the tombstones.
unfoldable pub refresh_index : {D : Type 0} → Harr D → Option (Harr D)
unfolding hp_arr_index_rebuild
refresh_index a =
    if a.ibudget == 0
    then hp_arr_index_rebuild a (if leb (icap a) (a.len * 2) then icap a * 2 else icap a)
    else some a

-- The entry for the element `i` in an array that has an index.
unfoldable pub index_entry : {D : Type 0} → Hval D → ℕ → Harr D → Option (Harr D)
unfolding enter
index_entry k i a = elim a.index [
  | none ↦ some a
  | some t ↦ do table ← enter k i t; some (record a { index = some table; ibudget = a.ibudget - 1 })
]

-- The index is built at 12 elements; until then an addition does nothing.
unfoldable pub hp_arr_index_add : {D : Type 0} → Hval D → Harr D → ℕ → Option (Harr D)
unfolding refresh_index index_entry hp_arr_index_rebuild
hp_arr_index_add junk a i =
    let k = get_or a.keys i junk in
    if not (is_key k) then some a else elim a.index [
      | some t ↦ refresh_index a >>= index_entry k i
      | none ↦
          if ltb a.len 12
          then some a
          else hp_arr_index_rebuild a 32 >>= (λ b. refresh_index b >>= index_entry k i)
    ]

-- The loop of `hp_arr_index_del`: the first entry of the element becomes a tombstone.
unfoldable pub delete_entry : ℕ → ℕ → List ℕ → ℕ → Option (List ℕ)
delete_entry zero i table slot = none
delete_entry (suc fuel) i table slot =
    let e = get_or table slot 0 in
    let rest = delete_entry fuel i table (next_slot table slot) in
    if e == 0 then some table else if e == i + 1 then some (set table slot tombstone) else rest

unfoldable pub hp_arr_index_del : {D : Type 0} → Hval D → Harr D → ℕ → Option (Harr D)
unfolding hash_key delete_entry
hp_arr_index_del junk a i =
    let k = get_or a.keys i junk in
    elim a.index [
      | none ↦ some a
      | some t ↦
          if not (is_key k)
          then some a
          else delete_entry (length t) i t (hash_key k % length t)
            >>= (λ table. some (record a { index = some table }))
    ]

-- What a lookup gives: the element, -1, or an endless loop.
pub data Found : Type 0 where
  element : ℕ → Found
  missing endless : Found

-- The loop of `hp_key_index` over the index.
unfoldable pub probe : {D : Type 0} → Hval D → List (Hval D) → Hval D → ℕ → List ℕ → ℕ → Found
unfolding hp_key_eq
probe junk keys key zero table slot = endless
probe junk keys key (suc fuel) table slot =
    let e = get_or table slot 0 in
    let rest = probe junk keys key fuel table (next_slot table slot) in
    if e == 0
    then missing
    else if not (e == tombstone) && hp_key_eq (get_or keys (e - 1) junk) key
    then element (e - 1)
    else rest

-- The scan over the keys, from the element `i` on.
unfoldable pub scan : {D : Type 0} → ℕ → List (Hval D) → Hval D → Found
unfolding hp_key_eq
scan i [] key = missing
scan i (k ∷ ks) key = let rest = scan (i + 1) ks key in if hp_key_eq k key then element i else rest

-- `hp_val_to_int` of a key that is no string; `trunc` is C's conversion of a double to `int64_t`.
abbrev pub list_position : {D : Type 0} → (D → ℤ) → Hval D → ℤ
list_position trunc null = pos 0
list_position trunc (int i) = i
list_position trunc (float d) = trunc d
list_position trunc (bool b) = pos (if b then 1 else 0)
list_position trunc k = pos 1

abbrev pub in_list : ℕ → ℤ → Found
in_list len (negsuc n) = missing
in_list len (pos n) = if ltb n len then element n else missing

abbrev pub is_str : {D : Type 0} → Hval D → Bool
is_str (str s) = true
is_str k = false

unfoldable pub map_index : {D : Type 0} → Hval D → Harr D → Hval D → Found
unfolding probe scan hash_key
map_index junk a key = elim a.index [
  | none ↦ scan 0 (take a.len a.keys) key
  | some t ↦
      if is_key key
      then probe junk a.keys key (length t) t (hash_key key % length t)
      else scan 0 (take a.len a.keys) key
]

unfoldable pub hp_key_index : {D : Type 0} → Hval D → (D → ℤ) → Harr D → Hval D → Found
unfolding map_index
hp_key_index junk trunc a key =
    if a.is_map
    then map_index junk a key
    else if is_str key
    then missing
    else in_list a.len (list_position trunc key)
