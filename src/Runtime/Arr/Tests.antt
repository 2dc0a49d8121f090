-- ===== src/Runtime/Arr/Tests.antt =====
-- Runs of the array operations. The doubles are a type with no value.
use holyphp.Prelude.{
  Bool, Bytes, Option, [], arith, codes, false, none, refl, some, suc, true, zero, ℕ, ◌+◌, ◌<◌,
  ◌>>=◌, ◌∷◌, ◌≡◌,
}
use holyphp.Prelude.Int.{pos, ℤ}
use holyphp.Runtime.Value.{Hval, int, null, str}
use holyphp.Runtime.Arr.{Harr, hp_arr_new}
use holyphp.Runtime.Arr.Ops.{hp_arr_has, hp_arr_set, hp_arr_unset}
use holyphp.Runtime.Arr.Map.{IsPlainMap, IsUpdate, hp_arr_get-hp_arr_set}

abbrev V : Type 0
V = Hval ⊥

abbrev A : Type 0
A = Harr ⊥

abbrev no_double : ⊥ → ℤ
no_double d = pos 0

-- `$m["a"] = 0; $m["b"] = 1; …` for `n` keys.
insert_keys : ℕ → ℕ → A → Option A
unfolding hp_arr_set
insert_keys zero i a = some a
insert_keys (suc n) i a =
    hp_arr_set null no_double a (str ((b'a' + i) ∷ [])) (int (pos i)) >>= insert_keys n (i + 1)

has_key : Bytes → A → Option Bool
unfolding hp_arr_has
has_key k a = hp_arr_has null no_double a (str k)

eleven_unset :
    (insert_keys 11 0 hp_arr_new
      >>= (λ a. hp_arr_unset null no_double a (str (codes "k")))
      >>= has_key (codes "k"))
    ≡ some false
unfolding insert_keys hp_arr_unset has_key hp_arr_new
eleven_unset = refl

-- The twelfth key builds the index with two entries of its own, and `unset` removes one.
twelve_unset :
    (insert_keys 12 0 hp_arr_new
      >>= (λ a. hp_arr_unset null no_double a (str (codes "l")))
      >>= has_key (codes "l"))
    ≡ some true
unfolding insert_keys hp_arr_unset has_key hp_arr_new
twelve_unset = refl

-- `["a" => 1]`
one_key : A
one_key = record {
  vals = int (pos 1) ∷ [];
  keys = str (codes "a") ∷ [];
  len = 1;
  is_map = true;
  next_index = pos 0;
  index = none;
  ibudget = 0;
}

one_key-IsPlainMap : IsPlainMap one_key
unfolding one_key
one_key-IsPlainMap = record {
  map = refl;
  plain = refl;
  keys_room = omega arith;
  vals_room = omega arith;
}

small : one_key.len + 1 < 12
unfolding one_key
small = omega arith

hp_arr_get-hp_arr_set_example :
    (c : A) × (hp_arr_set null no_double one_key (str (codes "b")) (int (pos 2)) ≡ some c)
    × IsUpdate null no_double one_key (str (codes "b")) (int (pos 2)) c
hp_arr_get-hp_arr_set_example =
    hp_arr_get-hp_arr_set null no_double one_key (str (codes "b")) (int (pos 2)) one_key-IsPlainMap
      refl small

-- `[7, 8]`
abbrev seven_eight : A
seven_eight = record {
  vals = int (pos 7) ∷ int (pos 8) ∷ null ∷ [];
  keys = [];
  len = 2;
  is_map = false;
  next_index = pos 2;
  index = none;
  ibudget = 0;
}
