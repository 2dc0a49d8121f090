-- ===== src/Runtime/Value/Convert.antt =====
-- Truth, equality and order of values in src/hphpc/runtime/hphp_rt.c. The operations on doubles and the
-- readers of numbers in strings are parameters, and so are the lengths of arrays, which stand in memory.
use holyphp.Prelude.{
  Bool, Bytes, Option, bytes_eq, false, if◌then◌else◌, length, ltb, none, not, some, true, ℕ, ◌&&◌,
  ◌==◌, ◌||◌,
}
use holyphp.Prelude.Int.{pos, ℤ}
use holyphp.Runtime.Str.{Sign, hp_str_cmp, less, more, same}
use holyphp.Runtime.Value.{Hval, arr, bool, clo, eq_ℤ, float, int, null, obj, str}

-- What a double can do here.
pub record Doubles (D : Type 0) : Type 0 where
  pub is_zero : D → Bool
  pub equal : D → D → Bool
  pub below : D → D → Bool
  pub of_int : ℤ → D
  pub to_int : D → ℤ
  pub of_str : Bytes → D
  pub str_to_int : Bytes → ℤ

module _ {D : Type 0} (ops : Doubles D) (arr_len : ℕ → ℕ) where
  abbrev pub not_null : Option ℕ → Bool
  not_null none = false
  not_null (some p) = true

  unfoldable pub hp_val_to_int : Hval D → ℤ
  hp_val_to_int (int i) = i
  hp_val_to_int (float d) = ops.to_int d
  hp_val_to_int (bool b) = pos (if b then 1 else 0)
  hp_val_to_int (str s) = ops.str_to_int s
  hp_val_to_int null = pos 0
  hp_val_to_int v = pos 1

  unfoldable pub hp_val_to_float : Hval D → D
  hp_val_to_float (int i) = ops.of_int i
  hp_val_to_float (float d) = d
  hp_val_to_float (bool b) = ops.of_int (pos (if b then 1 else 0))
  hp_val_to_float (str s) = ops.of_str s
  hp_val_to_float v = ops.of_int (pos 0)

  unfoldable pub hp_val_to_bool : Hval D → Bool
  hp_val_to_bool null = false
  hp_val_to_bool (int i) = not (eq_ℤ i (pos 0))
  hp_val_to_bool (float d) = not (ops.is_zero d)
  hp_val_to_bool (bool b) = b
  hp_val_to_bool (str s) = ltb 0 (length s)
  hp_val_to_bool (arr none) = false
  hp_val_to_bool (arr (some p)) = ltb 0 (arr_len p)
  hp_val_to_bool (obj p) = not_null p
  hp_val_to_bool (clo p) = not_null p

  abbrev pub same_bool : Bool → Bool → Bool
  same_bool a b = if a then b else not b

  abbrev pub same_address : Option ℕ → Option ℕ → Bool
  same_address none none = true
  same_address none (some q) = false
  same_address (some p) none = false
  same_address (some p) (some q) = p == q

  abbrev pub has_null_tag : Hval D → Bool
  has_null_tag null = true
  has_null_tag v = false

  abbrev pub is_bool : Hval D → Bool
  is_bool (bool b) = true
  is_bool v = false

  abbrev pub is_number : Hval D → Bool
  is_number (int i) = true
  is_number (float d) = true
  is_number v = false

  -- The tests behind the two for strings and arrays.
  unfoldable pub eq_mixed : Hval D → Hval D → Bool
  unfolding hp_val_to_bool hp_val_to_float
  eq_mixed a b =
      if has_null_tag a && has_null_tag b
      then true
      else if has_null_tag a || has_null_tag b
      then not (hp_val_to_bool a) && not (hp_val_to_bool b)
      else if is_bool a || is_bool b
      then same_bool (hp_val_to_bool a) (hp_val_to_bool b)
      else if is_number a || is_number b
      then ops.equal (hp_val_to_float a) (hp_val_to_float b)
      else false

  unfoldable pub hp_val_eq : Hval D → Hval D → Bool
  unfolding bytes_eq eq_mixed
  hp_val_eq (str s) (str t) = bytes_eq s t
  hp_val_eq (arr p) (arr q) = same_address p q
  hp_val_eq a b = eq_mixed a b

  unfoldable pub hp_val_cmp : Hval D → Hval D → Sign
  unfolding hp_str_cmp hp_val_to_float
  hp_val_cmp (str s) (str t) = hp_str_cmp s t
  hp_val_cmp a b =
      let x = hp_val_to_float a in
      let y = hp_val_to_float b in
      if ops.below x y then less else if ops.below y x then more else same
