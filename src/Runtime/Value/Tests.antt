-- ===== src/Runtime/Value/Tests.antt =====
-- Concrete values of src/hphpc/runtime/hphp_rt.c, with integers in the place of doubles.
use holyphp.Prelude.{[], codes, false, length, not, refl, true, ℕ, ◌≡◌}
use holyphp.Prelude.Int.{pos, ℤ}
use holyphp.Runtime.Value.{bool, eq_ℤ, int, null, str}
use holyphp.Runtime.Value.Convert.{Doubles, hp_val_eq, hp_val_to_bool}

abbrev whole : Doubles ℤ
whole = record {
  is_zero = λ d. eq_ℤ d (pos 0);
  equal = eq_ℤ;
  below = λ a b. not (eq_ℤ a b);
  of_int = λ i. i;
  to_int = λ d. d;
  of_str = λ s. pos (length s);
  str_to_int = λ s. pos (length s);
}

abbrev no_arrays : ℕ → ℕ
no_arrays p = 0

-- The string 0 is true, and it is not equal to false.
zero_string :
    (hp_val_to_bool whole no_arrays (str (codes "0")) ≡ true)
    × (hp_val_eq whole no_arrays (str (codes "0")) (bool false) ≡ false)
unfolding hp_val_eq hp_val_to_bool
zero_string = (refl, refl)

-- NULL is equal to an empty string, which is equal to no number but 0.
null_values :
    (hp_val_eq whole no_arrays null (str []) ≡ true)
    × (hp_val_eq whole no_arrays (str []) (int (pos 0)) ≡ true)
unfolding hp_val_eq hp_val_to_bool
null_values = (refl, refl)
