-- ===== src/Runtime/Value.antt =====
-- `hval` of src/hphpc/runtime/hphp_rt.h. Doubles are a type `D` that the model does not look into; a
-- pointer to an array, an object or a closure is an address, `none` where it is NULL. A string is its
-- bytes: strings are compared by content, and a NULL string is not modelled.
pub mod Convert
mod Tests
use holyphp.Prelude.{
  Bool, Bytes, Option, ap, arith, bytes_eq, bytes_eq_refl, bytes_eq_sound, false, true, ℕ, ◌==◌,
  ◌≡◌,
}
use holyphp.Prelude.Int.{negsuc, pos, ℤ}

pub data Hval (D : Type 0) : Type 0 where
  null : Hval D
  int : ℤ → Hval D
  float : D → Hval D
  bool : Bool → Hval D
  str : Bytes → Hval D
  arr obj clo : Option ℕ → Hval D

abbrev pub eq_ℤ : ℤ → ℤ → Bool
eq_ℤ (pos m) (pos n) = m == n
eq_ℤ (pos m) (negsuc n) = false
eq_ℤ (negsuc m) (pos n) = false
eq_ℤ (negsuc m) (negsuc n) = m == n

-- Keys match only as two integers or two strings.
unfoldable pub hp_key_eq : {D : Type 0} → Hval D → Hval D → Bool
unfolding bytes_eq
hp_key_eq (int a) (int b) = eq_ℤ a b
hp_key_eq (str a) (str b) = bytes_eq a b
hp_key_eq a b = false

-- The tags that a hash index can hold.
abbrev pub is_key : {D : Type 0} → Hval D → Bool
is_key (int a) = true
is_key (str a) = true
is_key a = false

pub hp_key_eq_self : {D : Type 0} (k : Hval D) → is_key k ≡ true → hp_key_eq k k ≡ true
unfolding hp_key_eq
hp_key_eq_self (int (pos n)) h = ground arith
hp_key_eq_self (int (negsuc n)) h = ground arith
hp_key_eq_self (str s) h = bytes_eq_refl s
hp_key_eq_self k h = absurd (cc)

eq_ℤ_sound : (a b : ℤ) → eq_ℤ a b ≡ true → a ≡ b
eq_ℤ_sound (pos m) (pos n) h = ground arith
eq_ℤ_sound (pos m) (negsuc n) h = absurd (cc)
eq_ℤ_sound (negsuc m) (pos n) h = absurd (cc)
eq_ℤ_sound (negsuc m) (negsuc n) h = ground arith

pub hp_key_eq_sound : {D : Type 0} (a b : Hval D) → hp_key_eq a b ≡ true → a ≡ b
unfolding hp_key_eq
hp_key_eq_sound (int a) (int b) h = ap int (eq_ℤ_sound a b h)
hp_key_eq_sound (str a) (str b) h = ap str (bytes_eq_sound a b h)
hp_key_eq_sound a b h = absurd (cc)
