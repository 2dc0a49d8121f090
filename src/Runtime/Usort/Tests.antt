-- ===== src/Runtime/Usort/Tests.antt =====
-- Runs of usort of src/hphpc/runtime/hphp_std.c, on arrays without doubles.
use holyphp.Prelude.{[], arith, false, if◌then◌else◌, ltb, none, refl, true, ℕ, ◌/◌, ◌∷◌, ◌≡◌}
use holyphp.Prelude.Int.{pos, ℤ}
use holyphp.Runtime.Value.{Hval, int, null}
use holyphp.Runtime.Arr.{Harr}
use holyphp.Runtime.Arr.Items.{items}
use holyphp.Runtime.Usort.{hpbi_uksort, hpbi_usort}
use holyphp.Runtime.Usort.Back.{keep}
use holyphp.Runtime.Usort.Sorted.{InOrder, behind, same_as}
use holyphp.Runtime.Usort.Stable.{hpbi_usort-Stable}

abbrev tens : Hval ⊥ → ℕ
tens (int (pos n)) = n / 10
tens x = 0

-- A closure that compares the tens digits only.
abbrev by_tens : Hval ⊥ → Hval ⊥ → ℤ
by_tens x y = if ltb (tens y) (tens x) then pos 1 else pos 0

abbrev number : ℕ → Hval ⊥
number n = int (pos n)

-- [21, 12, 20, 11], and one element of the buffer behind it.
abbrev four : Harr ⊥
four = record {
  vals = number 21 ∷ number 12 ∷ number 20 ∷ number 11 ∷ null ∷ [];
  keys = [];
  len = 4;
  is_map = false;
  next_index = pos 4;
  index = none;
  ibudget = 0;
}

four_sorted :
    items (hpbi_usort null by_tens four) ≡ number 12 ∷ number 11 ∷ number 21 ∷ number 20 ∷ []
unfolding hpbi_usort
four_sorted = refl

-- A closure that orders every element in front of those with the key null.
abbrev in_front_of_null : Hval ⊥ → Hval ⊥ → ℤ
in_front_of_null x null = pos 1
in_front_of_null x y = pos 0

-- Without keys the closure of uksort gets null for the key of the element that moves, at every round.
null_key :
    items (hpbi_uksort null in_front_of_null four)
    ≡ number 11 ∷ number 20 ∷ number 12 ∷ number 21 ∷ []
unfolding hpbi_uksort
null_key = refl

by_tens_one_way : (x y : Hval ⊥) → behind null by_tens x y ≡ true → behind null by_tens y x ≡ false
by_tens_one_way x y h = ground arith

by_tens_chain :
    (x y z : Hval ⊥)
    → behind null by_tens x y ≡ false
    → behind null by_tens y z ≡ false
    → behind null by_tens x z ≡ false
by_tens_chain x y z h k = ground arith

hpbi_usort-Stable_example :
    InOrder null by_tens (items (hpbi_usort null by_tens four))
    × ((z : Hval ⊥)
        → keep (same_as null by_tens z) (items (hpbi_usort null by_tens four))
          ≡ keep (same_as null by_tens z) (items four))
hpbi_usort-Stable_example =
    hpbi_usort-Stable null by_tens by_tens_one_way by_tens_chain four refl (omega arith)
