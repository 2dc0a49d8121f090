-- ===== src/Ast/Kinds.antt =====
-- How the classes of type kinds of src/hphpc/ast.c lie to one another.
use holyphp.Prelude.{arith, false, true, ◌≡◌, ◌⊎◌}
use holyphp.Ast.{
  TypeKind, type_is_integral, type_is_numeric, type_is_pointerish, type_is_ref, type_is_smart_ptr,
  type_is_value,
}

-- A kind is passed by value exactly when it is numeric, integral or `ty_enum`. No kind that is passed
-- by value is a borrow, a raw pointer or a smart pointer, and every borrow counts as a pointer.
type_is_value-classes :
    (k : TypeKind)
    → (type_is_numeric k ≡ true → type_is_value k ≡ true)
      × (type_is_integral k ≡ true → type_is_value k ≡ true)
      × (type_is_value k ≡ true
          → (type_is_numeric k ≡ true) ⊎ (type_is_integral k ≡ true) ⊎ (k ≡ TypeKind.ty_enum))
      × (type_is_value k ≡ true → (type_is_pointerish k ≡ false) × (type_is_smart_ptr k ≡ false))
      × (type_is_ref k ≡ true → type_is_pointerish k ≡ true)
unfolding type_is_numeric type_is_integral type_is_value type_is_pointerish type_is_smart_ptr
    type_is_ref
type_is_value-classes k = ground arith
