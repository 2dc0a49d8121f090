-- ===== src/Ast.antt =====
-- The type part of src/hphpc/ast.h and src/hphpc/ast.c: the kinds of types, the classes that the
-- checker and the code generator test for, and the printer of types for diagnostics.
-- A `Type *` is a value of `Ty`; the fields that a kind does not use are left out, the pointers that
-- a constructor keeps may be NULL (`missing`), and the parameters of a function type are a list.
pub mod Kinds
pub mod Print
mod Tests
use holyphp.Prelude.{Bool, true, false, Bytes, codes}

pub data TypeKind : Type 0 where
  ty_error ty_int ty_i8 ty_i16 ty_i32 ty_i64 ty_float ty_f32 ty_f64 : TypeKind
  ty_bool ty_string ty_void ty_mixed ty_array ty_vec ty_map ty_set : TypeKind
  ty_ref ty_mutref ty_ptr ty_own ty_rc ty_struct ty_class ty_interface : TypeKind
  ty_enum ty_fn ty_tuple ty_option ty_result ty_self : TypeKind

unfoldable pub type_is_ref : TypeKind → Bool
type_is_ref ty_ref = true
type_is_ref ty_mutref = true
type_is_ref _ = false

unfoldable pub type_is_numeric : TypeKind → Bool
type_is_numeric ty_int = true
type_is_numeric ty_i8 = true
type_is_numeric ty_i16 = true
type_is_numeric ty_i32 = true
type_is_numeric ty_i64 = true
type_is_numeric ty_float = true
type_is_numeric ty_f32 = true
type_is_numeric ty_f64 = true
type_is_numeric _ = false

unfoldable pub type_is_integral : TypeKind → Bool
type_is_integral ty_int = true
type_is_integral ty_i8 = true
type_is_integral ty_i16 = true
type_is_integral ty_i32 = true
type_is_integral ty_i64 = true
type_is_integral ty_bool = true
type_is_integral _ = false

unfoldable pub type_is_pointerish : TypeKind → Bool
type_is_pointerish ty_ref = true
type_is_pointerish ty_mutref = true
type_is_pointerish ty_ptr = true
type_is_pointerish _ = false

unfoldable pub type_is_smart_ptr : TypeKind → Bool
type_is_smart_ptr ty_own = true
type_is_smart_ptr ty_rc = true
type_is_smart_ptr _ = false

unfoldable pub type_is_value : TypeKind → Bool
type_is_value ty_int = true
type_is_value ty_i8 = true
type_is_value ty_i16 = true
type_is_value ty_i32 = true
type_is_value ty_i64 = true
type_is_value ty_float = true
type_is_value ty_f32 = true
type_is_value ty_f64 = true
type_is_value ty_bool = true
type_is_value ty_enum = true
type_is_value _ = false

unfoldable pub type_kind_name : TypeKind → Bytes
type_kind_name ty_error = codes "<error>"
type_kind_name ty_int = codes "int"
type_kind_name ty_i8 = codes "i8"
type_kind_name ty_i16 = codes "i16"
type_kind_name ty_i32 = codes "i32"
type_kind_name ty_i64 = codes "i64"
type_kind_name ty_float = codes "float"
type_kind_name ty_f32 = codes "f32"
type_kind_name ty_f64 = codes "f64"
type_kind_name ty_bool = codes "bool"
type_kind_name ty_string = codes "string"
type_kind_name ty_void = codes "void"
type_kind_name ty_mixed = codes "mixed"
type_kind_name ty_array = codes "array"
type_kind_name ty_vec = codes "Vec"
type_kind_name ty_map = codes "Map"
type_kind_name ty_set = codes "Set"
type_kind_name ty_ref = codes "&"
type_kind_name ty_mutref = codes "&mut"
type_kind_name ty_ptr = codes "*"
type_kind_name ty_own = codes "own"
type_kind_name ty_rc = codes "Rc"
type_kind_name ty_struct = codes "struct"
type_kind_name ty_class = codes "class"
type_kind_name ty_interface = codes "interface"
type_kind_name ty_enum = codes "enum"
type_kind_name ty_fn = codes "fn"
type_kind_name ty_tuple = codes "tuple"
type_kind_name ty_option = codes "Option"
type_kind_name ty_result = codes "Result"
type_kind_name ty_self = codes "self"
