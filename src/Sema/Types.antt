-- ===== src/Sema/Types.antt =====
-- The comparison of types in src/hphpc/sema.c: `unify_numeric`, `types_equal` and `types_compatible`. A
-- `Type *` is a value of `SemaType`, which keeps apart the nominal kinds that the printer of types takes
-- as one. Names are interned, so that comparing their addresses is comparing them; a name is a number.
-- Types are trees, and `types_equal` of two addresses that are the same is covered by reflexivity.
pub mod Admits
mod Tests
use holyphp.Prelude.{Bool, false, if◌then◌else◌, true, ℕ, ◌&&◌, ◌==◌, ◌||◌}
use holyphp.Ast.{
  TypeKind, ty_array, ty_bool, ty_class, ty_enum, ty_error, ty_f32, ty_f64, ty_float, ty_fn, ty_i16,
  ty_i32, ty_i64, ty_i8, ty_int, ty_interface, ty_map, ty_mixed, ty_mutref, ty_option, ty_own,
  ty_ptr, ty_rc, ty_ref, ty_result, ty_self, ty_set, ty_string, ty_struct, ty_tuple, ty_vec,
  ty_void, type_is_integral, type_is_numeric,
}
use holyphp.Ast.Print.{Wrapper, array, mutref, opt, own, rc, ref, vec}

-- The nominal kinds.
pub data Nominal : Type 0 where
  of_class of_struct of_interface of_enum : Nominal

-- `plain` is a kind without parts, and `missing` is NULL.
mutual
  pub data SemaType : Type 0 where
    missing : SemaType
    wrapped : Wrapper → SemaType → SemaType
    pointer : SemaType → SemaType
    mapping result : SemaType → SemaType → SemaType
    function : (variadic : Bool) → SemaTypes → SemaType → SemaType
    nominal : Nominal → ℕ → SemaType
    plain : TypeKind → SemaType

  pub data SemaTypes : Type 0 where
    nil : SemaTypes
    cons : SemaType → SemaTypes → SemaTypes

abbrev pub wrapper_kind : Wrapper → TypeKind
wrapper_kind array = ty_array
wrapper_kind vec = ty_vec
wrapper_kind Wrapper.set = ty_set
wrapper_kind ref = ty_ref
wrapper_kind mutref = ty_mutref
wrapper_kind own = ty_own
wrapper_kind rc = ty_rc
wrapper_kind opt = ty_option

abbrev pub nominal_kind : Nominal → TypeKind
nominal_kind of_class = ty_class
nominal_kind of_struct = ty_struct
nominal_kind of_interface = ty_interface
nominal_kind of_enum = ty_enum

-- `missing` has no kind: its callers test for NULL first.
abbrev pub kind_of : SemaType → TypeKind
kind_of missing = ty_error
kind_of (wrapped w t) = wrapper_kind w
kind_of (pointer t) = ty_ptr
kind_of (mapping k v) = ty_map
kind_of (result o e) = ty_result
kind_of (function v ps r) = ty_fn
kind_of (nominal n c) = nominal_kind n
kind_of (plain k) = k

-- The numbers of the enum in src/hphpc/ast.h.
unfoldable pub type_code : TypeKind → ℕ
type_code ty_error = 0
type_code ty_int = 1
type_code ty_i8 = 2
type_code ty_i16 = 3
type_code ty_i32 = 4
type_code ty_i64 = 5
type_code ty_float = 6
type_code ty_f32 = 7
type_code ty_f64 = 8
type_code ty_bool = 9
type_code ty_string = 10
type_code ty_void = 11
type_code ty_mixed = 12
type_code ty_array = 13
type_code ty_vec = 14
type_code ty_map = 15
type_code ty_set = 16
type_code ty_ref = 17
type_code ty_mutref = 18
type_code ty_ptr = 19
type_code ty_own = 20
type_code ty_rc = 21
type_code ty_struct = 22
type_code ty_class = 23
type_code ty_interface = 24
type_code ty_enum = 25
type_code ty_fn = 26
type_code ty_tuple = 27
type_code ty_option = 28
type_code ty_result = 29
type_code ty_self = 30

unfoldable pub is_kind : TypeKind → TypeKind → Bool
unfolding type_code
is_kind k l = type_code k == type_code l

abbrev pub is_floating : TypeKind → Bool
is_floating k = is_kind k ty_float || is_kind k ty_f32 || is_kind k ty_f64

unfoldable pub unify_kinds : TypeKind → TypeKind → TypeKind
unfolding is_kind type_is_integral
unify_kinds a b =
    if is_floating a || is_floating b
    then (if is_kind a ty_f32 && is_kind b ty_f32
        then ty_f32
        else if is_kind a ty_f64 || is_kind b ty_f64
        then ty_f64
        else ty_float)
    else if is_kind a ty_int && is_kind b ty_int
    then ty_int
    else if type_is_integral a && type_is_integral b
    then (if is_kind a ty_i8 && is_kind b ty_i8
        then ty_i8
        else if is_kind a ty_i16 && is_kind b ty_i16
        then ty_i16
        else if is_kind a ty_i32 && is_kind b ty_i32
        then ty_i32
        else ty_i64)
    else ty_mixed

unfoldable pub unify_numeric : SemaType → SemaType → TypeKind
unfolding unify_kinds
unify_numeric missing b = ty_mixed
unify_numeric a missing = ty_mixed
unify_numeric a b = unify_kinds (kind_of a) (kind_of b)

-- Different kinds are equal where both are integral, or both numeric.
unfoldable pub loosely : TypeKind → TypeKind → Bool
unfolding type_is_integral type_is_numeric
loosely k l = type_is_integral k && type_is_integral l || type_is_numeric k && type_is_numeric l

-- An array of `mixed` on the left is generic.
abbrev pub is_generic : Wrapper → SemaType → Bool
is_generic array (plain k) = is_kind k ty_mixed
is_generic w t = false

unfoldable mutual
  unfolding is_kind loosely

  pub types_equal : SemaType → SemaType → Bool
  types_equal missing missing = true
  types_equal missing b = false
  types_equal (wrapped w a) (wrapped v b) =
      let elems = types_equal a b in
      is_kind (wrapper_kind w) (wrapper_kind v) && (is_generic w a || elems)
  types_equal (pointer a) (pointer b) = types_equal a b
  types_equal (mapping k v) (mapping l w) =
      let keys = types_equal k l in let vals = types_equal v w in keys && vals
  types_equal (result o e) (result p f) =
      let oks = types_equal o p in let errs = types_equal e f in oks && errs
  types_equal (function v ps r) (function w qs s) =
      let params = all_equal ps qs in let rets = types_equal r s in params && rets
  types_equal (nominal n c) (nominal m d) = is_kind (nominal_kind n) (nominal_kind m) && c == d
  types_equal (plain k) (plain l) = is_kind k l || loosely k l
  types_equal a b = false

  -- As many parameters, and each pair equal.
  pub all_equal : SemaTypes → SemaTypes → Bool
  all_equal nil nil = true
  all_equal (cons a ps) (cons b qs) =
      let first = types_equal a b in let rest = all_equal ps qs in first && rest
  all_equal ps qs = false

abbrev pub is_variadic : SemaType → Bool
is_variadic (function v ps r) = v
is_variadic t = false

abbrev pub is_function : SemaType → Bool
is_function (function v ps r) = true
is_function t = false

-- `mixed`, `Option` and `Result` values are converted where they are used.
abbrev pub is_dynamic : SemaType → Bool
is_dynamic (wrapped opt t) = true
is_dynamic (result o e) = true
is_dynamic (plain k) = is_kind k ty_mixed
is_dynamic t = false

-- `own<T>` for a class or a struct `T`, and a class for `own<T>`, by the name.
unfoldable pub owns : SemaType → SemaType → Bool
owns (nominal of_class c) (wrapped own (nominal of_class d)) = c == d
owns (nominal of_class c) (wrapped own (nominal of_struct d)) = c == d
owns (nominal of_struct c) (wrapped own (nominal of_class d)) = c == d
owns (nominal of_struct c) (wrapped own (nominal of_struct d)) = c == d
owns (wrapped own (nominal n c)) (nominal of_class d) = c == d
owns want t = false

-- What `types_compatible` tests before it looks behind a `&`.
abbrev pub compatible_here : SemaType → SemaType → Bool
compatible_here want t =
    is_dynamic t
    || is_variadic want && is_function t
    || is_variadic t
    || types_equal want t
    || type_is_numeric (kind_of want) && type_is_numeric (kind_of t)
    || owns want t

abbrev pub is_missing : SemaType → Bool
is_missing missing = true
is_missing t = false

-- A type that is NULL is compatible with every type, and `mixed` takes every type.
unfoldable pub types_compatible : SemaType → SemaType → Bool
unfolding is_kind types_equal owns type_is_numeric
types_compatible missing t = true
types_compatible (wrapped ref a) t =
    let inner = types_compatible a t in is_missing t || compatible_here (wrapped ref a) t || inner
types_compatible (plain k) t = is_kind k ty_mixed || is_missing t || compatible_here (plain k) t
types_compatible want t = is_missing t || compatible_here want t
