-- ===== src/Ast/Print.antt =====
-- `type_to_string` of src/hphpc/ast.c.
use holyphp.Prelude.{Bool, Bytes, Option, [], codes, none, some, ◌++◌}
use holyphp.Ast.{TypeKind, type_kind_name}

-- The kinds with one part in `elem`.
pub data Wrapper : Type 0 where
  array vec set ref mutref own rc opt : Wrapper

-- `plain` is a kind that the printer treats by its default case, `named` one of the nominal kinds
-- with its `name`, which may be NULL.
mutual
  pub data Ty : Type 0 where
    missing : Ty
    wrap : Wrapper → Ty → Ty
    map : Ty → Ty → Ty
    ptr : Ty → Ty
    res : Ty → Ty → Ty
    fn : (variadic : Bool) → Params → Ty → Ty
    named : Option Bytes → Ty
    plain : TypeKind → Ty

  pub data Params : Type 0 where
    nil : Params
    cons : Ty → Params → Params

-- What is written before and after the part.
opening : Wrapper → Bytes
opening array = codes "["
opening vec = codes "Vec<"
opening set = codes "Set<"
opening ref = codes "&"
opening mutref = codes "&mut "
opening own = codes "own "
opening rc = codes "Rc<"
opening opt = codes "Option<"

closing : Wrapper → Bytes
closing array = codes "]"
closing vec = codes ">"
closing set = codes ">"
closing rc = codes ">"
closing opt = codes ">"
closing _ = []

-- `u8` stands for the element type that a raw pointer lacks.
pointee : Ty → Bytes → Bytes
pointee missing s = codes "u8"
pointee _ s = s

-- A return type that is NULL or `void` is not written.
arrow : Ty → Bytes → Bytes
arrow missing s = []
arrow (plain TypeKind.ty_void) s = []
arrow _ s = codes " -> " ++ s

name_or : Option Bytes → Bytes
name_or none = codes "?"
name_or (some n) = n

unfoldable mutual
  unfolding opening closing pointee arrow name_or

  pub type_to_string : Ty → Bytes
  type_to_string missing = codes "?"
  type_to_string (wrap w t) = opening w ++ (type_to_string t ++ closing w)
  type_to_string (map k v) =
      codes "Map<" ++ (type_to_string k ++ (codes ", " ++ (type_to_string v ++ codes ">")))
  type_to_string (ptr t) = codes "*" ++ pointee t (type_to_string t)
  type_to_string (res o e) =
      codes "Result<" ++ (type_to_string o ++ (codes ", " ++ (type_to_string e ++ codes ">")))
  type_to_string (fn v ps r) =
      codes "fn(" ++ (params_to_string ps ++ (codes ")" ++ arrow r (type_to_string r)))
  type_to_string (named n) = name_or n
  type_to_string (plain k) = type_kind_name k

  pub params_to_string : Params → Bytes
  params_to_string nil = []
  params_to_string (cons p ps) = type_to_string p ++ rest_to_string ps

  -- The parameters after the first, each behind a comma.
  pub rest_to_string : Params → Bytes
  rest_to_string nil = []
  rest_to_string (cons p ps) = codes ", " ++ (type_to_string p ++ rest_to_string ps)
