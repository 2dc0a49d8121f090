-- ===== src/Ast/Tests.antt =====
-- Runs of the printer of types.
use holyphp.Prelude.{codes, false, refl, ◌≡◌}
use holyphp.Ast.{TypeKind, type_kind_name}
use holyphp.Ast.Print.{Params, Ty, Wrapper, type_to_string}

two_params : Ty
two_params =
    Ty.fn false
      (Params.cons (Ty.plain TypeKind.ty_int)
        (Params.cons (Ty.wrap Wrapper.mutref (Ty.plain TypeKind.ty_string)) Params.nil))
      (Ty.map (Ty.plain TypeKind.ty_string) (Ty.ptr Ty.missing))

two_params_print : type_to_string two_params ≡ codes "fn(int, &mut string) -> Map<string, *u8>"
unfolding type_to_string type_kind_name two_params
two_params_print = refl
