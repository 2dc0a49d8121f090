-- ===== src/Sema/Types/Tests.antt =====
-- Comparisons of types by src/hphpc/sema.c.
use holyphp.Prelude.{false, refl, true, ◌≡◌}
use holyphp.Ast.{ty_bool, ty_i64, ty_i8, ty_int, ty_mixed}
use holyphp.Ast.Print.{array}
use holyphp.Sema.Types.{SemaType, types_equal, unify_kinds, wrapped, SemaType.plain as scalar}

abbrev ints : SemaType
ints = wrapped array (scalar ty_int)

abbrev anything : SemaType
anything = wrapped array (scalar ty_mixed)

-- The generic array takes any array; the other way round it does not.
generic_array : (types_equal anything ints ≡ true) × (types_equal ints anything ≡ false)
unfolding types_equal
generic_array = (refl, refl)

unify_bool : unify_kinds ty_bool ty_i8 ≡ ty_i64
unfolding unify_kinds
unify_bool = refl
