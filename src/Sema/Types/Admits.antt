-- ===== src/Sema/Types/Admits.antt =====
-- What `types_equal` and `types_compatible` of src/hphpc/sema.c accept.
use holyphp.Prelude.{Bool, ap, arith, false, refl, true, ◌&&◌, ◌||◌, ◌≡◌}
use holyphp.Ast.{TypeKind, ty_mixed}
use holyphp.Ast.Print.{ref}
use holyphp.Sema.Types.{
  SemaType, SemaTypes, all_equal, compatible_here, cons, function, is_generic, is_kind, is_missing,
  loosely, mapping, missing, nil, nominal, plain, pointer, result, types_compatible, types_equal,
  wrapped, wrapper_kind,
}

is_kind_refl : (k : TypeKind) → is_kind k k ≡ true
unfolding is_kind
is_kind_refl k = ground arith

mutual
  unfolding types_equal

  types_equal_refl : (t : SemaType) → types_equal t t ≡ true
  types_equal_refl missing = refl
  types_equal_refl (wrapped w t) = let e = types_equal_refl t in ground arith
  types_equal_refl (pointer t) = types_equal_refl t
  types_equal_refl (mapping k v) = rw (types_equal_refl k, types_equal_refl v) refl
  types_equal_refl (result k v) = rw (types_equal_refl k, types_equal_refl v) refl
  types_equal_refl (function v ps r) = rw (all_equal_refl ps, types_equal_refl r) refl
  types_equal_refl (nominal n c) = ground arith
  types_equal_refl (plain k) = rw (is_kind_refl k) refl

  all_equal_refl : (ts : SemaTypes) → all_equal ts ts ≡ true
  all_equal_refl nil = refl
  all_equal_refl (cons t ts) = rw (types_equal_refl t, all_equal_refl ts) refl

-- The types in which no array of `mixed` stands.
unfoldable mutual
  unfolding is_kind

  pub Specific : SemaType → Type 0
  Specific missing = Unit
  Specific (wrapped w t) = (is_generic w t ≡ false) × Specific t
  Specific (pointer t) = Specific t
  Specific (mapping k v) = Specific k × Specific v
  Specific (result k v) = Specific k × Specific v
  Specific (function v ps r) = AllSpecific ps × Specific r
  Specific (nominal n c) = Unit
  Specific (plain k) = Unit

  pub AllSpecific : SemaTypes → Type 0
  AllSpecific nil = Unit
  AllSpecific (cons t ts) = Specific t × AllSpecific ts

is_kind_sym : (k l : TypeKind) → is_kind k l ≡ is_kind l k
unfolding is_kind
is_kind_sym k l = ground arith

loosely_sym : (k l : TypeKind) → loosely k l ≡ loosely l k
unfolding loosely
loosely_sym k l = ground arith

missing_sym : (b : SemaType) → types_equal missing b ≡ types_equal b missing
unfolding types_equal
missing_sym missing = refl
missing_sym (wrapped w a) = refl
missing_sym (pointer a) = refl
missing_sym (mapping k v) = refl
missing_sym (result o e) = refl
missing_sym (function v ps r) = refl
missing_sym (nominal n c) = refl
missing_sym (plain k) = refl

mutual
  unfolding types_equal Specific

  types_equal_sym : (a b : SemaType) → Specific a → Specific b → types_equal a b ≡ types_equal b a
  types_equal_sym missing b s t = missing_sym b
  types_equal_sym (wrapped w a) (wrapped v b) s t =
      rw (s.0, t.0, types_equal_sym a b (s.1) (t.1))
        (ap (λ k. k && types_equal b a) (is_kind_sym (wrapper_kind w) (wrapper_kind v)))
  types_equal_sym (pointer a) (pointer b) s t = types_equal_sym a b s t
  types_equal_sym (mapping k v) (mapping l w) s t =
      rw (types_equal_sym k l (s.0) (t.0), types_equal_sym v w (s.1) (t.1)) refl
  types_equal_sym (result k v) (result l w) s t =
      rw (types_equal_sym k l (s.0) (t.0), types_equal_sym v w (s.1) (t.1)) refl
  types_equal_sym (function v ps r) (function w qs q) s t =
      rw (all_equal_sym ps qs (s.0) (t.0), types_equal_sym r q (s.1) (t.1)) refl
  types_equal_sym (nominal n c) (nominal m d) s t = ground arith
  types_equal_sym (plain k) (plain l) s t = rw (is_kind_sym k l, loosely_sym k l) refl
  types_equal_sym a b s t = refl

  all_equal_sym :
      (ps qs : SemaTypes) → AllSpecific ps → AllSpecific qs → all_equal ps qs ≡ all_equal qs ps
  all_equal_sym (cons a ps) (cons b qs) s t =
      rw (types_equal_sym a b (s.0) (t.0), all_equal_sym ps qs (s.1) (t.1)) refl
  all_equal_sym nil nil s t = refl
  all_equal_sym nil (cons b qs) s t = refl
  all_equal_sym (cons a ps) nil s t = refl

-- `types_equal` is reflexive, and between types without an array of `mixed` it is symmetric.
pub types_equal_lem :
    (a b : SemaType)
    → (types_equal a a ≡ true) × (Specific a → Specific b → types_equal a b ≡ types_equal b a)
types_equal_lem a b = (types_equal_refl a, types_equal_sym a b)

equal_here : (a b : SemaType) → types_equal a b ≡ true → compatible_here a b ≡ true
equal_here a b e = ground arith

or_left : (a b : Bool) → a ≡ true → a || b ≡ true
or_left a b h = ground arith

or_right : (a b : Bool) → b ≡ true → a || b ≡ true
or_right a b h = ground arith

here_compatible : (a b : SemaType) → compatible_here a b ≡ true → types_compatible a b ≡ true
unfolding types_compatible
here_compatible missing b h = refl
here_compatible (wrapped ref a) b h =
    let here = or_right (is_missing b) (compatible_here (wrapped ref a) b) h in rw here refl
here_compatible (plain k) b h =
    or_right (is_kind k ty_mixed || is_missing b) (compatible_here (plain k) b) h
here_compatible a b h = or_right (is_missing b) (compatible_here a b) h

borrow_compatible :
    (a b : SemaType) → types_compatible a b ≡ true → types_compatible (wrapped ref a) b ≡ true
unfolding types_compatible
borrow_compatible a b h =
    or_right (is_missing b || compatible_here (wrapped ref a) b) (types_compatible a b) h

-- `types_compatible` takes a type for itself, for every type that `types_equal` finds equal to it, and a
-- borrow takes what its target takes.
types_compatible_lem :
    (a b : SemaType)
    → (types_compatible a a ≡ true)
      × (types_equal a b ≡ true → types_compatible a b ≡ true)
      × (types_compatible a b ≡ true → types_compatible (wrapped ref a) b ≡ true)
types_compatible_lem a b =
    let from_equal =
      λ (c : SemaType) (e : types_equal a c ≡ true). here_compatible a c (equal_here a c e) in
    (from_equal a (types_equal_refl a), from_equal b, borrow_compatible a b)
