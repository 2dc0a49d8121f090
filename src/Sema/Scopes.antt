-- ===== src/Sema/Scopes.antt =====
-- The scopes of src/hphpc/sema.c: scope_find and scope_declare. A chain of scopes begins with the
-- innermost; the symbols of a scope stand in the order of their declarations. Names are interned, so
-- that a comparison of addresses is one of bytes.
use holyphp.Prelude.{
  Bool, Bytes, List, Option, [], ap, arith, bytes_eq, false, if◌then◌else◌, leb, length, none, refl,
  some, sym, true, ℕ, ◌++◌, ◌<◌, ◌∙◌, ◌∷◌, ◌≡◌,
}

-- VarSym: the fields that the scopes and the borrow rules read.
pub record VarSym : Type 0 where
  pub name : Bytes
  pub is_mut : Bool
  pub uid : ℕ

abbrev pub Scopes : Type 0
Scopes = List (List VarSym)

abbrev pub max_scope : ℕ
max_scope = 64

abbrev pub first_of : Option VarSym → Option VarSym → Option VarSym
first_of (some v) o = some v
first_of none o = o

-- The loop over one scope, from its last symbol to its first.
unfoldable pub find_in : List VarSym → Bytes → Option VarSym
unfolding bytes_eq
find_in [] n = none
find_in (v ∷ vs) n = first_of (find_in vs n) (if bytes_eq v.name n then some v else none)

unfoldable pub scope_find : Scopes → Bytes → Option VarSym
unfolding find_in
scope_find [] n = none
scope_find (s ∷ parents) n = first_of (find_in s n) (scope_find parents n)

-- The new chain, or none with the error "too many variables in one scope".
unfoldable pub scope_declare : Scopes → Bytes → Bool → ℕ → Option Scopes
scope_declare [] n is_mut uid = none
scope_declare (s ∷ parents) n is_mut uid =
    if leb max_scope (length s)
    then none
    else some ((s ++ record { name = n; is_mut = is_mut; uid = uid } ∷ []) ∷ parents)

first_none : (o : Option VarSym) → first_of o none ≡ o
first_none none = refl
first_none (some v) = refl

first_assoc : (a b c : Option VarSym) → first_of (first_of a b) c ≡ first_of a (first_of b c)
first_assoc none b c = refl
first_assoc (some v) b c = refl

find_append :
    (vs : List VarSym) (v : VarSym) (n : Bytes)
    → find_in (vs ++ v ∷ []) n
      ≡ first_of (if bytes_eq v.name n then some v else none) (find_in vs n)
unfolding find_in
find_append [] v n = sym (first_none (if bytes_eq v.name n then some v else none))
find_append (w ∷ vs) v n =
    ap (λ o. first_of o (if bytes_eq w.name n then some w else none)) (find_append vs v n)
    ∙ first_assoc (if bytes_eq v.name n then some v else none) (find_in vs n)
        (if bytes_eq w.name n then some w else none)

first_if :
    (b : Bool) (v : VarSym) (o : Option VarSym)
    → first_of (if b then some v else none) o ≡ (if b then some v else o)
first_if true v o = refl
first_if false v o = refl

-- A declaration hides what the name meant before and leaves every other name alone; it fails exactly
-- where the innermost scope is full.
pub scope_find-scope_declare :
    (s : List VarSym) (parents : Scopes) (n : Bytes) (is_mut : Bool) (uid : ℕ)
    → length s < max_scope
    → (c : Scopes) × (scope_declare (s ∷ parents) n is_mut uid ≡ some c)
      × ((j : Bytes)
          → scope_find c j ≡ (
              if bytes_eq n j
              then some (record { name = n; is_mut = is_mut; uid = uid })
              else scope_find (s ∷ parents) j))
unfolding scope_find scope_declare
scope_find-scope_declare s parents n is_mut uid room =
    let v : VarSym = record { name = n; is_mut = is_mut; uid = uid } in
    let open_ : leb max_scope (length s) ≡ false = ground arith in
    (
      (s ++ v ∷ []) ∷ parents,
      rw open_ refl,
      λ j.
          ap (λ o. first_of o (scope_find parents j)) (find_append s v j)
          ∙ first_assoc (if bytes_eq n j then some v else none) (find_in s j) (scope_find parents j)
          ∙ first_if (bytes_eq n j) v (first_of (find_in s j) (scope_find parents j)),
    )
