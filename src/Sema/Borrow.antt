-- ===== src/Sema/Borrow.antt =====
-- The borrow checker of src/hphpc/sema.c: loans_push, loans_of, loans_release_all, the case of
-- EX_BORROW and EX_MUTBORROW in check_expr, and the release at the end of check_block. Of a statement
-- only its borrows and its blocks are kept, in their order. The fields `from_expr`, `line` and
-- `released` of a loan are never read or never changed. The parser of src/hphpc/parser.c builds no
-- EX_MUTBORROW, so that in a program all loans are shared.
pub mod Rule
use holyphp.Prelude.{
  All, Bool, Bytes, List, Option, [], false, if◌then◌else◌, leb, length, none, not, some, true, ℕ,
  ◌&&◌, ◌++◌, ◌==◌, ◌||◌, ◌∷◌, ◌≡◌, ◌≢◌, ◌⊎◌,
}
use holyphp.Sema.Scopes.{Scopes, VarSym, scope_find}

pub record Loan : Type 0 where
  pub var : ℕ
  pub is_mut : Bool

-- The errors that the case reports.
pub data BorrowError : Type 0 where
  not_a_variable undefined_variable immutable also_borrowed also_mutable : BorrowError

abbrev pub max_loans : ℕ
max_loans = 64

unfoldable pub loans_push : List Loan → ℕ → Bool → List Loan
loans_push loans v is_mut =
    if leb max_loans (length loans)
    then loans
    else loans ++ record { var = v; is_mut = is_mut } ∷ []

-- Bit 1 and bit 2 of loans_of: a shared loan of the variable, and a mutable one.
unfoldable pub has_loan : Bool → List Loan → ℕ → Bool
has_loan kind [] v = false
has_loan kind (l ∷ loans) v =
    l.var == v && (if l.is_mut then kind else not kind) || has_loan kind loans v

abbrev pub errors_if : Bool → BorrowError → List BorrowError
errors_if true e = e ∷ []
errors_if false e = []

-- Behind scope_find: the errors, and the loans behind the expression.
unfoldable pub borrow_var : List Loan → VarSym → Bool → List BorrowError × List Loan
unfolding loans_push has_loan
borrow_var loans v is_mut =
    let shared = has_loan false loans v.uid in
    let exclusive = has_loan true loans v.uid in
    (
      errors_if (is_mut && not v.is_mut) immutable
          ++ (errors_if (is_mut && (shared || exclusive)) also_borrowed
              ++ errors_if (not is_mut && exclusive) also_mutable),
      loans_push loans v.uid is_mut,
    )

abbrev pub borrow_found : Option VarSym → List Loan → Bool → List BorrowError × List Loan
borrow_found none loans is_mut = (undefined_variable ∷ [], loans)
borrow_found (some v) loans is_mut = borrow_var loans v is_mut

-- The operand is the name of a variable, or none for another expression.
unfoldable pub check_borrow :
    Scopes → List Loan → Option Bytes → Bool → List BorrowError × List Loan
unfolding borrow_var scope_find
check_borrow sc loans none is_mut = (not_a_variable ∷ [], loans)
check_borrow sc loans (some n) is_mut = borrow_found (scope_find sc n) loans is_mut

mutual
  pub data Action : Type 0 where
    borrow : Option Bytes → Bool → Action
    nested : Actions → Action

  pub data Actions : Type 0 where
    stop : Actions
    act : Action → Actions → Actions

unfoldable mutual
  unfolding check_borrow

  pub check_action : Scopes → List Loan → Action → List BorrowError × List Loan
  check_action sc loans (borrow operand is_mut) = check_borrow sc loans operand is_mut
  check_action sc loans (nested b) = ((check_actions sc loans b).0, [])

  -- check_block without the release of all loans behind it, which `nested` has.
  pub check_actions : Scopes → List Loan → Actions → List BorrowError × List Loan
  check_actions sc loans stop = ([], loans)
  check_actions sc loans (act a rest) =
      let (errs, loans') = check_action sc loans a in
      let (errs', loans'') = check_actions sc loans' rest in (errs ++ errs', loans'')

-- Two loans may stand side by side: of different variables, or both shared.
abbrev pub Apart : Loan → Loan → Type 0
Apart a b = (a.var ≢ b.var) ⊎ ((a.is_mut ≡ false) × (b.is_mut ≡ false))

-- Many readers or one writer of each variable.
abbrev pub IsXor : List Loan → Type 0
IsXor [] = Unit
IsXor (l ∷ loans) = All (Apart l) loans × IsXor loans
