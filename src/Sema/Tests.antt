-- ===== src/Sema/Tests.antt =====
-- Runs and examples of the scopes, the borrow rules and the search for returns of src/hphpc/sema.c.
use holyphp.Prelude.{
  Bytes, [], arith, bytes_eq, codes, false, if◌then◌else◌, none, not, refl, some, true, ◌&&◌, ◌↔◌,
  ◌∷◌, ◌≡◌,
}
use holyphp.Sema.Scopes.{Scopes, VarSym, scope_declare, scope_find, scope_find-scope_declare}
use holyphp.Sema.Borrow.{
  Actions, IsXor, Loan, act, also_borrowed, borrow, borrow_var, check_action, check_actions,
  has_loan, nested, not_a_variable, stop, undefined_variable,
}
use holyphp.Sema.Borrow.Rule.{borrow_var-IsXor}
use holyphp.Sema.Returns.{
  Inferred, IsWalked, Returns, Stmt, body, done, foreach, if_, infer_return, no_more, none_written,
  ret, stmt_chain_returns, stmt_chain_returns-Returns, switch, then_,
}

abbrev x_sym : VarSym
x_sym = record { name = codes "x"; is_mut = true; uid = 0 }

abbrev y_sym : VarSym
y_sym = record { name = codes "y"; is_mut = false; uid = 1 }

abbrev chain : Scopes
chain = (x_sym ∷ []) ∷ (y_sym ∷ []) ∷ []

scope_find-scope_declare_example :
    (c : Scopes) × (scope_declare chain (codes "y") true 2 ≡ some c)
    × ((j : Bytes)
        → scope_find c j ≡ (
            if bytes_eq (codes "y") j
            then some (record { name = codes "y"; is_mut = true; uid = 2 })
            else scope_find chain j))
scope_find-scope_declare_example =
    scope_find-scope_declare (x_sym ∷ []) ((y_sym ∷ []) ∷ []) (codes "y") true 2 (omega arith)

abbrev shared_x : Loan
shared_x = record { var = 0; is_mut = false }

borrow_var-IsXor_example :
    ((borrow_var (shared_x ∷ []) x_sym true).0 ≡ [])
    ↔ (IsXor (borrow_var (shared_x ∷ []) x_sym true).1 × ((true && not true) ≡ false))
borrow_var-IsXor_example = borrow_var-IsXor (shared_x ∷ []) x_sym true (omega arith) (tt, tt)

second_writer : (borrow_var (shared_x ∷ []) x_sym true).0 ≡ also_borrowed ∷ []
unfolding borrow_var has_loan
second_writer = refl

abbrev two_readers : Actions
two_readers = act (borrow (some (codes "x")) false) (act (borrow (some (codes "x")) false) stop)

-- The end of a nested block releases the loans of the block around it.
released_by_block :
    (check_actions chain [] (
      act
        (borrow (some (codes "x")) true)
        (act (nested stop) (act (borrow (some (codes "x")) true) stop)))).0
    ≡ []
unfolding check_actions check_action
released_by_block = refl

undefined_reported :
    (check_actions chain [] (act (borrow (some (codes "z")) false) (act (borrow none true) stop))).0
    ≡ undefined_variable ∷ not_a_variable ∷ []
unfolding check_actions check_action
undefined_reported = refl

-- foreach (...) { if (...) {} else { return 1; } }
abbrev in_loop : Stmt
in_loop = foreach (then_ (if_ done (then_ (ret true) done)) done)

stmt_chain_returns-Returns_example :
    (stmt_chain_returns in_loop ≡ true → Returns in_loop)
    × (IsWalked in_loop → Returns in_loop → stmt_chain_returns in_loop ≡ true)
stmt_chain_returns-Returns_example = stmt_chain_returns-Returns in_loop

-- A function that returns only inside a switch is taken for one that returns nothing.
switch_not_walked :
    infer_return false (then_ (switch (body (then_ (ret true) done) no_more)) done) ≡ none_written
unfolding infer_return
switch_not_walked = refl

loop_walked : infer_return false (then_ in_loop done) ≡ Inferred.mixed
unfolding infer_return stmt_chain_returns
loop_walked = refl
