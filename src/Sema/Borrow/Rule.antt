-- ===== src/Sema/Borrow/Rule.antt =====
-- The rule of many readers or one writer, which the borrow checker of src/hphpc/sema.c keeps.
use mathlib.Core.Path.{subst}
use holyphp.Prelude.{
  All, Bool, Bool-cases, List, [], arith, false, inl, inr, leb, length, not, refl, suc, sym, true,
  ℕ, ◌&&◌, ◌++◌, ◌+◌, ◌<◌, ◌==◌, ◌||◌, ◌↔◌, ◌∷◌, ◌≡◌, ◌≤◌,
}
use holyphp.Sema.Scopes.{Scopes, VarSym}
use holyphp.Sema.Borrow.{
  Actions, Apart, BorrowError, IsXor, Loan, act, also_borrowed, also_mutable, borrow, borrow_var,
  errors_if, has_loan, immutable, loans_push, max_loans, nested, stop,
}

All-append :
    {A : Type 0} (P : A → Type 0) (l : List A) (a : A) → All P l → P a → All P (l ++ a ∷ [])
All-append P [] a h p = (p, tt)
All-append P (x ∷ l) a h p = (h.0, All-append P l a h.1 p)

IsXor-append :
    (loans : List Loan) (n : Loan)
    → IsXor loans
    → All (λ l. Apart l n) loans
    → IsXor (loans ++ n ∷ [])
IsXor-append [] n h a = (tt, tt)
IsXor-append (l ∷ loans) n h a =
    (All-append (Apart l) loans n h.0 a.0, IsXor-append loans n h.1 a.1)

IsXor-last : (loans : List Loan) (n : Loan) → IsXor (loans ++ n ∷ []) → All (λ l. Apart l n) loans
IsXor-last [] n h = tt
IsXor-last (l ∷ loans) n h = (last_of loans h.0, IsXor-last loans n h.1)
  where
    last_of : (rest : List Loan) → All (Apart l) (rest ++ n ∷ []) → Apart l n
    last_of [] h' = h'.0
    last_of (x ∷ rest) h' = last_of rest h'.1

-- A new loan conflicts with the old ones by the tests of the case.
abbrev conflict : List Loan → ℕ → Bool → Bool
conflict loans v is_mut =
    is_mut && (has_loan false loans v || has_loan true loans v)
    || not is_mut && has_loan true loans v

no_conflict-Apart :
    (loans : List Loan) (v : ℕ) (is_mut : Bool)
    → conflict loans v is_mut ≡ false
    → All (λ l. Apart l (record { var = v; is_mut = is_mut })) loans
unfolding has_loan
no_conflict-Apart [] v is_mut h = tt
no_conflict-Apart (l ∷ loans) v is_mut h = (
  elim (Bool-cases (l.var == v)) [
    | inr e ↦ inl (λ same. absurd (ground arith))
    | inl e ↦ inr (ground arith, ground arith)
  ],
  no_conflict-Apart loans v is_mut (ground arith),
)

Apart-no_conflict :
    (loans : List Loan) (v : ℕ) (is_mut : Bool)
    → All (λ l. Apart l (record { var = v; is_mut = is_mut })) loans
    → conflict loans v is_mut ≡ false
unfolding has_loan
Apart-no_conflict [] v is_mut h = ground arith
Apart-no_conflict (l ∷ loans) v is_mut (inl other, h) =
    let differs : (l.var == v) ≡ false = ground (arith, other) in
    let ih = Apart-no_conflict loans v is_mut h in rw differs ih
Apart-no_conflict (l ∷ loans) v is_mut (inr (a, b), h) =
    let ih = Apart-no_conflict loans v is_mut h in ground arith

no_errors :
    (a b c : Bool)
    → (errors_if a immutable ++ (errors_if b also_borrowed ++ errors_if c also_mutable)) ≡ []
    → (a ≡ false) × (b || c ≡ false)
no_errors false false false h = (refl, refl)
no_errors true b c h = absurd (cc)
no_errors false true c h = absurd (cc)
no_errors false false true h = absurd (cc)

errors_none :
    (a b c : Bool)
    → a ≡ false
    → b || c ≡ false
    → (errors_if a immutable ++ (errors_if b also_borrowed ++ errors_if c also_mutable)) ≡ []
errors_none false false false h g = refl
errors_none true b c h g = absurd (cc)
errors_none false true c h g = absurd (cc)
errors_none false false true h g = absurd (cc)

push_room :
    (loans : List Loan) (v : ℕ) (is_mut : Bool)
    → length loans < max_loans
    → loans_push loans v is_mut ≡ loans ++ record { var = v; is_mut = is_mut } ∷ []
unfolding loans_push
push_room loans v is_mut h =
    let open_ : leb max_loans (length loans) ≡ false = ground arith in rw open_ refl

-- While the table has room a borrow is reported exactly where it breaks the rule of many readers or
-- one writer, or writes through a variable that is not mutable.
pub borrow_var-IsXor :
    (loans : List Loan) (v : VarSym) (is_mut : Bool)
    → length loans < max_loans
    → IsXor loans
    → ((borrow_var loans v is_mut).0 ≡ [])
      ↔ (IsXor (borrow_var loans v is_mut).1 × ((is_mut && not v.is_mut) ≡ false))
unfolding borrow_var
borrow_var-IsXor loans v is_mut room xor =
    let n : Loan = record { var = v.uid; is_mut = is_mut } in
    let shared = has_loan false loans v.uid in
    let exclusive = has_loan true loans v.uid in
    let open_ : leb max_loans (length loans) ≡ false = ground arith in
    let pushed : loans_push loans v.uid is_mut ≡ loans ++ n ∷ [] =
      push_room loans v.uid is_mut room in
    (
      λ h.
          let (writable, free) =
            no_errors (is_mut && not v.is_mut) (is_mut && (shared || exclusive))
              (not is_mut && exclusive) h in
          (
            subst IsXor (sym pushed)
                (IsXor-append loans n xor (no_conflict-Apart loans v.uid is_mut free)),
            writable,
          ),
      λ (kept, writable).
          errors_none (is_mut && not v.is_mut) (is_mut && (shared || exclusive))
            (not is_mut && exclusive) writable
            (Apart-no_conflict loans v.uid is_mut (IsXor-last loans n (subst IsXor pushed kept))),
    )

-- A body without nested blocks.
abbrev pub IsStraight : Actions → Type 0
IsStraight stop = Unit
IsStraight (act (borrow operand is_mut) rest) = IsStraight rest
IsStraight (act (nested b) rest) = ⊥

abbrev pub count : Actions → ℕ
count stop = 0
count (act a rest) = suc (count rest)

-- What a borrow without an error keeps.
abbrev Keeps : List Loan → List BorrowError × List Loan → Type 0
Keeps loans r = r.0 ≡ [] → IsXor r.1 × (length r.1 ≤ length loans + 1)
