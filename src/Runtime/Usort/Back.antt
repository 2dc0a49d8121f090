-- ===== src/Runtime/Usort/Back.antt =====
-- Lists as the inner loop of hp_sort_with_fn of src/hphpc/runtime/hphp_std.c sees them: from a position
-- in the middle back to the start.
use holyphp.Prelude.{
  Bool, List, [], ap, arith, false, get_or, if◌then◌else◌, length, not, refl, set, suc, take, true,
  ℕ, ◌&&◌, ◌+◌, ◌∙◌, ◌∷◌, ◌≡◌,
}
use holyphp.Runtime.Value.{Hval}
use holyphp.Runtime.Arr.{Harr}

-- A prefix, kept from its end, in front of a list: `back [c, b, a] l` is a, b, c and then `l`.
abbrev pub back : {A : Type 0} → List A → List A → List A
back [] l = l
back (x ∷ rp) l = back rp (x ∷ l)

pub get_or-back :
    {A : Type 0} (rp l : List A) (n : ℕ) (d : A)
    → get_or (back rp l) (length rp + n) d ≡ get_or l n d
get_or-back [] l n d = ap (λ k. get_or l k d) (omega arith)
get_or-back (x ∷ rp) l n d =
    ap (λ k. get_or (back rp (x ∷ l)) k d) (omega arith) ∙ get_or-back rp (x ∷ l) (suc n) d

pub set-back :
    {A : Type 0} (rp l : List A) (n : ℕ) (v : A)
    → set (back rp l) (length rp + n) v ≡ back rp (set l n v)
set-back [] l n v = ap (λ k. set l k v) (omega arith)
set-back (x ∷ rp) l n v =
    ap (λ k. set (back rp (x ∷ l)) k v) (omega arith) ∙ set-back rp (x ∷ l) (suc n) v

pub get_or-back_head :
    {A : Type 0} (rp l : List A) (x d : A) → get_or (back rp (x ∷ l)) (length rp) d ≡ x
get_or-back_head rp l x d =
    ap (λ k. get_or (back rp (x ∷ l)) k d) (omega arith) ∙ get_or-back rp (x ∷ l) 0 d

pub set-back_head :
    {A : Type 0} (rp l : List A) (x v : A) → set (back rp (x ∷ l)) (length rp) v ≡ back rp (v ∷ l)
set-back_head rp l x v = ap (λ k. set (back rp (x ∷ l)) k v) (omega arith) ∙ set-back rp (x ∷ l) 0 v

pub take-back :
    {A : Type 0} (rp l : List A) (n : ℕ) → take (length rp + n) (back rp l) ≡ back rp (take n l)
take-back [] l n = ap (λ k. take k l) (omega arith)
take-back (x ∷ rp) l n =
    ap (λ k. take k (back rp (x ∷ l))) (omega arith) ∙ take-back rp (x ∷ l) (suc n)

-- The values that the closure takes for equal to `z`, in their order.
abbrev pub keep : {A : Type 0} → (A → Bool) → List A → List A
keep p [] = []
keep p (x ∷ l) = if p x then x ∷ keep p l else keep p l

pub back_if :
    {A : Type 0} (b : Bool) (rp l : List A) (x : A)
    → back rp (if b then x ∷ l else l) ≡ back (if b then x ∷ rp else rp) l
back_if true rp l x = refl
back_if false rp l x = refl

pub keep-back :
    {A : Type 0} (p : A → Bool) (rp l : List A) → keep p (back rp l) ≡ back (keep p rp) (keep p l)
keep-back p [] l = refl
keep-back p (x ∷ rp) l = keep-back p rp (x ∷ l) ∙ back_if (p x) (keep p rp) (keep p l) x

pub vals_if :
    {D : Type 0} (b : Bool) (s t : Harr D) (r u l : List (Hval D))
    → s.vals ≡ back r l
    → t.vals ≡ back u l
    → (if b then s else t).vals ≡ back (if b then r else u) l
vals_if true s t r u l h k = h
vals_if false s t r u l h k = k

pub swap_if :
    {A : Type 0} (b c : Bool) (x v : A) (l : List A)
    → (b ≡ true → c ≡ true → ⊥)
    → (if b then x ∷ (if c then v ∷ l else l) else if c then v ∷ l else l)
      ≡ (if c then v ∷ (if b then x ∷ l else l) else if b then x ∷ l else l)
swap_if true true x v l h = absurd (h refl refl)
swap_if true false x v l h = refl
swap_if false true x v l h = refl
swap_if false false x v l h = refl

pub both_false : (b c : Bool) → not b && not c ≡ true → (b ≡ false) × (c ≡ false)
both_false true c h = ground arith
both_false false true h = ground arith
both_false false false h = (refl, refl)
