-- ===== src/Runtime/Usort/Stable.antt =====
-- usort of src/hphpc/runtime/hphp_std.c on the elements of a list.
use mathlib.Core.Path.{subst}
use holyphp.Prelude.{
  List, [], ap, arith, drop, false, get_or, if_lem, if◌then◌else◌, length, length-take, ltb, not,
  refl, suc, sym, take, take-append-drop, true, zero, ℕ, ◌++◌, ◌+◌, ◌-◌, ◌<◌, ◌∙◌, ◌∷◌, ◌≡◌, ◌≤◌,
}
use holyphp.Prelude.Int.{ℤ}
use holyphp.Runtime.Value.{Hval}
use holyphp.Runtime.Arr.{Harr}
use holyphp.Runtime.Arr.Items.{items}
use holyphp.Runtime.Usort.{hp_sort_with_fn, hpbi_usort, sink, sort_loop}
use holyphp.Runtime.Usort.Back.{back, keep, keep-back, take-back}
use holyphp.Runtime.Usort.Sorted.{
  All-empty, InOrder, back-InOrder, behind, insert, insert_all, insert_all-InOrderBack,
  keep-insert_all, length-insert, same_as, sort_loop-insert_all,
}

module _ {D : Type 0} (junk : Hval D) (call : Hval D → Hval D → ℤ) where
  sink-len : (tk v : Hval D) (j : ℕ) (a : Harr D) → (sink junk call false tk v j a).len ≡ a.len
  unfolding sink
  sink-len tk v zero a = refl
  sink-len tk v (suc j) a =
      let ih = sink-len tk v j _ in
      if_lem (λ (b : Harr D). b.len ≡ a.len) (behind junk call (get_or a.vals j junk) v) (λ p. ih)
        (λ p. refl)

  sort_loop-len : (n i : ℕ) (a : Harr D) → (sort_loop junk call false n i a).len ≡ a.len
  unfolding sort_loop
  sort_loop-len zero i a = refl
  sort_loop-len (suc n) i a = sort_loop-len n (i + 1) _ ∙ sink-len _ _ i a

  length-insert_all :
      (rp l : List (Hval D)) → length (insert_all junk call rp l) ≡ length rp + length l
  unfolding insert_all
  length-insert_all rp [] = omega arith
  length-insert_all rp (v ∷ l) =
      omega (arith, length-insert_all (insert junk call v rp) l, length-insert junk call v rp)

  -- The list that the insertions of the elements give.
  abbrev insertion_sort : List (Hval D) → List (Hval D)
  insertion_sort l = back (insert_all junk call [] l) []

  insertion_sort_short :
      (n : ℕ) (xs : List (Hval D)) → n < 2 → insertion_sort (take n xs) ≡ take n xs
  unfolding insert_all insert
  insertion_sort_short zero xs h = refl
  insertion_sort_short (suc n) [] h = refl
  insertion_sort_short (suc zero) (x ∷ xs) h = refl
  insertion_sort_short (suc (suc n)) (x ∷ xs) h = absurd (omega arith)

  items-sort_loop :
      (a : Harr D) (v : Hval D) (l spare : List (Hval D))
      → a.vals ≡ v ∷ (l ++ spare)
      → a.len ≡ suc (length l)
      → items (sort_loop junk call false (length l) 1 a) ≡ insertion_sort (v ∷ l)
  unfolding insert_all insert
  items-sort_loop a v l spare h n =
      let sorted = insert_all junk call (v ∷ []) l in
      let r = sort_loop junk call false (length l) 1 a in
      let vals : r.vals ≡ back sorted spare = sort_loop-insert_all junk call (v ∷ []) l spare a h in
      let len : r.len ≡ length sorted + 0 =
        omega (arith, sort_loop-len (length l) 1 a, n, length-insert_all (v ∷ []) l) in
      ap (λ k. take k r.vals) len ∙ ap (take (length sorted + 0)) vals ∙ take-back sorted spare 0

  items-sort_rounds :
      (a : Harr D) (xs spare : List (Hval D))
      → a.vals ≡ xs ++ spare
      → a.len ≡ length xs
      → 1 ≤ a.len
      → items (sort_loop junk call false (a.len - 1) 1 a) ≡ insertion_sort xs
  items-sort_rounds a [] spare h n ne = absurd (omega arith)
  items-sort_rounds a (v ∷ l) spare h n ne =
      let k : a.len - 1 ≡ length l = omega arith in
      ap (λ k. items (sort_loop junk call false k 1 a)) k ∙ items-sort_loop a v l spare h n

  items-hp_sort_with_fn :
      (a : Harr D)
      → a.len ≤ length a.vals
      → items (hp_sort_with_fn junk call false a) ≡ insertion_sort (items a)
  unfolding hp_sort_with_fn
  items-hp_sort_with_fn a room =
      if_lem (λ (b : Harr D). items b ≡ insertion_sort (items a)) (ltb a.len 2)
        (λ p. sym (insertion_sort_short a.len a.vals (ground arith)))
        (λ p.
          items-sort_rounds a (items a) (drop a.len a.vals) (sym (take-append-drop a.len a.vals))
            (omega (arith, length-take a.len a.vals)) (ground arith))

-- For a closure that gives a total preorder (it puts no two elements each behind the other, and what is
-- not behind is transitive), usort of a list leaves its elements in the order of the closure, and for
-- every value the elements that the closure takes for equal to it are the same as before, in the same
-- order.
pub hpbi_usort-Stable :
    {D : Type 0} (junk : Hval D) (call : Hval D → Hval D → ℤ)
    → ((x y : Hval D) → behind junk call x y ≡ true → behind junk call y x ≡ false)
    → ((x y z : Hval D)
        → behind junk call x y ≡ false
        → behind junk call y z ≡ false
        → behind junk call x z ≡ false)
    → (a : Harr D) → a.is_map ≡ false
    → a.len ≤ length a.vals
    → InOrder junk call (items (hpbi_usort junk call a))
      × ((z : Hval D)
          → keep (same_as junk call z) (items (hpbi_usort junk call a))
            ≡ keep (same_as junk call z) (items a))
unfolding hpbi_usort insert_all
hpbi_usort-Stable junk call one_way chain a plain room =
    let sorted = insert_all junk call [] (items a) in
    let same : items (hpbi_usort junk call a) ≡ back sorted [] =
      ap (λ b. items (if not b then hp_sort_with_fn junk call false a else a)) plain
      ∙ items-hp_sort_with_fn junk call a room in
    let order = insert_all-InOrderBack junk call one_way chain [] (items a) tt in
    (
      subst (InOrder junk call) (sym same)
          (back-InOrder junk call sorted [] order tt (All-empty junk call sorted)),
      λ z.
          ap (keep (same_as junk call z)) same
          ∙ keep-back (same_as junk call z) sorted []
          ∙ keep-insert_all junk call one_way chain z [] (items a),
    )
