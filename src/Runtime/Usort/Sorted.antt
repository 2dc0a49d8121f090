-- ===== src/Runtime/Usort/Sorted.antt =====
-- usort of src/hphpc/runtime/hphp_std.c sorts, and keeps the order of what the closure takes for equal.
use holyphp.Prelude.{
  All, Bool, List, [], ap, arith, false, get_or, if_lem, if◌then◌else◌, length, not, refl, set, suc,
  sym, true, ◌&&◌, ◌++◌, ◌+◌, ◌∙◌, ◌∷◌, ◌≡◌,
}
use holyphp.Prelude.Int.{ℤ}
use holyphp.Runtime.Value.{Hval}
use holyphp.Runtime.Arr.{Harr}
use holyphp.Runtime.Usort.Back.{
  back, back_if, both_false, get_or-back_head, keep, set-back_head, swap_if, vals_if,
}
use holyphp.Runtime.Usort.{is_positive, moved_key, sink, sort_loop}

module _ {D : Type 0} (junk : Hval D) (call : Hval D → Hval D → ℤ) where
  -- The closure orders `x` behind `y`.
  abbrev pub behind : Hval D → Hval D → Bool
  behind x y = is_positive (call x y)

  unfoldable pub insert : Hval D → List (Hval D) → List (Hval D)
  insert v [] = v ∷ []
  insert v (x ∷ rp) = if behind x v then x ∷ insert v rp else v ∷ x ∷ rp

  sink-insert :
      (tk v y : Hval D) (rp l : List (Hval D)) (a : Harr D)
      → a.vals ≡ back rp (y ∷ l)
      → (sink junk call false tk v (length rp) a).vals ≡ back (insert v rp) l
  unfolding sink insert
  sink-insert tk v y [] l a h = rw h
  sink-insert tk v y (x ∷ rp) l a h =
      let g = get_or a.vals (length rp) junk in
      let head = ap (λ xs. get_or xs (length rp) junk) h ∙ get_or-back_head rp (y ∷ l) x junk in
      let written =
        λ (e : Hval D). ap (λ xs. set xs (length (x ∷ rp)) e) h ∙ set-back_head (x ∷ rp) l y e in
      vals_if (behind g v) _ _ _ _ l (sink-insert tk v x rp (g ∷ l) _ (written g)) (written v)
      ∙ ap (λ e. back (if behind e v then e ∷ insert v rp else v ∷ x ∷ rp) l) head

  unfoldable pub insert_all : List (Hval D) → List (Hval D) → List (Hval D)
  unfolding insert
  insert_all rp [] = rp
  insert_all rp (v ∷ l) = insert_all (insert v rp) l

  pub length-insert : (v : Hval D) (rp : List (Hval D)) → length (insert v rp) ≡ suc (length rp)
  unfolding insert
  length-insert v [] = refl
  length-insert v (x ∷ rp) =
      let ih = length-insert v rp in
      if_lem (λ (l : List (Hval D)). length l ≡ suc (length (x ∷ rp))) (behind x v) (λ b. ap suc ih)
        (λ b. refl)

  pub sort_loop-insert_all :
      (rp l spare : List (Hval D)) (a : Harr D)
      → a.vals ≡ back rp (l ++ spare)
      → (sort_loop junk call false (length l) (length rp) a).vals ≡ back (insert_all rp l) spare
  unfolding sort_loop insert_all
  sort_loop-insert_all rp [] spare a h = h
  sort_loop-insert_all rp (v ∷ l) spare a h =
      let i = length rp in
      let g = get_or a.vals i junk in
      let head = ap (λ xs. get_or xs i junk) h ∙ get_or-back_head rp (l ++ spare) v junk in
      let a' = sink junk call false (moved_key junk call a i) g i a in
      let n : i + 1 ≡ length (insert g rp) = omega (arith, length-insert g rp) in
      let sunk = sink-insert _ g v rp (l ++ spare) a h in
      ap (λ k. (sort_loop junk call false (length l) k a').vals) n
      ∙ sort_loop-insert_all (insert g rp) l spare a' sunk
      ∙ ap (λ e. back (insert_all (insert e rp) l) spare) head

  -- No element stands behind an earlier one that the closure orders behind it.
  abbrev pub InOrder : List (Hval D) → Type 0
  InOrder [] = Unit
  InOrder (x ∷ l) = All (λ y. behind x y ≡ false) l × InOrder l

  abbrev InOrderBack : List (Hval D) → Type 0
  InOrderBack [] = Unit
  InOrderBack (x ∷ rp) = All (λ y. behind y x ≡ false) rp × InOrderBack rp

  All-and :
      (x : Hval D) (rp l : List (Hval D))
      → All (λ y. behind y x ≡ false) rp
      → All (λ y. All (λ z. behind y z ≡ false) l) rp
      → All (λ y. All (λ z. behind y z ≡ false) (x ∷ l)) rp
  All-and x [] l f g = tt
  All-and x (y ∷ rp) l f g = ((f.0, g.0), All-and x rp l f.1 g.1)

  pub back-InOrder :
      (rp l : List (Hval D))
      → InOrderBack rp
      → InOrder l
      → All (λ y. All (λ z. behind y z ≡ false) l) rp
      → InOrder (back rp l)
  back-InOrder [] l hr hl h = hl
  back-InOrder (x ∷ rp) l hr hl h = back-InOrder rp (x ∷ l) hr.1 (h.0, hl) (All-and x rp l hr.0 h.1)

  pub All-empty : (rp : List (Hval D)) → All (λ y. All (λ z. behind y z ≡ false) []) rp
  All-empty [] = tt
  All-empty (x ∷ rp) = (tt, All-empty rp)

  All-insert :
      (P : Hval D → Type 0) (v : Hval D) (rp : List (Hval D)) → P v → All P rp → All P (insert v rp)
  unfolding insert
  All-insert P v [] hv h = (hv, tt)
  All-insert P v (x ∷ rp) hv h =
      if_lem (λ (l : List (Hval D)). All P l) (behind x v) (λ b. (h.0, All-insert P v rp hv h.1))
        (λ b. (hv, h))

  -- The same value, in the equivalence that the closure's order gives.
  abbrev pub same_as : Hval D → Hval D → Bool
  same_as z x = not (behind x z) && not (behind z x)

  module _ (one_way : (x y : Hval D) → behind x y ≡ true → behind y x ≡ false)
      (chain : (x y z : Hval D)
        → behind x y ≡ false
        → behind y z ≡ false
        → behind x z ≡ false) where
    All-chain :
        (x v : Hval D) (rp : List (Hval D))
        → behind x v ≡ false
        → All (λ y. behind y x ≡ false) rp
        → All (λ y. behind y v ≡ false) rp
    All-chain x v [] h l = tt
    All-chain x v (y ∷ rp) h l = (chain y x v l.0 h, All-chain x v rp h l.1)

    insert-InOrderBack :
        (v : Hval D) (rp : List (Hval D)) → InOrderBack rp → InOrderBack (insert v rp)
    unfolding insert
    insert-InOrderBack v [] h = (tt, tt)
    insert-InOrderBack v (x ∷ rp) h =
        if_lem InOrderBack (behind x v)
          (λ b. (
            All-insert (λ y. behind y x ≡ false) v rp (one_way x v b) h.0,
            insert-InOrderBack v rp h.1,
          ))
          (λ b. ((b, All-chain x v rp b h.0), h))

    pub insert_all-InOrderBack :
        (rp l : List (Hval D)) → InOrderBack rp → InOrderBack (insert_all rp l)
    unfolding insert_all
    insert_all-InOrderBack rp [] h = h
    insert_all-InOrderBack rp (v ∷ l) h =
        insert_all-InOrderBack (insert v rp) l (insert-InOrderBack v rp h)

    -- What passes `v` on its way is not the same as `z` if `v` is.
    keep_swap :
        (z v x : Hval D) (l : List (Hval D))
        → behind x v ≡ true
        → keep (same_as z) (x ∷ v ∷ l) ≡ keep (same_as z) (v ∷ x ∷ l)
    keep_swap z v x l b = swap_if (same_as z x) (same_as z v) x v (keep (same_as z) l) (λ hx hv.
        let fx = both_false (behind x z) (behind z x) hx in
        let fv = both_false (behind v z) (behind z v) hv in
        let eq : true ≡ false = sym b ∙ chain x z v fx.0 fv.1 in ground arith)

    keep-insert :
        (z v : Hval D) (rp : List (Hval D))
        → keep (same_as z) (insert v rp) ≡ keep (same_as z) (v ∷ rp)
    unfolding insert
    keep-insert z v [] = refl
    keep-insert z v (x ∷ rp) =
        if_lem (λ (l : List (Hval D)). keep (same_as z) l ≡ keep (same_as z) (v ∷ x ∷ rp))
          (behind x v)
          (λ b.
            ap (λ l. if same_as z x then x ∷ l else l) (keep-insert z v rp) ∙ keep_swap z v x rp b)
          (λ b. refl)

    pub keep-insert_all :
        (z : Hval D) (rp l : List (Hval D))
        → back (keep (same_as z) (insert_all rp l)) []
          ≡ back (keep (same_as z) rp) (keep (same_as z) l)
    unfolding insert_all
    keep-insert_all z rp [] = refl
    keep-insert_all z rp (v ∷ l) =
        keep-insert_all z (insert v rp) l
        ∙ ap (λ r. back r (keep (same_as z) l)) (keep-insert z v rp)
        ∙ sym (back_if (same_as z v) (keep (same_as z) rp) (keep (same_as z) l) v)
