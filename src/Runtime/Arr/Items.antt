-- ===== src/Runtime/Arr/Items.antt =====
-- The elements of an array of src/hphpc/runtime/hphp_rt.c, under the operations that move them.
use holyphp.Prelude.{
  List, [], ap, append-nil, append_assoc, arith, drop, false, length, length-take, refl, reverse,
  suc, sym, take, zero, ℕ, ◌++◌, ◌+◌, ◌-◌, ◌==◌, ◌∙◌, ◌∷◌, ◌≡◌, ◌≤◌,
}
use holyphp.Runtime.Value.{Hval}
use holyphp.Runtime.Arr.{Harr, hp_arr_new}
use holyphp.Runtime.Arr.Ops.{
  hp_arr_pop, hp_arr_push, hp_arr_reverse, hp_arr_shift, hp_arr_unshift, hp_arr_values, push_all,
  write,
}
use holyphp.Runtime.Arr.Buffers.{length-write-gt, take-write, write_self}

-- The elements in order.
abbrev pub items : {D : Type 0} → Harr D → List (Hval D)
items a = take a.len a.vals

module _ {D : Type 0} (junk : Hval D) where
  items-push :
      (a : Harr D) (v : Hval D)
      → a.len ≤ length a.vals
      → items (hp_arr_push junk a v) ≡ items a ++ v ∷ []
  unfolding hp_arr_push
  items-push a v room = take-write junk a.vals a.len v room

  push_room :
      (a : Harr D) (v : Hval D)
      → a.len ≤ length a.vals
      → (hp_arr_push junk a v).len ≤ length (hp_arr_push junk a v).vals
  unfolding hp_arr_push
  push_room a v room = omega (arith, length-write-gt junk a.vals a.len v)

  items-push_all :
      (r : Harr D) (vs : List (Hval D))
      → r.len ≤ length r.vals
      → items (push_all junk r vs) ≡ items r ++ vs
  unfolding push_all
  items-push_all r [] room = sym (append-nil (items r))
  items-push_all r (v ∷ vs) room =
      items-push_all (hp_arr_push junk r v) vs (push_room r v room)
      ∙ ap (λ xs. xs ++ vs) (items-push r v room)
      ∙ append_assoc (items r) (v ∷ []) vs

  -- `hp_arr_reverse` gives the elements in the opposite order, and `hp_arr_values` in the same order.
  pub items-hp_arr_reverse :
      (a : Harr D)
      → (items (hp_arr_reverse junk a) ≡ reverse (items a))
        × (items (hp_arr_values junk a) ≡ items a)
  unfolding hp_arr_reverse hp_arr_values hp_arr_new
  items-hp_arr_reverse a =
      (items-push_all _ (reverse (items a)) (omega arith), items-push_all _ (items a) (omega arith))

  take-write_before :
      (xs : List (Hval D)) (n : ℕ) (v : Hval D)
      → n ≤ length xs
      → take n (write junk xs n v) ≡ take n xs
  unfolding write
  take-write_before xs zero v h = refl
  take-write_before [] (suc n) v h = absurd (omega arith)
  take-write_before (x ∷ xs) (suc n) v h = ap (λ r. x ∷ r) (take-write_before xs n v (omega arith))

  -- In an array whose buffer holds its elements, `hp_arr_pop` after `hp_arr_push` returns the value
  -- that was pushed and leaves the elements that were there.
  pub hp_arr_pop-hp_arr_push :
      (a : Harr D) (v : Hval D)
      → a.len ≤ length a.vals
      → ((hp_arr_pop junk (hp_arr_push junk a v)).1 ≡ v)
        × (items (hp_arr_pop junk (hp_arr_push junk a v)).0 ≡ items a)
  unfolding hp_arr_pop hp_arr_push
  hp_arr_pop-hp_arr_push a v room =
      let some_left : (a.len + 1 == 0) ≡ false = ground arith in
      let last : a.len + 1 - 1 ≡ a.len = omega arith in
      rw (some_left, last)
        (write_self junk a.vals a.len v junk, take-write_before a.vals a.len v room)

  take_exact : (p z : List (Hval D)) (n : ℕ) → length p ≡ n → take n (p ++ z) ≡ p
  take_exact [] z zero h = refl
  take_exact [] z (suc n) h = absurd (omega arith)
  take_exact (x ∷ p) z zero h = absurd (omega arith)
  take_exact (x ∷ p) z (suc n) h = ap (λ r. x ∷ r) (take_exact p z n (omega arith))

  -- In an array whose buffer holds its elements, `hp_arr_shift` after `hp_arr_unshift` returns the
  -- value that was put first and leaves the elements that were there.
  pub hp_arr_shift-hp_arr_unshift :
      (a : Harr D) (v : Hval D)
      → a.len ≤ length a.vals
      → ((hp_arr_shift junk (hp_arr_unshift junk a v)).1 ≡ v)
        × (items (hp_arr_shift junk (hp_arr_unshift junk a v)).0 ≡ items a)
  unfolding hp_arr_shift hp_arr_unshift
  hp_arr_shift-hp_arr_unshift a v room =
      let some_left : (a.len + 1 == 0) ≡ false = ground arith in
      let last : a.len + 1 - 1 ≡ a.len = omega arith in
      let full : length (items a) ≡ a.len = omega (arith, length-take a.len a.vals) in
      rw
        (
          some_left,
          last,
          take_exact (items a) (drop (a.len + 1) a.vals) a.len full,
          take_exact (items a) (drop a.len (v ∷ (items a ++ drop (a.len + 1) a.vals))) a.len full,
        )
        (refl, refl)
