-- ===== src/Runtime/Str/Order.antt =====
-- `hp_str_cmp` of src/hphpc/runtime/hphp_rt.c as an order on byte strings.
use holyphp.Prelude.{Bytes, [], arith, refl, ◌↔◌, ◌∷◌, ◌≡◌}
use holyphp.Runtime.Str.{hp_str_cmp, less, opposite, same}

cmp-flip : (s t : Bytes) → hp_str_cmp t s ≡ opposite (hp_str_cmp s t)
unfolding hp_str_cmp
cmp-flip [] [] = refl
cmp-flip [] (b ∷ t) = refl
cmp-flip (a ∷ s) [] = refl
cmp-flip (a ∷ s) (b ∷ t) = ground (arith, cmp-flip s t)

cmp_same : (s t : Bytes) → hp_str_cmp s t ≡ same → s ≡ t
unfolding hp_str_cmp
cmp_same [] [] h = refl
cmp_same [] (b ∷ t) h = absurd (cc)
cmp_same (a ∷ s) [] h = absurd (cc)
cmp_same (a ∷ s) (b ∷ t) h = ground (arith, cmp_same s t)

cmp_self : (s : Bytes) → hp_str_cmp s s ≡ same
unfolding hp_str_cmp
cmp_self [] = refl
cmp_self (a ∷ s) = ground (arith, cmp_self s)

cmp_trans : (s t u : Bytes) → hp_str_cmp s t ≡ less → hp_str_cmp t u ≡ less → hp_str_cmp s u ≡ less
unfolding hp_str_cmp
cmp_trans s [] [] h g = absurd (cc)
cmp_trans s (b ∷ t) [] h g = absurd (cc)
cmp_trans [] [] u h g = absurd (cc)
cmp_trans [] (b ∷ t) (c ∷ u) h g = refl
cmp_trans (a ∷ s) [] u h g = absurd (cc)
cmp_trans (a ∷ s) (b ∷ t) (c ∷ u) h g = ground (arith, cmp_trans s t u)

-- `hp_str_cmp` is a total order: swapped operands give the opposite sign, it is 0 exactly for equal
-- strings, and being smaller is transitive.
pub hp_str_cmp_order :
    (s t u : Bytes)
    → (hp_str_cmp t s ≡ opposite (hp_str_cmp s t))
      × ((hp_str_cmp s t ≡ same) ↔ (s ≡ t))
      × (hp_str_cmp s t ≡ less → hp_str_cmp t u ≡ less → hp_str_cmp s u ≡ less)
hp_str_cmp_order s t u = (cmp-flip s t, (cmp_same s t, λ e. rw e (cmp_self t)), cmp_trans s t u)
