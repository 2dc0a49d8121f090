-- ===== src/Runtime/Std/Text/Pieces.antt =====
-- Cutting strings into pieces and joining them, in src/hphpc/runtime/hphp_std.c: `hpbi_explode`,
-- `hp_implode` and `hpbi_str_split`.
use holyphp.Prelude.{
  Bytes, List, Option, [], drop, if◌then◌else◌, length, ltb, none, some, suc, take, zero, ℕ, ◌++◌,
  ◌>>=◌, ◌∷◌,
}
use holyphp.Prelude.Int.{negsuc, pos, ℤ}
use holyphp.Runtime.Str.{is_prefix}

-- The loop of `hpbi_explode`: `piece` is what stands between `start` and `i`. Every turn leaves less of
-- the string; without fuel there is no result.
unfoldable pub explode_loop : ℕ → Bytes → Bytes → Bytes → Option (List Bytes)
unfolding is_prefix
explode_loop zero d piece s = none
explode_loop (suc fuel) d piece s =
    let hit = explode_loop fuel d [] (drop (length d) s) in
    let miss = explode_loop fuel d (piece ++ take 1 s) (drop 1 s) in
    if ltb (length s) (length d)
    then some ((piece ++ s) ∷ [])
    else if is_prefix d s
    then hit >>= (λ rest. some (piece ∷ rest))
    else miss

-- An empty delimiter throws.
unfoldable pub hpbi_explode : Bytes → Bytes → Option (List Bytes)
unfolding explode_loop
hpbi_explode [] s = none
hpbi_explode (c ∷ d) s = explode_loop (suc (length s)) (c ∷ d) [] s

unfoldable pub hp_implode : Bytes → List Bytes → Bytes
hp_implode g [] = []
hp_implode g (p ∷ []) = p
hp_implode g (p ∷ q ∷ r) = p ++ g ++ hp_implode g (q ∷ r)

-- The loop of `hpbi_str_split`.
unfoldable pub split_loop : ℕ → ℕ → Bytes → List Bytes
split_loop zero k s = []
split_loop (suc fuel) k [] = []
split_loop (suc fuel) k (c ∷ s) = take k (c ∷ s) ∷ split_loop fuel k (drop k (c ∷ s))

abbrev pub split_size : ℤ → ℕ
split_size (negsuc n) = 1
split_size (pos zero) = 1
split_size (pos (suc n)) = suc n

unfoldable pub hpbi_str_split : Bytes → ℤ → List Bytes
unfolding split_loop
hpbi_str_split s n = split_loop (length s) (split_size n) s
