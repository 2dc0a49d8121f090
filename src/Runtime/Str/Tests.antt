-- ===== src/Runtime/Str/Tests.antt =====
-- Runs of the string functions.
use holyphp.Prelude.{
  Bytes, [], all_bytes, codes, false, is_digit, is_space, none, refl, some, true, ℕ, ◌++◌, ◌∷◌, ◌≡◌,
}
use holyphp.Runtime.Str.{hp_str_index, hp_str_trim}
use holyphp.Runtime.Str.Search.{FirstAt, hp_str_index-FirstAt}
use holyphp.Runtime.Str.Trim.{Blank, EndsClean, StartsClean, hp_str_trim_lem}
use holyphp.Runtime.Str.Numeric.{hp_str_is_numeric}
use holyphp.Runtime.Str.Builder.{Joins, Store, StrObj, hp_str_concat2, hp_str_concat2-Joins}

abbrev hello : Bytes
hello = codes "hello"

hp_str_index-FirstAt_example : FirstAt hello (codes "l") (hp_str_index hello (codes "l"))
hp_str_index-FirstAt_example = hp_str_index-FirstAt hello (codes "l") (cc)

no_z : hp_str_index hello (codes "z") ≡ none
unfolding hp_str_index
no_z = refl

abbrev padded : Bytes
padded = codes " \tab c "

hp_str_trim_lem_example :
    (l t : Bytes) × Blank l
    × Blank t
    × (padded ≡ l ++ (hp_str_trim padded ++ t))
    × StartsClean (hp_str_trim padded)
    × EndsClean (hp_str_trim padded)
hp_str_trim_lem_example = hp_str_trim_lem padded

-- A left string with room, and a right one.
abbrev roomy : StrObj
roomy = record { bytes = hello; cap = 30; hash = 7; rc = 1 }

abbrev word : StrObj
word = record { bytes = codes "!"; cap = 2; hash = 0; rc = 1 }

abbrev two : Store
two = roomy ∷ word ∷ []

hp_str_concat2-Joins_example :
    (h' : Store) × (r : ℕ) × (hp_str_concat2 two 0 1 ≡ some (h', r)) × Joins two 0 roomy word h' r
hp_str_concat2-Joins_example = hp_str_concat2-Joins two 0 1 roomy word refl refl

-- The left string itself holds the concatenation.
in_place_run :
    hp_str_concat2 two 0 1
    ≡ some (record roomy { bytes = hello ++ codes "!"; hash = 0 } ∷ word ∷ [], 0)
unfolding hp_str_concat2
in_place_run = refl

one_space : all_bytes is_space (codes " ") ≡ true
unfolding all_bytes
one_space = refl

digits_42 : all_bytes is_digit (codes "42") ≡ true
unfolding all_bytes
digits_42 = refl

tab_space : all_bytes is_space (codes "\t ") ≡ true
unfolding all_bytes
tab_space = refl

exponents : hp_str_is_numeric (codes "-1.5e3 ") ≡ true
unfolding hp_str_is_numeric
exponents = refl

no_exponent_digit : hp_str_is_numeric (codes "1e") ≡ false
unfolding hp_str_is_numeric
no_exponent_digit = refl
