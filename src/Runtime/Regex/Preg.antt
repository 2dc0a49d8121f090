-- ===== src/Runtime/Regex/Preg.antt =====
-- The functions preg_match, preg_match_all, preg_replace and preg_split of
-- src/hphpc/runtime/hphp_std.c, on a tree that rx_split_pattern gave and its number of groups: the
-- bodies behind that call. An array that the source builds is the list of its values; rx_match_arr
-- puts them under the keys from 0 on.
pub mod Split
pub mod Replace
use holyphp.Prelude.{
  Bytes, List, Option, [], drop, get_or, if◌then◌else◌, is_digit, leb, length, ltb, none, refl,
  replicate, some, suc, take, zero, ℕ, ◌&&◌, ◌++◌, ◌+◌, ◌-◌, ◌==◌, ◌||◌, ◌∷◌, ◌≡◌,
}
use holyphp.Runtime.Regex.{Rx, RxCtx, rx_search}

-- What a loop that copies the rest of the subject behind it ends with. `overrun` is a copy from behind
-- the end, of a length that has wrapped around; `starved` is a loop that has not ended.
pub data CopyOutcome (A : Type 0) : Type 0 where
  ok : A → CopyOutcome A
  overrun : CopyOutcome A
  starved : CopyOutcome A

-- hp_str_new(s + a, b - a)
abbrev pub between : Bytes → ℕ → ℕ → Bytes
between s a b = take (b - a) (drop a s)

abbrev pub captured : Bytes → Option (ℕ × ℕ) → Bytes
captured s none = []
captured s (some (a, b)) = between s a b

-- The values of rx_match_arr for the groups from `gi` on, `count` of them.
abbrev groups_from : Bytes → RxCtx → ℕ → ℕ → List Bytes
groups_from s c zero gi = []
groups_from s c (suc count) gi = captured s (get_or c.caps gi none) ∷ groups_from s c count (gi + 1)

unfoldable pub rx_match_arr : RxCtx → ℕ → Bytes → ℕ → List Bytes
rx_match_arr c ngroups s ms = between s ms c.end ∷ groups_from s c ngroups 1

-- What is done with the result of rx_search.
abbrev pub after_search {ℓ} : {A : Type ℓ} → Option (ℕ × RxCtx) → (ℕ → RxCtx → A) → A → A
after_search none next stop = stop
after_search (some (ms, c)) next stop = next ms c

-- rx_first_match: what it stores in `*out`, or none where it returns false.
unfoldable pub rx_first_match : Rx → ℕ → Bytes → Option (List Bytes)
unfolding rx_match_arr
rx_first_match tree ng s =
    after_search (rx_search tree s 0) (λ ms c. some (rx_match_arr c ng s ms)) none

-- off = me > ms ? me : ms + 1
abbrev pub next_off : ℕ → ℕ → ℕ
next_off ms me = if ltb ms me then me else ms + 1

abbrev push_row : List (List Bytes) → List Bytes → List (List Bytes)
push_row [] row = []
push_row (col ∷ cols) [] = col ∷ cols
push_row (col ∷ cols) (cell ∷ row) = (col ++ cell ∷ []) ∷ push_row cols row

unfoldable pub matches_loop :
    Rx → ℕ → Bytes → ℕ → ℕ → List (List Bytes) → CopyOutcome (List (List Bytes))
unfolding rx_match_arr
matches_loop tree ng s zero off cols = starved
matches_loop tree ng s (suc fuel) off cols =
    let round : ℕ → RxCtx → CopyOutcome (List (List Bytes)) = λ ms c.
      matches_loop tree ng s fuel (next_off ms c.end) (push_row cols (rx_match_arr c ng s ms)) in
    let again = after_search (rx_search tree s off) round (ok cols) in
    if leb off (length s) then again else ok cols

-- The columns that rx_all_matches stores: all matches, then all values of each group.
unfoldable pub rx_all_matches : Rx → ℕ → Bytes → CopyOutcome (List (List Bytes))
unfolding matches_loop
rx_all_matches tree ng s = matches_loop tree ng s (length s + 2) 0 (replicate (ng + 1) [])

-- $1 to $9 and \1 to \9 in a replacement, for a match at `ms`.
abbrev backref : Bytes → ℕ → ℕ → RxCtx → ℕ → Bytes
backref s ng ms c gi =
    if gi == 0
    then between s ms c.end
    else if leb gi ng
    then captured s (get_or c.caps gi none)
    else []

unfoldable pub expand : (ℕ → Bytes) → Bytes → Bytes
expand ref [] = []
expand ref (a ∷ []) = a ∷ []
expand ref (a ∷ b ∷ r) =
    let referred = ref (b - b'0') ++ expand ref r in
    let plain = a ∷ expand ref (b ∷ r) in
    if (a == b'$' || a == 92) && is_digit b then referred else plain

-- buf_write(&out, x->data + off, x->len - off)
abbrev pub rest_of : Bytes → ℕ → CopyOutcome Bytes
rest_of s off = if leb off (length s) then ok (drop off s) else overrun

abbrev pub behind : Bytes → CopyOutcome Bytes → CopyOutcome Bytes
behind out (ok t) = ok (out ++ t)
behind out overrun = overrun
behind out starved = starved

unfoldable pub preg_replace_loop : Rx → ℕ → Bytes → Bytes → ℕ → ℕ → Bytes → CopyOutcome Bytes
unfolding expand
preg_replace_loop tree ng r s zero off out = starved
preg_replace_loop tree ng r s (suc fuel) off out =
    let round : ℕ → RxCtx → CopyOutcome Bytes = λ ms c.
      preg_replace_loop tree ng r s fuel (next_off ms c.end)
        (out ++ (between s off ms ++ expand (backref s ng ms c) r)) in
    let again = after_search (rx_search tree s off) round (behind out (rest_of s off)) in
    if leb off (length s) then again else behind out (rest_of s off)

unfoldable pub hpbi_preg_replace : Rx → ℕ → Bytes → Bytes → CopyOutcome Bytes
unfolding preg_replace_loop
hpbi_preg_replace tree ng r s = preg_replace_loop tree ng r s (length s + 2) 0 []

abbrev pub last_piece : List Bytes → CopyOutcome Bytes → CopyOutcome (List Bytes)
last_piece parts (ok t) = ok (parts ++ t ∷ [])
last_piece parts overrun = overrun
last_piece parts starved = starved

-- A match that reads nothing adds no piece.
unfoldable pub preg_split_loop : Rx → Bytes → ℕ → ℕ → List Bytes → CopyOutcome (List Bytes)
preg_split_loop tree s zero off parts = starved
preg_split_loop tree s (suc fuel) off parts =
    let round : ℕ → RxCtx → CopyOutcome (List Bytes) = λ ms c.
      let piece = parts ++ between s off ms ∷ [] in
      preg_split_loop tree s fuel (if c.end == ms then ms + 1 else c.end)
        (if c.end == ms then parts else piece) in
    let again = after_search (rx_search tree s off) round (last_piece parts (rest_of s off)) in
    if leb off (length s) then again else last_piece parts (rest_of s off)

unfoldable pub hpbi_preg_split : Rx → Bytes → CopyOutcome (List Bytes)
unfolding preg_split_loop
hpbi_preg_split tree s = preg_split_loop tree s (length s + 2) 0 []

pub after_search_lem :
    {A : Type 0} (P : A → Type 0) (o : Option (ℕ × RxCtx)) (next : ℕ → RxCtx → A) (stop : A)
    → (o ≡ none → P stop)
    → ((ms : ℕ) (c : RxCtx) → o ≡ some (ms, c) → P (next ms c))
    → P (after_search o next stop)
after_search_lem P none next stop f g = f refl
after_search_lem P (some (ms, c)) next stop f g = g ms c refl
