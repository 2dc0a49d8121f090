-- ===== src/Runtime/Regex/Parse/Total.antt =====
-- The parser of patterns of src/hphpc/runtime/hphp_std.c ends on every pattern.
use native.Mathlib.Nat.{le_refl, le_trans}
use holyphp.Prelude.{Bytes, [], arith, if_lem, length, suc, zero, ℕ, ◌+◌, ◌<◌, ◌==◌, ◌||◌, ◌∷◌, ◌≤◌}
use holyphp.Runtime.Regex.{Rx, branch}
use holyphp.Runtime.Regex.Parse.{
  Flags, RxParsed, add_kid, alternatives, rx_branches, group_of, ok, parse_group, quantified,
  rx_parse_alt, rx_parse_atom, rx_parse_rep, rx_parse_seq, rx_peek, rx_skip,
}
use holyphp.Runtime.Regex.Parse.Pieces.{
  Leaves, and_then-Leaves, class-Leaves, fewer, group_of-Leaves, quantified-Leaves, skip2_le,
  skip_le,
}

-- What is known of rx_parse_alt on patterns shorter than `b`.
module _ (b : ℕ) (parse_alt : Bytes → ℕ → RxParsed Rx) (fl : Flags)
    (ends : (rest : Bytes) (ng : ℕ)
      → length rest < b
      → Leaves (length rest) (parse_alt rest ng)) where
  group-Leaves :
      (rest : Bytes) (ng : ℕ)
      → length rest < b
      → Leaves (length rest) (parse_group parse_alt rest ng)
  unfolding parse_group
  group-Leaves rest ng lt =
      let n = length rest in
      let two = skip2_le rest in
      if_lem (Leaves n) (rx_peek rest == b'?')
        (λ _.
          if_lem (Leaves n) (rx_peek (rx_skip rest) == b':')
            (λ _.
              and_then-Leaves n n (parse_alt (rx_skip (rx_skip rest)) ng) (group_of 0)
                (fewer (length (rx_skip (rx_skip rest))) n (parse_alt (rx_skip (rx_skip rest)) ng)
                  two (ends (rx_skip (rx_skip rest)) ng (omega arith)))
                (group_of-Leaves n 0))
            (λ _. tt))
        (λ _.
          and_then-Leaves n n (parse_alt rest (ng + 1)) (group_of (ng + 1)) (ends rest (ng + 1) lt)
            (group_of-Leaves n (ng + 1)))

  -- An atom reads a byte at least.
  atom-Leaves :
      (c : ℕ) (rest : Bytes) (ng : ℕ)
      → length rest < b
      → Leaves (length rest) (rx_parse_atom parse_alt fl (c ∷ rest) ng)
  unfolding rx_parse_atom
  atom-Leaves c rest ng lt =
      let n = length rest in
      let same = le_refl (length rest) in
      if_lem (Leaves n) (c == b'(') (λ _. group-Leaves rest ng lt)
        (λ _.
          if_lem (Leaves n) (c == b'[') (λ _. class-Leaves fl rest ng)
            (λ _.
              if_lem (Leaves n) (c == b'.') (λ _. same)
                (λ _.
                  if_lem (Leaves n) (c == b'^') (λ _. same)
                    (λ _.
                      if_lem (Leaves n) (c == b'$') (λ _. same)
                        (λ _.
                          if_lem (Leaves n) (c == 92) (λ _. skip_le rest)
                            (λ _.
                              if_lem (Leaves n) (c == b'*' || c == b'+' || c == b'?') (λ _. tt)
                                (λ _. same)))))))

  rep-Leaves :
      (c : ℕ) (rest : Bytes) (ng : ℕ)
      → length rest < b
      → Leaves (length rest) (rx_parse_rep parse_alt fl (c ∷ rest) ng)
  unfolding rx_parse_rep
  rep-Leaves c rest ng lt =
      and_then-Leaves (length rest) (length rest) (rx_parse_atom parse_alt fl (c ∷ rest) ng)
        quantified (atom-Leaves c rest ng lt)
        (λ n rest' ng' le.
          fewer (length rest') (length rest) (quantified n rest' ng') le
            (quantified-Leaves n rest' ng'))

  seq-Leaves :
      (fuel : ℕ) (pat : Bytes) (ng : ℕ)
      → length pat ≤ fuel
      → length pat ≤ b
      → Leaves (length pat) (rx_parse_seq fuel parse_alt fl pat ng)
  unfolding rx_parse_seq
  seq-Leaves zero [] ng h lt = le_refl 0
  seq-Leaves zero (c ∷ rest) ng h lt = absurd (omega arith)
  seq-Leaves (suc fuel) [] ng h lt = le_refl 0
  seq-Leaves (suc fuel) (c ∷ rest) ng h lt =
      if_lem (Leaves (length (c ∷ rest))) (c == b'|' || c == b')')
        (λ _. le_refl (length (c ∷ rest)))
        (λ _.
          and_then-Leaves (length rest) (length (c ∷ rest))
            (rx_parse_rep parse_alt fl (c ∷ rest) ng) _ (rep-Leaves c rest ng (omega arith))
            (λ n rest' ng' le.
              and_then-Leaves (length rest') (length (c ∷ rest))
                (rx_parse_seq fuel parse_alt fl rest' ng') (add_kid n)
                (seq-Leaves fuel rest' ng' (omega arith) (omega arith))
                (λ kids rest'' ng'' le'. omega arith)))

  rx_branches-Leaves :
      (fuel : ℕ) (pat : Bytes) (ng : ℕ)
      → length pat ≤ fuel
      → length pat ≤ b
      → Leaves (length pat) (rx_branches fuel parse_alt fl pat ng)
  unfolding rx_branches
  rx_branches-Leaves zero [] ng h lt = le_refl 0
  rx_branches-Leaves zero (c ∷ rest) ng h lt = absurd (omega arith)
  rx_branches-Leaves (suc fuel) [] ng h lt = le_refl 0
  rx_branches-Leaves (suc fuel) (c ∷ rest) ng h lt =
      if_lem (Leaves (length (c ∷ rest))) (c == b'|')
        (λ _.
          and_then-Leaves (length rest) (length (c ∷ rest))
            (rx_parse_seq (length rest) parse_alt fl rest ng) _
            (seq-Leaves (length rest) rest ng (le_refl (length rest)) (omega arith))
            (λ kids rest' ng' le.
              and_then-Leaves (length rest') (length (c ∷ rest))
                (rx_branches fuel parse_alt fl rest' ng') (λ alts. ok (branch kids alts))
                (rx_branches-Leaves fuel rest' ng' (omega arith) (omega arith))
                (λ alts rest'' ng'' le'. omega arith)))
        (λ _. le_refl (length (c ∷ rest)))

alt-Leaves :
    (fuel : ℕ) (fl : Flags) (pat : Bytes) (ng : ℕ)
    → length pat < fuel
    → Leaves (length pat) (rx_parse_alt fuel fl pat ng)
unfolding rx_parse_alt
alt-Leaves zero fl pat ng lt = absurd (omega arith)
alt-Leaves (suc fuel) fl pat ng lt =
    let ends = alt-Leaves fuel fl in
    and_then-Leaves (length pat) (length pat)
      (rx_parse_seq (length pat) (rx_parse_alt fuel fl) fl pat ng) _
      (seq-Leaves fuel (rx_parse_alt fuel fl) fl ends (length pat) pat ng (le_refl (length pat))
        (omega arith))
      (λ first rest ng' le.
        and_then-Leaves (length rest) (length pat)
          (rx_branches (length rest) (rx_parse_alt fuel fl) fl rest ng')
          (λ alts. ok (alternatives first alts))
          (rx_branches-Leaves fuel (rx_parse_alt fuel fl) fl ends (length rest) rest ng'
            (le_refl (length rest)) (omega arith))
          (λ alts rest' ng'' le'. le_trans le' le))

-- With one unit of fuel more than the pattern has bytes the parser ends, in a tree or an error, and
-- leaves no more than it was given.
pub rx_parse_alt-Leaves :
    (fl : Flags) (pat : Bytes) (ng : ℕ)
    → Leaves (length pat) (rx_parse_alt (length pat + 1) fl pat ng)
rx_parse_alt-Leaves fl pat ng = alt-Leaves (length pat + 1) fl pat ng (omega arith)
