-- ===== src/Runtime/Regex/Preg/Replace.antt =====
-- preg_replace of src/hphpc/runtime/hphp_std.c with an expression that matches nothing at the end.
use mathlib.Core.Path.{subst}
use holyphp.Prelude.{
  Bytes, [], arith, false, if_lem, leb, leb→le, length, suc, zero, ℕ, ◌+◌, ◌<◌, ◌≡◌, ◌≤◌,
}
use holyphp.Runtime.Regex.{Rx, rx_search}
use holyphp.Runtime.Regex.Meaning.{Matches}
use holyphp.Runtime.Regex.Search.{Leftmost, rx_search-Leftmost, rx_search-SpansIn}
use holyphp.Runtime.Regex.Preg.{
  after_search_lem, behind, hpbi_preg_replace, next_off, overrun, preg_replace_loop, rest_of,
}

outside_overrun :
    (s out : Bytes) (off : ℕ) → leb off (length s) ≡ false → behind out (rest_of s off) ≡ overrun
outside_overrun s out off h = rw h

loop_overruns :
    (tree : Rx) (ng : ℕ) (r s : Bytes)
    → Matches s tree (length s) (length s)
    → (fuel off : ℕ) (out : Bytes) → off ≤ length s + 1
    → length s + 1 < off + fuel
    → preg_replace_loop tree ng r s fuel off out ≡ overrun
unfolding preg_replace_loop
loop_overruns tree ng r s at_end zero off out le lt = absurd (omega arith)
loop_overruns tree ng r s at_end (suc fuel) off out le lt =
    if_lem (λ x. x ≡ overrun) (leb off (length s))
      (λ inside.
        let within = leb→le off (length s) inside in
        after_search_lem (λ x. x ≡ overrun) (rx_search tree s off) _ (behind out (rest_of s off))
          (λ e.
            let nothing = subst (Leftmost s tree off) e (rx_search-Leftmost tree s off within) in
            absurd (nothing (length s) within (omega arith) (length s) at_end))
          (λ ms c e.
            let (from, begins, ends, _) = rx_search-SpansIn tree s off ms c within e in
            loop_overruns tree ng r s at_end fuel (next_off ms c.end) _ (ground arith)
              (ground arith)))
      (λ outside. outside_overrun s out off outside)

-- With an expression that matches the empty string at the end of the subject preg_replace always
-- copies from behind the end.
pub hpbi_preg_replace_overrun :
    (tree : Rx) (ng : ℕ) (r s : Bytes)
    → Matches s tree (length s) (length s)
    → hpbi_preg_replace tree ng r s ≡ overrun
unfolding hpbi_preg_replace
hpbi_preg_replace_overrun tree ng r s at_end =
    loop_overruns tree ng r s at_end (length s + 2) 0 [] (omega arith) (omega arith)
