-- ===== src/Runtime/Regex/Tests.antt =====
-- Runs and examples of the regular expressions of src/hphpc/runtime/hphp_std.c.
use holyphp.Prelude.{
  Bytes, List, Option, [], arith, codes, false, none, refl, replicate, set, some, true, ℕ, ◌∷◌, ◌≡◌,
  ◌≤◌,
}
use holyphp.Runtime.Regex.{
  Rx, alt, bow, branch, char, done, fail, group, item, no_match, one, rep, rx_k_done, rx_k_group,
  rx_m, rx_m_rep_at, rx_run, rx_search, seq,
}
use holyphp.Runtime.Regex.Meaning.{Matches}
use holyphp.Runtime.Regex.Search.{Leftmost, rx_search-Leftmost, rx_search-SpansIn}
use holyphp.Runtime.Regex.Spans.{SpansIn}
use holyphp.Runtime.Regex.Fails.{FailsClean, rx_m-clean}
use holyphp.Runtime.Regex.Parse.{Flags, rx_parse_alt, rx_split_pattern}
use holyphp.Runtime.Regex.Parse.Pieces.{Leaves}
use holyphp.Runtime.Regex.Parse.Total.{rx_parse_alt-Leaves}
use holyphp.Runtime.Regex.Preg.{
  CopyOutcome, hpbi_preg_replace, hpbi_preg_split, overrun, rx_all_matches, rx_first_match,
}
use holyphp.Runtime.Regex.Preg.Split.{Cuts, hpbi_preg_split-Cuts}
use holyphp.Runtime.Regex.Preg.Replace.{hpbi_preg_replace_overrun}

-- a(b|c)*d
abbrev tree : Rx
tree = seq (
    item (char b'a' false) (
      item
        (rep false 0 none (
          group 1 (
            item
              (alt
                (branch (item (char b'b' false) done) (branch (item (char b'c' false) done) fail)))
              done)))
        (item (char b'd' false) done)))

abbrev comma : Rx
comma = char b',' false

abbrev star_x : Rx
star_x = rep false 0 none (char b'x' false)

abbrev run_of : Bytes → Bytes → Option (List Bytes)
run_of pat s = elim (rx_split_pattern pat) [ none ↦ none | some (t, ng) ↦ rx_first_match t ng s ]

groups_captured :
    run_of (codes "/a(b|c)*(d)/") (codes "xxabcbd")
    ≡ some (codes "abcbd" ∷ codes "b" ∷ codes "d" ∷ [])
unfolding rx_split_pattern rx_first_match rx_search rx_run rx_m one rx_m_rep_at rx_k_group rx_k_done
groups_captured = refl

lazy_and_counted :
    run_of (codes "#<\\w{2,3}?>|[^a-c]+?d#i") (codes "abcXYDz") ≡ some (codes "XYD" ∷ [])
unfolding rx_split_pattern rx_first_match rx_search rx_run rx_m one rx_m_rep_at rx_k_group rx_k_done
lazy_and_counted = refl

unclosed_group : rx_split_pattern (codes "/a(b/") ≡ none
unfolding rx_split_pattern
unclosed_group = refl

-- A bare pattern that begins with a bracket loses it: the bracket is taken for a delimiter.
bare_class : run_of (codes "[b-d]x") (codes "cx") ≡ none
unfolding rx_split_pattern rx_first_match rx_search rx_run rx_m one rx_m_rep_at rx_k_group rx_k_done
bare_class = refl

replaced : hpbi_preg_replace comma 0 (codes "<$0>") (codes "a,b") ≡ CopyOutcome.ok (codes "a<,>b")
unfolding hpbi_preg_replace rx_search rx_run rx_m one rx_k_done
replaced = refl

-- An empty match in the middle swallows the byte behind it.
pieces_lost : hpbi_preg_split bow (codes "ab") ≡ overrun
unfolding hpbi_preg_split rx_search rx_run rx_m rx_k_done
pieces_lost = refl

columns :
    rx_all_matches (char b'a' true) 0 (codes "abA")
    ≡ CopyOutcome.ok ((codes "a" ∷ codes "A" ∷ []) ∷ [])
unfolding rx_all_matches rx_search rx_run rx_m one rx_k_done
columns = refl

rx_search-Leftmost_example : Leftmost (codes "xxabcbd") tree 1 (rx_search tree (codes "xxabcbd") 1)
rx_search-Leftmost_example = rx_search-Leftmost tree (codes "xxabcbd") 1 (omega arith)

found_at_two :
    rx_search tree (codes "xxabd") 0
    ≡ some (2, record { caps = set (replicate 32 none) 1 (some (3, 4)); end = 5 })
unfolding rx_search rx_run rx_m one rx_m_rep_at rx_k_group rx_k_done
found_at_two = refl

rx_search-SpansIn_example :
    (0 ≤ 2)
    × (2 ≤ 5)
    × (5 ≤ 5)
    × SpansIn (codes "xxabd") (record { caps = set (replicate 32 none) 1 (some (3, 4)); end = 5 })
rx_search-SpansIn_example =
    rx_search-SpansIn tree (codes "xxabd") 0 2
      (record { caps = set (replicate 32 none) 1 (some (3, 4)); end = 5 }) (omega arith)
      found_at_two

done_clean : FailsClean rx_k_done
unfolding rx_k_done
done_clean p d h = absurd (cc)

no_d : (rx_m (codes "abc") tree 0 no_match rx_k_done).0 ≡ false
unfolding rx_m one rx_m_rep_at rx_k_group rx_k_done
no_d = refl

rx_m-clean_example : (rx_m (codes "abc") tree 0 no_match rx_k_done).1 ≡ no_match
rx_m-clean_example = rx_m-clean (codes "abc") tree 0 no_match rx_k_done done_clean no_d

comma_reads : (p : ℕ) → ¬ (Matches (codes "a,b") comma p p)
unfolding Matches
comma_reads p (short, passes, same) = absurd (omega arith)

hpbi_preg_split-Cuts_example :
    (cuts : List Bytes) × (hpbi_preg_split comma (codes "a,b") ≡ CopyOutcome.ok cuts)
    × Cuts (codes "a,b") comma 0 cuts
hpbi_preg_split-Cuts_example = hpbi_preg_split-Cuts comma (codes "a,b") comma_reads

star_at_end : Matches (codes "abc") star_x 3 3
unfolding Matches
star_at_end = (0, omega arith, tt, refl)

hpbi_preg_replace_overrun_example : hpbi_preg_replace star_x 0 (codes "-") (codes "abc") ≡ overrun
hpbi_preg_replace_overrun_example =
    hpbi_preg_replace_overrun star_x 0 (codes "-") (codes "abc") star_at_end

abbrev plain_flags : Flags
plain_flags = record { ci = false; dotall = false; multiline = false }

rx_parse_alt-Leaves_example : Leaves 6 (rx_parse_alt 7 plain_flags (codes "(a|b)*") 0)
rx_parse_alt-Leaves_example = rx_parse_alt-Leaves plain_flags (codes "(a|b)*") 0
