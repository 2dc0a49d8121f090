-- ===== src/Runtime/Std/Text/Wrap.antt =====
-- `hpbi_wordwrap`, `hpbi_substr_count` and `hp_ct_eq` of src/hphpc/runtime/hphp_std.c.
use Prim.Native.Nat.{bit_xor, bit_or}
use holyphp.Prelude.{
  Bool, Bytes, [], drop, if◌then◌else◌, length, ltb, suc, zero, ℕ, ◌&&◌, ◌++◌, ◌+◌, ◌==◌, ◌∷◌,
}
use holyphp.Runtime.Str.{is_prefix}

-- The pending word goes out behind a line break or a blank; the result is the output and the line's length.
unfoldable pub flush_word : ℕ → Bytes → ℕ → Bytes → Bytes × ℕ
flush_word width out line [] = (out, line)
flush_word width out line (c ∷ word) =
    let n = length (c ∷ word) in
    if ltb 0 line && ltb width (line + 1 + n)
    then (out ++ b'\n' ∷ c ∷ word, n)
    else if ltb 0 line
    then (out ++ b' ' ∷ c ∷ word, line + 1 + n)
    else (out ++ c ∷ word, line + n)

-- The loop over the bytes; behind the last one a blank flushes the word.
unfoldable pub wordwrap_loop : ℕ → Bytes → ℕ → Bytes → Bytes → Bytes
unfolding flush_word
wordwrap_loop width out line word [] = (flush_word width out line word).0
wordwrap_loop width out line word (c ∷ s) =
    let (out', line') = flush_word width out line word in
    let broken = wordwrap_loop width (out' ++ b'\n' ∷ []) 0 [] s in
    let blank = wordwrap_loop width out' line' [] s in
    let longer = wordwrap_loop width out line (word ++ c ∷ []) s in
    if c == b'\n' then broken else if c == b' ' then blank else longer

-- A width of 0 leaves the string as it is.
unfoldable pub hpbi_wordwrap : Bytes → ℕ → Bytes
unfolding wordwrap_loop
hpbi_wordwrap s zero = s
hpbi_wordwrap s (suc w) = wordwrap_loop (suc w) [] 0 [] s

-- The loop of `hpbi_substr_count`; a hit is skipped as a whole.
unfoldable pub count_loop : ℕ → Bytes → Bytes → ℕ
unfolding is_prefix
count_loop zero s n = 0
count_loop (suc fuel) [] n = 0
count_loop (suc fuel) (c ∷ s) n =
    let hit = suc (count_loop fuel (drop (length n) (c ∷ s)) n) in
    let miss = count_loop fuel s n in if is_prefix n (c ∷ s) then hit else miss

unfoldable pub hpbi_substr_count : Bytes → Bytes → ℕ
unfolding count_loop
hpbi_substr_count s [] = 0
hpbi_substr_count s (c ∷ n) = count_loop (length s) s (c ∷ n)

-- The loop of `hp_ct_eq` over two buffers of one length.
unfoldable pub ct_diff : ℕ → Bytes → Bytes → ℕ
ct_diff d (a ∷ s) (b ∷ t) = ct_diff (bit_or d (bit_xor a b)) s t
ct_diff d s t = d

unfoldable pub hp_ct_eq : Bytes → Bytes → Bool
unfolding ct_diff
hp_ct_eq s t = ct_diff 0 s t == 0
