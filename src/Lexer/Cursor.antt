-- ===== src/Lexer/Cursor.antt =====
-- The cursor of src/hphpc/lexer.c: `Lexer` with `peek`, `cur`, `eof`, `adv`, `matchc`, `set_text`.
-- `src + pos` is the list of the bytes that are left, so `len - pos` is its length. A read at or past
-- the end gives the terminating NUL; `adv` there still moves `pos` and `col`, as the source does
-- (it does not test for the end, so that `pos` can run past `len`).
use holyphp.Prelude.{
  ℕ, ◌+◌, ◌-◌, Bool, true, false, Bytes, [], ◌∷◌, ◌==◌, if◌then◌else◌, get_or, take,
}

pub data Lexer : Type 0 where
  at : (left : Bytes) (pos line col : ℕ) → Lexer

abbrev pub left : Lexer → Bytes
left (at r p l k) = r

abbrev pub pos : Lexer → ℕ
pos (at r p l k) = p

abbrev pub line : Lexer → ℕ
line (at r p l k) = l

abbrev pub col : Lexer → ℕ
col (at r p l k) = k

abbrev pub newline : ℕ
newline = 10

-- The source up to its first NUL, which is what `strlen` measures.
unfoldable pub c_string : Bytes → Bytes
c_string [] = []
c_string (c ∷ s) = if c == 0 then [] else c ∷ c_string s

unfoldable pub lex_init : Bytes → Lexer
unfolding c_string
lex_init src = at (c_string src) 0 1 0

abbrev pub peek : Lexer → ℕ → ℕ
peek lx off = get_or (left lx) off 0

abbrev pub cur : Lexer → ℕ
cur lx = peek lx 0

abbrev pub eof : Lexer → Bool
eof (at [] p l k) = true
eof (at (c ∷ r) p l k) = false

-- What `adv` does to the line and the column at a byte.
abbrev pub next_line : ℕ → ℕ → ℕ
next_line c l = if c == newline then l + 1 else l

abbrev pub next_col : ℕ → ℕ → ℕ
next_col c k = if c == newline then 1 else k + 1

unfoldable pub adv : Lexer → Lexer
adv (at [] p l k) = at [] (p + 1) l (k + 1)
adv (at (c ∷ r) p l k) = at r (p + 1) (next_line c l) (next_col c k)

unfoldable pub matchc : Lexer → ℕ → Bool × Lexer
unfolding adv
matchc lx c = if cur lx == c then (true, adv lx) else (false, lx)

-- The text between two positions of the cursor.
unfoldable pub text_between : Lexer → Lexer → Bytes
text_between start stop = take (pos stop - pos start) (left start)

-- `while (p(cur(lx))) adv(lx)`, for a test that fails at NUL.
unfoldable pub adv_while : (ℕ → Bool) → Lexer → Lexer
adv_while p (at [] i l k) = at [] i l k
adv_while p (at (c ∷ r) i l k) =
    let rest = adv_while p (at r (i + 1) (next_line c l) (next_col c k)) in
    if p c then rest else at (c ∷ r) i l k
