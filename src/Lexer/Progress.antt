-- ===== src/Lexer/Progress.antt =====
-- Where a cursor of src/hphpc/lexer.c stands in its source, and that every function that moves it
-- keeps that: `pos` and `left` agree, `line` counts the newlines before `pos`, and no byte comes back.
pub mod Scan
pub mod Literal
pub mod Next
use holyphp.Prelude.{
  ℕ, zero, suc, ◌+◌, ◌≤◌, ◌<◌, ◌≡◌, Bytes, [], ◌∷◌, ◌==◌, if◌then◌else◌, length, take, drop, arith,
}
use holyphp.Lexer.Cursor.{Lexer, at, left, pos, line, newline, adv}

abbrev pub newlines : Bytes → ℕ
newlines [] = 0
newlines (c ∷ s) = (if c == newline then 1 else 0) + newlines s

pub record Tracks (src : Bytes) (lx : Lexer) : Type 0 where
  pub here : left lx ≡ drop (pos lx) src
  pub lines : line lx ≡ 1 + newlines (take (pos lx) src)

drop_next :
    (p : ℕ) (src : Bytes) (c : ℕ) (r : Bytes)
    → c ∷ r ≡ drop p src
    → (r ≡ drop (p + 1) src)
      × (newlines (take (p + 1) src) ≡ newlines (take p src) + (if c == newline then 1 else 0))
drop_next zero [] c r h = ground arith
drop_next zero (d ∷ src) c r h = ground arith
drop_next (suc p) [] c r h = ground arith
drop_next (suc p) (d ∷ src) c r h = ground (arith, drop_next p src c r)

drop_end :
    (p : ℕ) (src : Bytes)
    → [] ≡ drop p src
    → ([] ≡ drop (p + 1) src) × (newlines (take (p + 1) src) ≡ newlines (take p src))
drop_end zero [] h = ground arith
drop_end zero (d ∷ src) h = ground arith
drop_end (suc p) [] h = ground arith
drop_end (suc p) (d ∷ src) h = ground (arith, drop_end p src)

-- `b` stands where `a` does or further on.
pub record Moves (a b : Lexer) : Type 0 where
  pub keeps : (src : Bytes) → Tracks src a → Tracks src b
  pub shrinks : length (left b) ≤ length (left a)

pub Moves-refl : (a : Lexer) → Moves a a
Moves-refl a = record { keeps = λ src t. t; shrinks = omega arith }

pub Moves-trans : {a b c : Lexer} → Moves a b → Moves b c → Moves a c
Moves-trans m n = record {
  keeps = λ src t. n.keeps src (m.keeps src t);
  shrinks = omega (arith, m.shrinks, n.shrinks);
}

pub adv-Moves : (lx : Lexer) → Moves lx (adv lx)
unfolding adv
adv-Moves (at [] p l k) = record {
  keeps = λ src t.
      let e = drop_end p src t.here in record { here = e.0; lines = omega (arith, t.lines, e.1) };
  shrinks = omega arith;
}
adv-Moves (at (c ∷ r) p l k) = record {
  keeps = λ src t.
      let e = drop_next p src c r t.here in
      record { here = e.0; lines = ground (arith, t.lines, e.1) };
  shrinks = omega arith;
}

-- A byte that is left is consumed.
pub adv_shrinks :
    (lx : Lexer) → 0 < length (left lx) → length (left (adv lx)) + 1 ≡ length (left lx)
unfolding adv
adv_shrinks (at [] p l k) h = ground arith
adv_shrinks (at (c ∷ r) p l k) h = omega arith
