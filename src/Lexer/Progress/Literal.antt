-- ===== src/Lexer/Progress/Literal.antt =====
-- The loops over string literals and the operator switch of src/hphpc/lexer.c move the cursor forward.
use holyphp.Prelude.{
  ℕ, zero, suc, ◌+◌, ◌-◌, Bool, ◌||◌, ◌&&◌, [], ◌∷◌, ◌==◌, if◌then◌else◌, length, true, inl, inr,
  Bool-cases,
}
use holyphp.Lexer.Cursor.{Lexer, at, left, cur, peek, eof, next_line, next_col, adv}
use holyphp.Lexer.Quoted.{skip_quoted, skip_braces, skip_body, backslash, ident_start}
use holyphp.Lexer.Operator.{Choice, give, try, run}
use holyphp.Lexer.Progress.{Moves, Moves-refl, Moves-trans, adv-Moves}

pub skip_quoted-Moves : (q : ℕ) (lx : Lexer) → Moves lx (skip_quoted q lx)
unfolding skip_quoted adv
skip_quoted-Moves q (at [] i l k) = Moves-refl _
skip_quoted-Moves q (at (c ∷ []) i l k) =
    let lx = at (c ∷ []) i l k in
    elim (Bool-cases (c == q)) [
      | inl e ↦ rw e (Moves-refl _)
      | inr e ↦ elim (Bool-cases (c == backslash)) [
        | inl f ↦
            rw (e, f)
              (Moves-trans (adv-Moves lx)
                (adv-Moves (at [] (i + 1) (next_line c l) (next_col c k))))
        | inr f ↦ rw (e, f) (adv-Moves lx)
      ]
    ]
skip_quoted-Moves q (at (c ∷ d ∷ r) i l k) =
    let one = skip_quoted-Moves q (at (d ∷ r) (i + 1) (next_line c l) (next_col c k)) in
    let two =
      skip_quoted-Moves q
        (at r (i + 1 + 1) (next_line d (next_line c l)) (next_col d (next_col c k))) in
    elim (Bool-cases (c == q)) [
      | inl e ↦ rw e (Moves-refl _)
      | inr e ↦ elim (Bool-cases (c == backslash)) [
        | inl f ↦
            rw (e, f)
              (Moves-trans (adv-Moves (at (c ∷ d ∷ r) i l k))
                (Moves-trans (adv-Moves (at (d ∷ r) (i + 1) (next_line c l) (next_col c k))) two))
        | inr f ↦ rw (e, f) (Moves-trans (adv-Moves (at (c ∷ d ∷ r) i l k)) one)
      ]
    ]

pub skip_braces-Moves : (fuel depth : ℕ) (lx : Lexer) → Moves lx (skip_braces fuel depth lx)
unfolding skip_braces
skip_braces-Moves zero depth lx = Moves-refl lx
skip_braces-Moves (suc fuel) depth lx =
    let step = adv-Moves lx in
    elim (Bool-cases (eof lx)) [
      | inl e ↦ rw e (Moves-refl lx)
      | inr e ↦ elim (Bool-cases (cur lx == b'"' || cur lx == b'\'')) [
        | inl f ↦
            let inner = skip_quoted-Moves (cur lx) (adv lx) in
            rw (e, f)
              (Moves-trans step
                (Moves-trans inner (Moves-trans (adv-Moves _) (skip_braces-Moves fuel depth _))))
        | inr f ↦ elim (Bool-cases (cur lx == b'{')) [
          | inl g ↦ rw (e, f, g) (Moves-trans step (skip_braces-Moves fuel (depth + 1) _))
          | inr g ↦ elim (Bool-cases (cur lx == b'}')) [
            | inr h ↦ rw (e, f, g, h) (Moves-trans step (skip_braces-Moves fuel depth _))
            | inl h ↦ elim (Bool-cases (depth == 1)) [
              | inl w ↦ rw (e, f, g, h, w) (Moves-refl lx)
              | inr w ↦ rw (e, f, g, h, w) (Moves-trans step (skip_braces-Moves fuel (depth - 1) _))
            ]
          ]
        ]
      ]
    ]

escaped-Moves : (lx : Lexer) → Moves lx (if eof lx then lx else adv lx)
escaped-Moves lx = elim (Bool-cases (eof lx)) [
  | inl e ↦ rw e (Moves-refl lx)
  | inr e ↦ rw e (adv-Moves lx)
]

pub skip_body-Moves : (fuel : ℕ) (b : Bool) (lx : Lexer) → Moves lx (skip_body fuel b lx).1
unfolding skip_body
skip_body-Moves zero b lx = Moves-refl lx
skip_body-Moves (suc fuel) b lx =
    let step = adv-Moves lx in
    let next = adv lx in
    elim (Bool-cases (eof lx || cur lx == b'"')) [
      | inl e ↦ rw e (Moves-refl lx)
      | inr e ↦ elim (Bool-cases (cur lx == backslash)) [
        | inl f ↦
            rw (e, f)
              (Moves-trans step (Moves-trans (escaped-Moves next) (skip_body-Moves fuel b _)))
        | inr f ↦ elim (Bool-cases (cur lx == b'{' && peek lx 1 == b'$')) [
          | inl g ↦
              let inner = skip_braces-Moves (suc (length (left next))) 1 next in
              rw (e, f, g)
                (Moves-trans step
                  (Moves-trans inner (Moves-trans (adv-Moves _) (skip_body-Moves fuel true _))))
          | inr g ↦ elim (Bool-cases (cur lx == b'$' && ident_start (peek lx 1))) [
            | inl h ↦ rw (e, f, g, h) (Moves-trans step (skip_body-Moves fuel true _))
            | inr h ↦ rw (e, f, g, h) (Moves-trans step (skip_body-Moves fuel b _))
          ]
        ]
      ]
    ]

pub run-Moves : (h : Choice) (lx : Lexer) → Moves lx (run h lx).1
unfolding run
run-Moves (give k) lx = Moves-refl lx
run-Moves (try c a b) lx =
    let hit = run-Moves a (adv lx) in
    let miss = run-Moves b lx in
    elim (Bool-cases (cur lx == c)) [
      | inl e ↦ rw e (Moves-trans (adv-Moves lx) hit)
      | inr e ↦ rw e miss
    ]
