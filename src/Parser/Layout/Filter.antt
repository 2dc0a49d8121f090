-- ===== src/Parser/Layout/Filter.antt =====
-- The newline filter of `lex_all` of src/hphpc/parser.c against the tokens that are no newlines.
use holyphp.Prelude.{
  Bool-cases, List, [], ap, arith, false, if◌then◌else◌, inl, inr, refl, true, ◌∷◌, ◌≡◌,
}
use holyphp.Lexer.Token.{TokKind, Token, t_newline}
use holyphp.Parser.Layout.{Bracket, is_newline, layout, next_kind, swallowed, track}

-- The tokens that are no newlines.
unfoldable pub without_newlines : List Token → List Token
without_newlines [] = []
without_newlines (t ∷ ts) =
    if is_newline t.kind then without_newlines ts else t ∷ without_newlines ts

-- The filter swallows newlines only: the other tokens come out in their order, whatever brackets are
-- open and whatever came before.
pub without_newlines-layout :
    (st : List Bracket) (prev : TokKind) (ts : List Token)
    → without_newlines (layout st prev ts) ≡ without_newlines ts
unfolding without_newlines layout
without_newlines-layout st prev [] = refl
without_newlines-layout st prev (t ∷ ts) =
    let st' = track t.kind st in
    elim (Bool-cases (is_newline t.kind)) [
      | inr e ↦ rw (e, e) (ap (λ r. t ∷ r) (without_newlines-layout st' t.kind ts))
      | inl e ↦ elim (Bool-cases (swallowed st' prev ts)) [
        | inl f ↦ rw (e, f) (without_newlines-layout st' prev ts)
        | inr f ↦ rw (e, f, e) (without_newlines-layout st' t_newline ts)
      ]
    ]

next_kind-layout :
    (st : List Bracket) (prev : TokKind) (ts : List Token)
    → next_kind (layout st prev ts) ≡ next_kind ts
unfolding next_kind layout
next_kind-layout st prev [] = refl
next_kind-layout st prev (t ∷ ts) =
    let st' = track t.kind st in
    elim (Bool-cases (is_newline t.kind)) [
      | inr e ↦ rw (e, e)
      | inl e ↦ elim (Bool-cases (swallowed st' prev ts)) [
        | inl f ↦ rw (e, f) (next_kind-layout st' prev ts)
        | inr f ↦ rw (e, f, e) (next_kind-layout st' t_newline ts)
      ]
    ]

track-newline : (k : TokKind) (st : List Bracket) → is_newline k ≡ true → track k st ≡ st
unfolding track is_newline
track-newline k st h = ground arith

-- One token at the head, when it is no newline, or a newline that is kept or swallowed.
module _ (st : List Bracket) (prev : TokKind) (t : Token) (ts : List Token) where
  layout-token :
      is_newline t.kind ≡ false → layout st prev (t ∷ ts) ≡ t ∷ layout (track t.kind st) t.kind ts
  unfolding layout
  layout-token e = rw e

  layout-swallow :
      is_newline t.kind ≡ true
      → swallowed (track t.kind st) prev ts ≡ true
      → layout st prev (t ∷ ts) ≡ layout (track t.kind st) prev ts
  unfolding layout
  layout-swallow e f = rw (e, f)

  layout-keep :
      is_newline t.kind ≡ true
      → swallowed (track t.kind st) prev ts ≡ false
      → layout st prev (t ∷ ts) ≡ t ∷ layout (track t.kind st) t_newline ts
  unfolding layout
  layout-keep e f = rw (e, f)

-- Filtering is idempotent: a newline that was kept is kept again.
pub layout_idem :
    (st : List Bracket) (prev : TokKind) (ts : List Token)
    → layout st prev (layout st prev ts) ≡ layout st prev ts
layout_idem st prev [] = unfold layout in refl
layout_idem st prev (t ∷ ts) =
    let st' = track t.kind st in
    let kept : swallowed st' prev ts ≡ false
        → swallowed st' prev (layout st' t_newline ts) ≡ false =
      λ f. rw next_kind-layout f in
    elim (Bool-cases (is_newline t.kind)) [
      | inr e ↦
          rw (layout-token st prev t ts e, layout-token st prev t _ e)
            (ap (λ r. t ∷ r) (layout_idem st' t.kind ts))
      | inl e ↦ elim (Bool-cases (swallowed st' prev ts)) [
        | inl f ↦
            rw (layout-swallow st prev t ts e f, track-newline t.kind st e) (layout_idem st prev ts)
        | inr f ↦
            rw
              (
                layout-keep st prev t ts e f,
                layout-keep st prev t (layout st' t_newline ts) e (kept f),
              )
              (ap (λ r. t ∷ r) (layout_idem st' t_newline ts))
      ]
    ]
