-- ===== src/Sema/Returns.antt =====
-- stmt_chain_returns and fn_has_value_return of src/hphpc/sema.c: whether a body returns a value, from
-- which check_fn_body infers that a function without a written type returns mixed.
use holyphp.Prelude.{Bool, false, if◌then◌else◌, inl, inr, refl, true, ◌||◌, ◌≡◌, ◌⊎◌}

mutual
  -- Statements by what they hold; `simple` stands for those that hold no others. A switch has the
  -- bodies of its cases, a try its body, the bodies of its catches and its finally.
  pub data Stmt : Type 0 where
    ret : Bool → Stmt
    if_ : Stmts → Stmts → Stmt
    while_ do_ for_ foreach block unsafe : Stmts → Stmt
    try_ : Stmts → Bodies → Stmts → Stmt
    switch : Bodies → Stmt
    simple : Stmt

  pub data Stmts : Type 0 where
    done : Stmts
    then_ : Stmt → Stmts → Stmts

  pub data Bodies : Type 0 where
    no_more : Bodies
    body : Stmts → Bodies → Bodies

unfoldable mutual
  pub stmt_chain_returns : Stmt → Bool
  stmt_chain_returns (ret value) = value
  stmt_chain_returns (if_ t e) = any_returns t || any_returns e
  stmt_chain_returns (while_ b) = any_returns b
  stmt_chain_returns (do_ b) = any_returns b
  stmt_chain_returns (for_ b) = any_returns b
  stmt_chain_returns (foreach b) = any_returns b
  stmt_chain_returns (try_ b catches fin) = any_returns b
  stmt_chain_returns (block b) = any_returns b
  stmt_chain_returns (unsafe b) = false
  stmt_chain_returns (switch cases) = false
  stmt_chain_returns simple = false

  -- The loops over the statements of a body.
  pub any_returns : Stmts → Bool
  any_returns done = false
  any_returns (then_ s rest) = stmt_chain_returns s || any_returns rest

-- The type that check_fn_body gives a function: its own, or mixed, or none.
pub data Inferred : Type 0 where
  written mixed none_written : Inferred

unfoldable pub infer_return : Bool → Stmts → Inferred
unfolding any_returns
infer_return has_type b =
    if has_type then written else if any_returns b then mixed else none_written

mutual
  -- A statement holds a `return` with a value, at any depth.
  pub Returns : Stmt → Type 0
  Returns (ret value) = value ≡ true
  Returns (if_ t e) = SomeReturns t ⊎ SomeReturns e
  Returns (while_ b) = SomeReturns b
  Returns (do_ b) = SomeReturns b
  Returns (for_ b) = SomeReturns b
  Returns (foreach b) = SomeReturns b
  Returns (try_ b catches fin) = SomeReturns b ⊎ (BodyReturns catches ⊎ SomeReturns fin)
  Returns (block b) = SomeReturns b
  Returns (unsafe b) = SomeReturns b
  Returns (switch cases) = BodyReturns cases
  Returns simple = ⊥

  pub SomeReturns : Stmts → Type 0
  SomeReturns done = ⊥
  SomeReturns (then_ s rest) = Returns s ⊎ SomeReturns rest

  pub BodyReturns : Bodies → Type 0
  BodyReturns no_more = ⊥
  BodyReturns (body b rest) = SomeReturns b ⊎ BodyReturns rest

unfoldable mutual
  -- No switch and no unsafe block, and a try without catches and finally: what the loops walk.
  pub IsWalked : Stmt → Type 0
  IsWalked (ret value) = Unit
  IsWalked (if_ t e) = AreWalked t × AreWalked e
  IsWalked (while_ b) = AreWalked b
  IsWalked (do_ b) = AreWalked b
  IsWalked (for_ b) = AreWalked b
  IsWalked (foreach b) = AreWalked b
  IsWalked (try_ b no_more done) = AreWalked b
  IsWalked (try_ b catches fin) = ⊥
  IsWalked (block b) = AreWalked b
  IsWalked (unsafe b) = ⊥
  IsWalked (switch cases) = ⊥
  IsWalked simple = Unit

  pub AreWalked : Stmts → Type 0
  AreWalked done = Unit
  AreWalked (then_ s rest) = IsWalked s × AreWalked rest

or_split : (a b : Bool) → a || b ≡ true → (a ≡ true) ⊎ (b ≡ true)
or_split true b h = inl refl
or_split false b h = inr h

or_left : (a b : Bool) → a ≡ true → a || b ≡ true
or_left true b h = refl
or_left false b h = absurd (cc)

or_right : (a b : Bool) → b ≡ true → a || b ≡ true
or_right true b h = refl
or_right false b h = h

mutual
  unfolding stmt_chain_returns any_returns Returns SomeReturns

  sound : (s : Stmt) → stmt_chain_returns s ≡ true → Returns s
  sound (ret value) h = h
  sound (if_ t e) h = elim (or_split (any_returns t) (any_returns e) h) [
    | inl a ↦ inl (all_sound t a)
    | inr b ↦ inr (all_sound e b)
  ]
  sound (while_ b) h = all_sound b h
  sound (do_ b) h = all_sound b h
  sound (for_ b) h = all_sound b h
  sound (foreach b) h = all_sound b h
  sound (try_ b catches fin) h = inl (all_sound b h)
  sound (block b) h = all_sound b h
  sound (unsafe b) h = absurd (cc)
  sound (switch cases) h = absurd (cc)
  sound simple h = absurd (cc)

  all_sound : (b : Stmts) → any_returns b ≡ true → SomeReturns b
  all_sound done h = absurd (cc)
  all_sound (then_ s rest) h = elim (or_split (stmt_chain_returns s) (any_returns rest) h) [
    | inl a ↦ inl (sound s a)
    | inr b ↦ inr (all_sound rest b)
  ]

mutual
  unfolding stmt_chain_returns any_returns Returns SomeReturns BodyReturns IsWalked AreWalked

  complete : (s : Stmt) → IsWalked s → Returns s → stmt_chain_returns s ≡ true
  complete (ret value) w h = h
  complete (if_ t e) w (inl a) = or_left (any_returns t) (any_returns e) (all_complete t w.0 a)
  complete (if_ t e) w (inr b) = or_right (any_returns t) (any_returns e) (all_complete e w.1 b)
  complete (while_ b) w h = all_complete b w h
  complete (do_ b) w h = all_complete b w h
  complete (for_ b) w h = all_complete b w h
  complete (foreach b) w h = all_complete b w h
  complete (try_ b no_more done) w (inl a) = all_complete b w a
  complete (try_ b no_more done) w (inr (inl a)) = absurd a
  complete (try_ b no_more done) w (inr (inr a)) = absurd a
  complete (try_ b no_more (then_ s r)) w h = absurd w
  complete (try_ b (body c r) fin) w h = absurd w
  complete (block b) w h = all_complete b w h
  complete (unsafe b) w h = absurd w
  complete (switch cases) w h = absurd w
  complete simple w h = absurd h

  all_complete : (b : Stmts) → AreWalked b → SomeReturns b → any_returns b ≡ true
  all_complete done w h = absurd h
  all_complete (then_ s rest) w (inl a) =
      or_left (stmt_chain_returns s) (any_returns rest) (complete s w.0 a)
  all_complete (then_ s rest) w (inr b) =
      or_right (stmt_chain_returns s) (any_returns rest) (all_complete rest w.1 b)

-- What stmt_chain_returns finds is a `return` with a value inside the statement, and it finds every
-- one in a statement whose parts are all walked.
pub stmt_chain_returns-Returns :
    (s : Stmt)
    → (stmt_chain_returns s ≡ true → Returns s)
      × (IsWalked s → Returns s → stmt_chain_returns s ≡ true)
stmt_chain_returns-Returns s = (sound s, complete s)
