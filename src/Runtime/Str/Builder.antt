-- ===== src/Runtime/Str/Builder.antt =====
-- `hp_str_concat2` of src/hphpc/runtime/hphp_rt.c, which appends in place where the left string has a
-- single owner and room. The strings live in a store, so that sharing can be seen: an address is a
-- position in the list, and a new object stands at its end.
use holyphp.Prelude.{
  Bool, Bool-cases, Bytes, List, Option, [], arith, false, get_elem?, get_elem?-set_ne,
  get_elem?-set_self, if◌then◌else◌, inl, inr, length, length-append, ltb, refl, set, some, suc,
  sym, true, zero, ℕ, ◌&&◌, ◌*◌, ◌++◌, ◌+◌, ◌<◌, ◌==◌, ◌>>=◌, ◌∷◌, ◌≡◌, ◌≢◌,
}

-- `struct hstr`: `cap` counts the bytes of the buffer with the final NUL.
pub record StrObj : Type 0 where
  pub bytes : Bytes
  pub cap : ℕ
  pub hash : ℕ
  pub rc : ℕ

abbrev pub Store : Type 0
Store = List StrObj

unfoldable pub hp_str_new : Bytes → StrObj
hp_str_new s = record { bytes = s; cap = length s + 1; hash = 0; rc = 1 }

-- Whether the left string can take `n` bytes in all.
abbrev pub has_room : StrObj → ℕ → Bool
has_room a n = a.rc == 1 && (ltb (length a.bytes) a.cap && ltb n a.cap)

abbrev pub joined : StrObj → StrObj → StrObj
joined a b = record {
  bytes = a.bytes ++ b.bytes;
  cap =
      if a.rc == 1
      then (length a.bytes + length b.bytes) * 2 + 16
      else length a.bytes + length b.bytes + 1;
  hash = 0;
  rc = 1;
}

-- The new store and the address of the result; `none` is a dangling pointer.
unfoldable pub hp_str_concat2 : Store → ℕ → ℕ → Option (Store × ℕ)
hp_str_concat2 h x y = do
  a ← get_elem? h x
  b ← get_elem? h y
  (if has_room a (length a.bytes + length b.bytes)
      then some (set h x (record a { bytes = a.bytes ++ b.bytes; hash = 0 }), x)
      else some (h ++ joined a b ∷ [], length h))

get_elem?-append_left :
    (h : Store) (o : StrObj) (z : ℕ) → z < length h → get_elem? (h ++ o ∷ []) z ≡ get_elem? h z
get_elem?-append_left [] o z lt = elim lt [ ]
get_elem?-append_left (p ∷ h) o zero lt = refl
get_elem?-append_left (p ∷ h) o (suc z) lt = get_elem?-append_left h o z (omega arith)

get_elem?-append_last : (h : Store) (o : StrObj) → get_elem? (h ++ o ∷ []) (length h) ≡ some o
get_elem?-append_last [] o = refl
get_elem?-append_last (p ∷ h) o = get_elem?-append_last h o

lt_of_get : {o : StrObj} (h : Store) (x : ℕ) → get_elem? h x ≡ some o → x < length h
lt_of_get [] x e = absurd (cc)
lt_of_get (p ∷ h) zero e = omega arith
lt_of_get (p ∷ h) (suc x) e = omega (arith, lt_of_get h x e)

-- What a call did: the result `r` of the call in the new store `h'`.
pub record Joins (h : Store) (x : ℕ) (a b : StrObj) (h' : Store) (r : ℕ) : Type 0 where
  pub result :
      (o : StrObj) × (get_elem? h' r ≡ some o)
      × (o.bytes ≡ a.bytes ++ b.bytes)
      × (o.rc ≡ 1)
      × (length o.bytes < o.cap)
  pub frame : (z : ℕ) → z < length h → z ≢ x → get_elem? h' z ≡ get_elem? h z

module _ (h : Store) (x y : ℕ) (a b : StrObj) where
  in_place : Store
  in_place = set h x (record a { bytes = a.bytes ++ b.bytes; hash = 0 })

  concat2_in_place :
      get_elem? h x ≡ some a
      → get_elem? h y ≡ some b
      → has_room a (length a.bytes + length b.bytes) ≡ true
      → hp_str_concat2 h x y ≡ some (in_place, x)
  unfolding hp_str_concat2 in_place
  concat2_in_place ha hb room = rw (ha, ◌>>=◌, hb, ◌>>=◌, room)

  concat2_copy :
      get_elem? h x ≡ some a
      → get_elem? h y ≡ some b
      → has_room a (length a.bytes + length b.bytes) ≡ false
      → hp_str_concat2 h x y ≡ some (h ++ joined a b ∷ [], length h)
  unfolding hp_str_concat2
  concat2_copy ha hb room = rw (ha, ◌>>=◌, hb, ◌>>=◌, room)

  in_place-Joins :
      get_elem? h x ≡ some a
      → has_room a (length a.bytes + length b.bytes) ≡ true
      → Joins h x a b in_place x
  unfolding in_place
  in_place-Joins ha room = record {
    result = (
      record a { bytes = a.bytes ++ b.bytes; hash = 0 },
      get_elem?-set_self h x _ (lt_of_get h x ha),
      refl,
      ground arith,
      rw length-append (ground arith),
    );
    frame = λ z lt ne. get_elem?-set_ne h _ (λ e. ne (sym e));
  }

  copy-Joins : Joins h x a b (h ++ joined a b ∷ []) (length h)
  copy-Joins = record {
    result = (
      joined a b,
      get_elem?-append_last h (joined a b),
      refl,
      refl,
      rw length-append (ground arith),
    );
    frame = λ z lt ne. get_elem?-append_left h (joined a b) z lt;
  }

  -- For two live strings `hp_str_concat2` returns a live string with the bytes of the left and then
  -- those of the right, with one owner and room for the NUL, and no object but the left operand changes.
  pub hp_str_concat2-Joins :
      get_elem? h x ≡ some a
      → get_elem? h y ≡ some b
      → (h' : Store) × (r : ℕ) × (hp_str_concat2 h x y ≡ some (h', r)) × Joins h x a b h' r
  hp_str_concat2-Joins ha hb = elim (Bool-cases (has_room a (length a.bytes + length b.bytes))) [
    | inl room ↦ (in_place, x, concat2_in_place ha hb room, in_place-Joins ha room)
    | inr room ↦ (h ++ joined a b ∷ [], length h, concat2_copy ha hb room, copy-Joins)
  ]
