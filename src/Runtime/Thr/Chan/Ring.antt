-- ===== src/Runtime/Thr/Chan/Ring.antt =====
-- The ring of a channel of src/hphpc/runtime/hphp_thr.c as a list: what is in it, and what `chan_put` and
-- `chan_advance` do to that.
use holyphp.Prelude.{
  List, [], ap, arith, dec_lt, get_or, if◌then◌else◌, length, ltb, refl, set, suc, zero, ℕ, ◌++◌,
  ◌+◌, ◌-◌, ◌<◌, ◌∙◌, ◌∷◌, ◌≡◌, ◌≢◌, ◌≤◌,
}
use holyphp.Runtime.Value.{Hval, null}
use holyphp.Runtime.Thr.Chan.{next_pos}
use native.Mathlib.Nat.{mod-eq_of_lt, mod_self}

-- The index of the element `k` of a ring of `n` slots whose head is `h`.
abbrev pub ring_pos : ℕ → ℕ → ℕ → ℕ
ring_pos n h k = if ltb (h + k) n then h + k else h + k - n

-- `k` elements from the head on.
unfoldable pub ring_items : {D : Type 0} → ℕ → List (Hval D) → ℕ → ℕ → List (Hval D)
ring_items n b h zero = []
ring_items n b h (suc k) = get_or b h null ∷ ring_items n b (next_pos n h) k

-- Without `%`: `omega` does not read a remainder by a variable.
next_pos_lem : (n i : ℕ) → i < n → next_pos n i ≡ (if ltb (suc i) n then suc i else 0)
next_pos_lem n i h = elim (dec_lt (suc i) n) [
  | yes l ↦ ground (arith, mod-eq_of_lt {n = i + 1} {m = n})
  | no g ↦ (let same : n ≡ i + 1 = omega arith in ground (arith, mod_self (i + 1)))
]

pub next_pos-lt : (n i : ℕ) → i < n → next_pos n i < n
next_pos-lt n i h = ground (arith, next_pos_lem n i)

pub next_pos-ring_pos :
    (n h k : ℕ) → h < n → k < n → next_pos n (ring_pos n h k) ≡ ring_pos n h (suc k)
next_pos-ring_pos n h k hn kn = ground (arith, next_pos_lem n (ring_pos n h k))

pub ring_pos-next_pos :
    (n h k : ℕ) → h < n → k < n → ring_pos n (next_pos n h) k ≡ ring_pos n h (suc k)
ring_pos-next_pos n h k hn kn = ground (arith, next_pos_lem n h)

module _ {D : Type 0} where
  get_or-set_self :
      (b : List (Hval D)) (i : ℕ) (v d : Hval D) → i < length b → get_or (set b i v) i d ≡ v
  get_or-set_self [] i v d h = elim h [ ]
  get_or-set_self (x ∷ b) zero v d h = refl
  get_or-set_self (x ∷ b) (suc i) v d h = get_or-set_self b i v d (omega arith)

  get_or-set_ne :
      (b : List (Hval D)) (i j : ℕ) (v d : Hval D) → i ≢ j → get_or (set b i v) j d ≡ get_or b j d
  get_or-set_ne [] i j v d h = refl
  get_or-set_ne (x ∷ b) zero zero v d h = absurd (h refl)
  get_or-set_ne (x ∷ b) zero (suc j) v d h = refl
  get_or-set_ne (x ∷ b) (suc i) zero v d h = refl
  get_or-set_ne (x ∷ b) (suc i) (suc j) v d h = get_or-set_ne b i j v d (λ e. h (ap suc e))

  -- A write behind the elements does not change them.
  ring_items-set :
      (n : ℕ) (b : List (Hval D)) (h k d p : ℕ) (v : Hval D)
      → h < n
      → k ≤ d
      → d < n
      → p ≡ ring_pos n h d
      → ring_items n (set b p v) h k ≡ ring_items n b h k
  unfolding ring_items
  ring_items-set n b h zero d p v hn kd dn e = refl
  ring_items-set n b h (suc k) zero p v hn kd dn e = elim kd [ ]
  ring_items-set n b h (suc k) (suc d) p v hn kd dn e =
      let e' : p ≡ ring_pos n (next_pos n h) d = cc (ring_pos-next_pos n h d hn (omega arith)) in
      rw (
        get_or-set_ne b p h v null (ground arith),
        ring_items-set n b (next_pos n h) k d p v (next_pos-lt n h hn) (omega arith) (omega arith)
            e',
      )

  ring_items_last :
      (n : ℕ) (b : List (Hval D)) (h k : ℕ)
      → h < n
      → k < n
      → ring_items n b h (suc k) ≡ ring_items n b h k ++ get_or b (ring_pos n h k) null ∷ []
  unfolding ring_items
  ring_items_last n b h zero hn kn = ground arith
  ring_items_last n b h (suc k) hn kn = rw (
    ring_items_last n b (next_pos n h) k (next_pos-lt n h hn) (omega arith),
    ring_pos-next_pos n h k hn (omega arith),
  )

  -- A write at the tail adds an element at the end.
  pub ring_items_put :
      (n : ℕ) (b : List (Hval D)) (h k : ℕ) (v : Hval D)
      → length b ≡ n
      → h < n
      → k < n
      → ring_items n (set b (ring_pos n h k) v) h (suc k) ≡ ring_items n b h k ++ v ∷ []
  ring_items_put n b h k v e hn kn =
      let room : ring_pos n h k < length b = ground arith in
      rw (
        ring_items_last n (set b (ring_pos n h k) v) h k hn kn,
        ring_items-set n b h k k (ring_pos n h k) v hn (omega arith) kn refl,
        get_or-set_self b (ring_pos n h k) v null room,
      )

  pub length-ring_items : (n : ℕ) (b : List (Hval D)) (h k : ℕ) → length (ring_items n b h k) ≡ k
  unfolding ring_items
  length-ring_items n b h zero = refl
  length-ring_items n b h (suc k) = ap suc (length-ring_items n b (next_pos n h) k)

  pub ring_items-set_tail :
      (n : ℕ) (b : List (Hval D)) (h k p m : ℕ) (v : Hval D)
      → length b ≡ n
      → h < n
      → k < n
      → p ≡ ring_pos n h k
      → m ≡ suc k
      → ring_items n (set b p v) h m ≡ ring_items n b h k ++ v ∷ []
  ring_items-set_tail n b h k p m v e hn kn ep em =
      ap (λ i. ring_items n (set b i v) h m) ep
      ∙ ap (ring_items n (set b (ring_pos n h k) v) h) em
      ∙ ring_items_put n b h k v e hn kn

  pub ring_items_first :
      (n : ℕ) (b : List (Hval D)) (h k : ℕ)
      → 0 < k
      → ring_items n b h k ≡ get_or b h null ∷ ring_items n b (next_pos n h) (k - 1)
  unfolding ring_items
  ring_items_first n b h zero l = elim l [ ]
  ring_items_first n b h (suc k) l =
      ap (λ j. get_or b h null ∷ ring_items n b (next_pos n h) j) (omega arith)
