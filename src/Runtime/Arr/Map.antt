-- ===== src/Runtime/Arr/Map.antt =====
-- `hp_arr_set` and `hp_arr_get` of src/hphpc/runtime/hphp_rt.c on maps without a hash index, which have
-- fewer than 12 elements.
use holyphp.Prelude.{
  Bool, Bool-cases, Option, [], ap, arith, false, get_or, if◌then◌else◌, inl, inr, length,
  length-take, ltb, none, refl, some, sym, take, true, ℕ, ◌++◌, ◌+◌, ◌<◌, ◌>>=◌, ◌∙◌, ◌∷◌, ◌≡◌, ◌≢◌,
  ◌≤◌,
}
use holyphp.Prelude.Int.{ltb_ℤ, ℤ}
use holyphp.Runtime.Value.{Hval, hp_key_eq, hp_key_eq_self, hp_key_eq_sound, int, is_key, null}
use holyphp.Runtime.Arr.{
  Found, Harr, element, endless, hp_arr_index_add, hp_key_index, map_index, missing, scan,
}
use holyphp.Runtime.Arr.Ops.{append_key, bump, hp_arr_get, hp_arr_set, set_found, value_at, write}
use holyphp.Runtime.Arr.Buffers.{
  length-take-le, length-write-ge, length-write-gt, take-write, write_other, write_self,
}
use holyphp.Runtime.Arr.Scan.{scan-append, scan-ne-endless, scan_holds, then_last}

-- A map that has no hash index, with buffers at least as long as the map.
pub record IsPlainMap {D : Type 0} (a : Harr D) : Type 0 where
  pub map : a.is_map ≡ true
  pub plain : a.index ≡ none
  pub keys_room : a.len ≤ length a.keys
  pub vals_room : a.len ≤ length a.vals

module _ {D : Type 0} (junk : Hval D) (trunc : D → ℤ) where
  key_index_plain :
      (a : Harr D) (key : Hval D)
      → IsPlainMap a
      → hp_key_index junk trunc a key ≡ scan 0 (take a.len a.keys) key
  unfolding hp_key_index
  key_index_plain a key p = rw (p.map, p.plain)

  -- What a lookup reads, written over the scan.
  get_plain :
      (a : Harr D) (key : Hval D)
      → IsPlainMap a
      → hp_arr_get junk trunc a key ≡ value_at junk a (scan 0 (take a.len a.keys) key)
  unfolding hp_arr_get
  get_plain a key p = ap (value_at junk a) (key_index_plain a key p)

  -- A write over the element that holds `k`, seen through the key `j`.
  overwrite_value :
      (a : Harr D) (k j v : Hval D) (r : ℕ)
      → is_key k ≡ true
      → a.len ≤ length a.vals
      → scan 0 (take a.len a.keys) k ≡ element r
      → (f : Found) → scan 0 (take a.len a.keys) j ≡ f
      → value_at junk (record a { vals = write junk a.vals r v }) f
        ≡ (if hp_key_eq k j then some v else value_at junk a f)
  unfolding value_at
  overwrite_value a k j v r key room at_k endless e =
      absurd (scan-ne-endless 0 (take a.len a.keys) j e)
  overwrite_value a k j v r key room at_k missing e = elim (Bool-cases (hp_key_eq k j)) [
    | inr ne ↦ rw ne
    | inl eq ↦
        let k_is_j = hp_key_eq_sound k j eq in
        absurd (clash (sym e ∙ ap (scan 0 (take a.len a.keys)) (sym k_is_j) ∙ at_k))
  ]
    where
      clash : missing ≡ element r → ⊥
      clash h = cc
  overwrite_value a k j v r key room at_k (element i) e =
      let (i_lt, key_i) = scan_holds junk (take a.len a.keys) j i e in
      let (r_lt, key_r) = scan_holds junk (take a.len a.keys) k r at_k in
      let in_vals : i < length a.vals = omega (arith, length-take-le a.len a.keys) in
      elim (Bool-cases (hp_key_eq k j)) [
        | inl eq ↦
            let k_is_j = hp_key_eq_sound k j eq in
            let same : i ≡ r =
              one_place (sym e ∙ ap (scan 0 (take a.len a.keys)) (sym k_is_j) ∙ at_k) in
            rw (eq, same) (ap some (write_self junk a.vals r v junk))
        | inr ne ↦
            let apart : r ≢ i = λ at.
              let k_is_j : k ≡ j =
                sym key_r ∙ ap (λ n. get_or (take a.len a.keys) n junk) at ∙ key_i in
              let self = hp_key_eq_self k key in
              let other : hp_key_eq k k ≡ false = ap (hp_key_eq k) k_is_j ∙ ne in absurd (cc) in
            rw ne (ap some (write_other junk a.vals r i v junk apart in_vals))
      ]
    where
      one_place : element i ≡ element r → i ≡ r
      one_place h = cc

  -- A value behind the others under a new key `k`, seen through the key `j`.
  append_value :
      (a : Harr D) (k j v : Hval D)
      → IsPlainMap a
      → scan 0 (take a.len a.keys) k ≡ missing
      → (f : Found) → scan 0 (take a.len a.keys) j ≡ f
      → value_at junk (append_key junk a k v) (then_last f (hp_key_eq k j) a.len)
        ≡ (if hp_key_eq k j then some v else value_at junk a f)
  unfolding value_at append_key
  append_value a k j v p new endless e = absurd (scan-ne-endless 0 (take a.len a.keys) j e)
  append_value a k j v p new missing e = elim (Bool-cases (hp_key_eq k j)) [
    | inl eq ↦ rw eq (ap some (write_self junk a.vals a.len v junk))
    | inr ne ↦ rw ne
  ]
  append_value a k j v p new (element i) e =
      let (i_lt, key_i) = scan_holds junk (take a.len a.keys) j i e in
      let in_map : i < a.len = omega (arith, length-take-le a.len a.keys) in
      elim (Bool-cases (hp_key_eq k j)) [
        | inl eq ↦
            let k_is_j = hp_key_eq_sound k j eq in
            absurd (found (sym e ∙ ap (scan 0 (take a.len a.keys)) (sym k_is_j) ∙ new))
        | inr ne ↦
            let room = p.vals_room in
            rw ne
              (ap some (write_other junk a.vals a.len i v junk (λ at. omega arith) (omega arith)))
      ]
    where
      found : element i ≡ missing → ⊥
      found h = cc

  get-bump :
      (a : Harr D) (k j : Hval D)
      → hp_arr_get junk trunc (bump junk k a) j ≡ hp_arr_get junk trunc a j
  unfolding bump hp_arr_get hp_key_index map_index value_at
  get-bump a (int i) j = elim (Bool-cases (ltb_ℤ i a.next_index)) [ inl e ↦ rw e | inr e ↦ rw e ]
  get-bump a k j = refl

  bump-IsPlainMap : (a : Harr D) (k : Hval D) → IsPlainMap a → IsPlainMap (bump junk k a)
  unfolding bump
  bump-IsPlainMap a (int i) p = elim (Bool-cases (ltb_ℤ i a.next_index)) [
    | inl e ↦ rw e p
    | inr e ↦
        rw e (record {
          map = p.map;
          plain = p.plain;
          keys_room = p.keys_room;
          vals_room = p.vals_room;
        })
  ]
  bump-IsPlainMap a k p = p

  append_key-IsPlainMap :
      (a : Harr D) (k v : Hval D) → IsPlainMap a → IsPlainMap (append_key junk a k v)
  unfolding append_key
  append_key-IsPlainMap a k v p =
      let is_map = p.map in
      let keys_gt = length-write-gt junk a.keys a.len k in
      let vals_gt = length-write-gt junk a.vals a.len v in
      record {
        map = rw is_map refl;
        plain = p.plain;
        keys_room = rw is_map (omega arith);
        vals_room = omega arith;
      }

  append_keys :
      (a : Harr D) (k v : Hval D)
      → IsPlainMap a
      → take (a.len + 1) (append_key junk a k v).keys ≡ take a.len a.keys ++ k ∷ []
  unfolding append_key
  append_keys a k v p = let is_map = p.map in rw is_map (take-write junk a.keys a.len k p.keys_room)

  index_add_small :
      (b : Harr D) (i : ℕ)
      → b.index ≡ none
      → ltb b.len 12 ≡ true
      → hp_arr_index_add junk b i ≡ some b
  unfolding hp_arr_index_add
  index_add_small b i plain small = elim (Bool-cases (is_key (get_or b.keys i junk))) [
    | inl e ↦ simp (e, plain, small)
    | inr e ↦ rw e
  ]

  append_key-small :
      (a : Harr D) (k v : Hval D) → a.len + 1 < 12 → ltb (append_key junk a k v).len 12 ≡ true
  unfolding append_key
  append_key-small a k v small = ground arith

  append_key-index : (a : Harr D) (k v : Hval D) → (append_key junk a k v).index ≡ a.index
  unfolding append_key
  append_key-index a k v = refl

  then_some :
      (m : Bool) (o q : Option (Harr D)) (c : Harr D) (f : Harr D → Option (Harr D))
      → m ≡ true
      → o ≡ some c
      → ((if m then o else q) >>= f) ≡ f c
  then_some m o q c f is_true is_some = rw (is_true, is_some) refl

  set_new :
      (a : Harr D) (k v : Hval D)
      → IsPlainMap a
      → a.len + 1 < 12
      → set_found junk a k v missing ≡ some (bump junk k (append_key junk a k v))
  unfolding set_found
  set_new a k v p small =
      let b = append_key junk a k v in
      then_some b.is_map (hp_arr_index_add junk b a.len) (some b) b (λ c. some (bump junk k c))
        (append_key-IsPlainMap a k v p).map
        (index_add_small b a.len (append_key-index a k v ∙ p.plain) (append_key-small a k v small))

  overwrite-IsPlainMap :
      (a : Harr D) (r : ℕ) (v : Hval D)
      → IsPlainMap a
      → IsPlainMap (record a { vals = write junk a.vals r v })
  overwrite-IsPlainMap a r v p =
      let ge = length-write-ge junk a.vals r v in
      let room = p.vals_room in
      record { map = p.map; plain = p.plain; keys_room = p.keys_room; vals_room = omega arith }

  get_new :
      (a : Harr D) (k j v : Hval D)
      → IsPlainMap a
      → scan 0 (take a.len a.keys) k ≡ missing
      → hp_arr_get junk trunc (bump junk k (append_key junk a k v)) j
        ≡ (if hp_key_eq k j then some v else hp_arr_get junk trunc a j)
  unfolding append_key
  get_new a k j v p new =
      let c = append_key junk a k v in
      let cut = length-take a.len a.keys in
      let room = p.keys_room in
      get-bump c k j
      ∙ get_plain c j (append_key-IsPlainMap a k v p)
      ∙ ap (λ ks. value_at junk c (scan 0 ks j)) (append_keys a k v p)
      ∙ ap (value_at junk c) (scan-append 0 (take a.len a.keys) k j)
      ∙ ap (λ n. value_at junk c (then_last (scan 0 (take a.len a.keys) j) (hp_key_eq k j) n))
          (omega arith)
      ∙ append_value a k j v p new (scan 0 (take a.len a.keys) j) refl
      ∙ ap (λ g. if hp_key_eq k j then some v else g) (sym (get_plain a j p))

  get_over :
      (a : Harr D) (k j v : Hval D) (r : ℕ)
      → IsPlainMap a
      → is_key k ≡ true
      → scan 0 (take a.len a.keys) k ≡ element r
      → hp_arr_get junk trunc (record a { vals = write junk a.vals r v }) j
        ≡ (if hp_key_eq k j then some v else hp_arr_get junk trunc a j)
  get_over a k j v r p key at_k =
      get_plain (record a { vals = write junk a.vals r v }) j (overwrite-IsPlainMap a r v p)
      ∙ overwrite_value a k j v r key p.vals_room at_k (scan 0 (take a.len a.keys) j) refl
      ∙ ap (λ g. if hp_key_eq k j then some v else g) (sym (get_plain a j p))

  -- An array after `a[k] = v`: a map again, which gives `v` for `k` and for any other key what it gave.
  abbrev pub IsUpdate : Harr D → Hval D → Hval D → Harr D → Type 0
  IsUpdate a k v c =
      IsPlainMap c
      × ((j : Hval D)
          → hp_arr_get junk trunc c j
            ≡ (if hp_key_eq k j then some v else hp_arr_get junk trunc a j))

  update :
      (a : Harr D) (k v : Hval D)
      → IsPlainMap a
      → is_key k ≡ true
      → a.len + 1 < 12
      → (f : Found) → scan 0 (take a.len a.keys) k ≡ f
      → (c : Harr D) × (set_found junk a k v f ≡ some c) × IsUpdate a k v c
  unfolding set_found
  update a k v p key small endless e = absurd (scan-ne-endless 0 (take a.len a.keys) k e)
  update a k v p key small missing e = (
    bump junk k (append_key junk a k v),
    set_new a k v p small,
    (
      bump-IsPlainMap (append_key junk a k v) k (append_key-IsPlainMap a k v p),
      λ j. get_new a k j v p e,
    ),
  )
  update a k v p key small (element r) e = (
    record a { vals = write junk a.vals r v },
    refl,
    (overwrite-IsPlainMap a r v p, λ j. get_over a k j v r p key e),
  )

  set_keyed :
      (a : Harr D) (k v : Hval D)
      → is_key k ≡ true
      → hp_arr_set junk trunc a k v ≡ set_found junk a k v (hp_key_index junk trunc a k)
  unfolding hp_arr_set
  set_keyed a null v h = absurd (cc)
  set_keyed a k v h = refl

  -- On a map without a hash index and with fewer than 11 elements, `hp_arr_set` with an integer or string
  -- key `k` returns a map of the same kind. `hp_arr_get` then gives the new value for every key equal to
  -- `k`, and for every other key what it gave before.
  pub hp_arr_get-hp_arr_set :
      (a : Harr D) (k v : Hval D)
      → IsPlainMap a
      → is_key k ≡ true
      → a.len + 1 < 12
      → (c : Harr D) × (hp_arr_set junk trunc a k v ≡ some c) × IsUpdate a k v c
  hp_arr_get-hp_arr_set a k v p key small =
      let (c, sets, updates) = update a k v p key small (scan 0 (take a.len a.keys) k) refl in
      (c, set_keyed a k v key ∙ ap (set_found junk a k v) (key_index_plain a k p) ∙ sets, updates)
