-- ===== src/Runtime/Thr/Chan/Contents.antt =====
-- The values that a channel of src/hphpc/runtime/hphp_thr.c holds, and what the parts of its operations do
-- to them.
use holyphp.Prelude.{
  List, [], ap, append-nil, append_assoc, arith, get_or, length, length-append, refl, sym, ℕ, ◌++◌,
  ◌+◌, ◌-◌, ◌<◌, ◌∙◌, ◌∷◌, ◌≡◌,
}
use holyphp.Runtime.Value.{Hval, null}
use holyphp.Runtime.Thr.Chan.{
  ChanRec, ChanWaiter, chan_advance, chan_put, chan_waiter_new, next_pos,
}
use holyphp.Runtime.Thr.Chan.Ring.{
  length-ring_items, ring_items, ring_items-set_tail, ring_items_first,
}
use holyphp.Runtime.Thr.Chan.Valid.{IsRing, chan_advance-IsRing, head_lt}

unfoldable pub waiting_values : {D : Type 0} → List (ChanWaiter D) → List (Hval D)
waiting_values [] = []
waiting_values (w ∷ q) = w.value ∷ waiting_values q

unfoldable pub contents : {D : Type 0} → ChanRec D → List (Hval D)
unfolding ring_items waiting_values
contents ch = ring_items ch.cap ch.buf ch.head ch.len ++ waiting_values ch.sendq

module _ {D : Type 0} where
  pub waiting_values_append :
      (q : List (ChanWaiter D)) (w : ChanWaiter D)
      → waiting_values (q ++ w ∷ []) ≡ waiting_values q ++ w.value ∷ []
  unfolding waiting_values
  waiting_values_append [] w = refl
  waiting_values_append (v ∷ q) w = rw (waiting_values_append q w) refl

  length-waiting_values : (q : List (ChanWaiter D)) → length (waiting_values q) ≡ length q
  unfolding waiting_values
  length-waiting_values [] = refl
  length-waiting_values (v ∷ q) = rw (length-waiting_values q) refl

  pub length-contents : (ch : ChanRec D) → length (contents ch) ≡ ch.len + length ch.sendq
  unfolding contents
  length-contents ch =
      length-append (ring_items ch.cap ch.buf ch.head ch.len) (waiting_values ch.sendq)
      ∙ (rw (length-ring_items ch.cap ch.buf ch.head ch.len, length-waiting_values ch.sendq) refl)

  -- A put stands behind the ring and before the senders that remain.
  contents-chan_put :
      (x : Hval D) (ch : ChanRec D) (q : List (ChanWaiter D)) (w : List (ChanWaiter D))
      → IsRing ch
      → ch.len < ch.cap
      → contents (record (chan_put x ch) { sendq = q; woken = w })
        ≡ ring_items ch.cap ch.buf ch.head ch.len ++ x ∷ waiting_values q
  unfolding contents chan_put
  contents-chan_put x ch q w r l =
      ap (λ f. f ++ waiting_values q)
        (ring_items-set_tail ch.cap ch.buf ch.head ch.len ch.tail (ch.len + 1) x r.room
          (head_lt ch r (omega arith)) l r.tail_behind (omega arith))
      ∙ append_assoc (ring_items ch.cap ch.buf ch.head ch.len) (x ∷ []) (waiting_values q)

  pub contents-chan_advance :
      (ch : ChanRec D)
      → 0 < ch.len
      → contents ch ≡ get_or ch.buf ch.head null ∷ contents (chan_advance ch)
  unfolding contents chan_advance
  contents-chan_advance ch l =
      ap (λ f. f ++ waiting_values ch.sendq) (ring_items_first ch.cap ch.buf ch.head ch.len l)

  pub contents_idle : (ch : ChanRec D) → ch.len ≡ 0 → contents ch ≡ waiting_values ch.sendq
  unfolding contents ring_items
  contents_idle ch n = ap (λ k. ring_items ch.cap ch.buf ch.head k ++ waiting_values ch.sendq) n

  pub contents_buffered :
      (x : Hval D) (ch : ChanRec D)
      → IsRing ch
      → ch.len < ch.cap
      → ch.sendq ≡ []
      → contents (chan_put x ch) ≡ contents ch ++ x ∷ []
  unfolding contents waiting_values chan_put
  contents_buffered x ch r l e =
      contents-chan_put x ch ch.sendq ch.woken r l
      ∙ rw (e, append-nil (ring_items ch.cap ch.buf ch.head ch.len)) refl

  pub contents_queued :
      (t : ℕ) (x : Hval D) (ch : ChanRec D)
      → contents (record ch { sendq = ch.sendq ++ chan_waiter_new t x ∷ [] })
        ≡ contents ch ++ x ∷ []
  unfolding contents chan_waiter_new
  contents_queued t x ch = rw (waiting_values_append ch.sendq (chan_waiter_new t x)) (
      sym
        (append_assoc (ring_items ch.cap ch.buf ch.head ch.len) (waiting_values ch.sendq) (x ∷ [])))

  pub contents_refilled :
      (ch : ChanRec D) (w : ChanWaiter D) (r k : List (ChanWaiter D))
      → IsRing ch
      → 0 < ch.len
      → ch.sendq ≡ w ∷ r
      → contents (record (chan_put w.value (chan_advance ch)) { sendq = r; woken = k })
        ≡ contents (chan_advance ch)
  unfolding contents waiting_values chan_advance
  contents_refilled ch w r k v n e =
      contents-chan_put w.value (chan_advance ch) r k (chan_advance-IsRing ch v n)
        (omega (arith, v.bounded))
      ∙ ap
          (λ q. ring_items ch.cap ch.buf (next_pos ch.cap ch.head) (ch.len - 1) ++ waiting_values q)
          (sym e)
