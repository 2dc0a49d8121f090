-- ===== src/Runtime/Thr/Chan/Fifo.antt =====
-- A channel of src/hphpc/runtime/hphp_thr.c as a queue: the values in the ring, then those of the
-- waiting senders.
use holyphp.Prelude.{
  Bool, List, Option, [], ap, arith, false, if◌then◌else◌, inl, inr, length, ltb, none, refl, some,
  sym, true, ℕ, ◌++◌, ◌<◌, ◌||◌, ◌∙◌, ◌∷◌, ◌≡◌, ◌≤◌, ◌⊎◌,
}
use holyphp.Runtime.Value.{Hval, null}
use holyphp.Runtime.Thr.Chan.{
  ChanRec, Received, Sent, chan_recv_impl, chan_send_impl, chan_waiter_new, got, refused,
}
use holyphp.Runtime.Thr.Chan.Step.{
  RecvStep, SendStep, chan_recv_impl-RecvStep, chan_send_impl-SendStep, recv_failed, recv_refill,
  recv_ring, recv_sender, recv_waits, send_buffered, send_closed, send_full, send_handed,
  send_queued,
}
use holyphp.Runtime.Thr.Chan.Valid.{IsValid, no_sender}
use holyphp.Runtime.Thr.Chan.Contents.{
  contents, contents-chan_advance, contents_buffered, contents_idle, contents_queued,
  contents_refilled, length-contents, waiting_values,
}

-- Whether a send gives the channel its value, now or when a receiver comes.
abbrev pub takes : Sent → Bool
takes refused = false
takes s = true

-- The value that a pass of a receive returns.
abbrev pub received : {D : Type 0} → Received D → Option (Hval D)
received (got v) = some v
received r = none

-- The queue that a channel stands for: what a send makes of it, with the number of waiting receivers
-- and the capacity, and what a receive does.
abbrev pub offer {ℓ} : {A : Type ℓ} → Bool → ℕ → ℕ → Bool → A → List A → List A × Bool
offer closed receivers cap block x q =
    if closed
    then (q, false)
    else if ltb 0 receivers
    then (q, true)
    else if ltb (length q) cap || block
    then (q ++ x ∷ [], true)
    else (q, false)

abbrev pub take_first {ℓ} : {A : Type ℓ} → List A → List A × Option A
take_first [] = ([], none)
take_first (x ∷ q) = (q, some x)

module _ {D : Type 0} where
  offer_closed :
      (c : Bool) (n k : ℕ) (b : Bool) (x : Hval D) (q : List (Hval D))
      → c ≡ true
      → offer c n k b x q ≡ (q, false)
  offer_closed c n k b x q o = rw o refl

  offer_full :
      (c : Bool) (n k : ℕ) (b : Bool) (x : Hval D) (q : List (Hval D))
      → c ≡ false
      → n ≡ 0
      → k ≤ length q
      → b ≡ false
      → offer c n k b x q ≡ (q, false)
  offer_full c n k b x q o e l h = ground arith

  offer_handed :
      (c : Bool) (n k : ℕ) (b : Bool) (x : Hval D) (q : List (Hval D))
      → c ≡ false
      → 0 < n
      → offer c n k b x q ≡ (q, true)
  offer_handed c n k b x q o e = ground arith

  offer_joins :
      (c : Bool) (n k : ℕ) (b : Bool) (x : Hval D) (q : List (Hval D))
      → c ≡ false
      → n ≡ 0
      → (length q < k) ⊎ (b ≡ true)
      → offer c n k b x q ≡ (q ++ x ∷ [], true)
  offer_joins c n k b x q o e (inl l) = ground arith
  offer_joins c n k b x q o e (inr h) = ground arith

  first_taken :
      {q q' : List (Hval D)} {c : List (Hval D)} {x : Hval D}
      → c ≡ x ∷ q
      → q' ≡ q
      → (q', some x) ≡ take_first c
  first_taken {x = x} e e' = ap (λ k. (k, some x)) e' ∙ sym (ap take_first e)

  send_offer :
      {t : ℕ} {block : Bool} {x : Hval D} {ch : ChanRec D} {r : ChanRec D × Sent}
      → SendStep t block x ch r
      → IsValid ch
      → (contents (r.0), takes (r.1))
        ≡ offer ch.closed (length ch.recvq) ch.cap block x (contents ch)
  unfolding contents
  send_offer {t} {block} {x} {ch = ch} (send_closed c) v =
      sym (offer_closed ch.closed (length ch.recvq) ch.cap block x (contents ch) c)
  send_offer {t} {block} {x} {ch = ch} (send_full c e l b) v = sym (
      offer_full ch.closed (length ch.recvq) ch.cap block x (contents ch) c (ap length e)
        (omega (arith, length-contents ch)) b)
  send_offer {t} {block} {x} {ch = ch} (send_handed w r c e) v =
      sym (
        offer_handed ch.closed (length ch.recvq) ch.cap block x (contents ch) c
          (rw e (omega arith)))
  send_offer {t} {block} {x} {ch = ch} (send_buffered c e l) v =
      let es = no_sender l v in
      ap (λ q. (q, true)) (contents_buffered x ch v.ring l es)
      ∙ sym (
          offer_joins ch.closed (length ch.recvq) ch.cap block x (contents ch) c (ap length e)
            (inl (omega (arith, length-contents ch, ap length es))))
  send_offer {t} {block} {x} {ch = ch} (send_queued c e l b) v =
      ap (λ q. (q, true)) (contents_queued t x ch)
      ∙ sym (
          offer_joins ch.closed (length ch.recvq) ch.cap block x (contents ch) c (ap length e)
            (inr b))

  recv_take_first :
      {t : ℕ} {ch : ChanRec D} {r : ChanRec D × Received D}
      → RecvStep t ch r
      → IsValid ch
      → (contents (r.0), received (r.1)) ≡ take_first (contents ch)
  unfolding waiting_values
  recv_take_first {ch = ch} (recv_ring n e) v = first_taken (contents-chan_advance ch n) refl
  recv_take_first {ch = ch} (recv_refill w r n e) v =
      first_taken (contents-chan_advance ch n)
        (contents_refilled ch w r (ch.woken ++ record w { done = true } ∷ []) v.ring n e)
  recv_take_first {ch = ch} (recv_sender w r n e) v =
      first_taken (contents_idle ch n ∙ ap waiting_values e) (
        contents_idle (record ch { sendq = r; woken = ch.woken ++ record w { done = true } ∷ [] })
          n)
  recv_take_first {ch = ch} (recv_failed n e) v =
      let none_left = contents_idle ch n ∙ ap waiting_values e in
      ap (λ q. (q, none)) none_left ∙ sym (ap take_first none_left)
  recv_take_first {t} {ch = ch} (recv_waits n e c) v =
      let none_left = contents_idle ch n ∙ ap waiting_values e in
      ap (λ q. (q, none))
        (contents_idle (record ch { recvq = ch.recvq ++ chan_waiter_new t null ∷ [] }) n
          ∙ ap waiting_values e)
      ∙ sym (ap take_first none_left)

  -- On a valid channel a send is the queue's `offer`, with the waiting receivers, the capacity and
  -- `block` of the call: the same values stand in it after the call, in the same order, and the value
  -- is taken in the same cases.
  pub chan_send_impl-offer :
      (t : ℕ) (x : Hval D) (block : Bool) (ch : ChanRec D)
      → IsValid ch
      → (contents ((chan_send_impl t x block ch).0), takes ((chan_send_impl t x block ch).1))
        ≡ offer ch.closed (length ch.recvq) ch.cap block x (contents ch)
  chan_send_impl-offer t x block ch v = send_offer (chan_send_impl-SendStep t block ch x) v

  -- On a valid channel a pass of a receive returns the first value of the queue and leaves the others in
  -- their order, whether it reads the ring or takes the value of a waiting sender, and it returns
  -- no value exactly when there is none.
  pub chan_recv_impl-take_first :
      (t : ℕ) (block : Bool) (ch : ChanRec D)
      → IsValid ch
      → (contents ((chan_recv_impl t block ch).0), received ((chan_recv_impl t block ch).1))
        ≡ take_first (contents ch)
  chan_recv_impl-take_first t block ch v = recv_take_first (chan_recv_impl-RecvStep t block ch) v
