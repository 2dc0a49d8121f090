-- ===== src/Runtime/Thr/Chan/Step.antt =====
-- The critical sections of `chan_send_impl` and `chan_recv_impl` of src/hphpc/runtime/hphp_thr.c as step
-- relations: a constructor for each way out, with what the code has tested there.
use holyphp.Prelude.{
  Bool, List, Option, [], arith, false, get_or, if_lem, ltb, none, not, refl, some, true, ℕ, ◌&&◌,
  ◌++◌, ◌<◌, ◌∷◌, ◌≡◌, ◌≤◌,
}
use holyphp.Runtime.Value.{Hval, null}
use holyphp.Runtime.Thr.Chan.{
  ChanRec, ChanWaiter, Received, Sent, buffered, chan_advance, chan_pop, chan_put, chan_recv_impl,
  chan_send_impl, chan_waiter_new, failed, got, handed, queued, recv_empty, recv_ready, refused,
  send_open, waits,
}

pub data SendStep {D : Type 0} (t : ℕ) (block : Bool) (x : Hval D) (ch : ChanRec D)
    : ChanRec D × Sent → Type 0 where
  send_closed : ch.closed ≡ true → SendStep t block x ch (ch, refused)
  send_full :
      ch.closed ≡ false
      → ch.recvq ≡ []
      → ch.cap ≤ ch.len
      → block ≡ false
      → SendStep t block x ch (ch, refused)
  send_handed :
      (w : ChanWaiter D) (r : List (ChanWaiter D))
      → ch.closed ≡ false
      → ch.recvq ≡ w ∷ r
      → SendStep t block x ch (
        record ch { recvq = r; woken = ch.woken ++ record w { value = x; done = true } ∷ [] },
        handed,
      )
  send_buffered :
      ch.closed ≡ false
      → ch.recvq ≡ []
      → ch.len < ch.cap
      → SendStep t block x ch (chan_put x ch, buffered)
  send_queued :
      ch.closed ≡ false
      → ch.recvq ≡ []
      → ch.cap ≤ ch.len
      → block ≡ true
      → SendStep t block x ch (record ch { sendq = ch.sendq ++ chan_waiter_new t x ∷ [] }, queued)

pub data RecvStep {D : Type 0} (t : ℕ) (ch : ChanRec D) : ChanRec D × Received D → Type 0 where
  recv_ring :
      0 < ch.len → ch.sendq ≡ [] → RecvStep t ch (chan_advance ch, got (get_or ch.buf ch.head null))
  recv_refill :
      (w : ChanWaiter D) (r : List (ChanWaiter D))
      → 0 < ch.len
      → ch.sendq ≡ w ∷ r
      → RecvStep t ch (
        record (chan_put w.value (chan_advance ch)) {
          sendq = r;
          woken = ch.woken ++ record w { done = true } ∷ [];
        },
        got (get_or ch.buf ch.head null),
      )
  recv_sender :
      (w : ChanWaiter D) (r : List (ChanWaiter D))
      → ch.len ≡ 0
      → ch.sendq ≡ w ∷ r
      → RecvStep t ch
          (record ch { sendq = r; woken = ch.woken ++ record w { done = true } ∷ [] }, got w.value)
  recv_failed : ch.len ≡ 0 → ch.sendq ≡ [] → RecvStep t ch (ch, failed)
  recv_waits :
      ch.len ≡ 0
      → ch.sendq ≡ []
      → ch.closed ≡ false
      → RecvStep t ch (record ch { recvq = ch.recvq ++ chan_waiter_new t null ∷ [] }, waits)

-- To split on a queue, and keep the equation.
chan_pop_lem {ℓ} :
    {D : Type 0} (P : Option (ChanWaiter D × List (ChanWaiter D)) → Type ℓ)
    (q : List (ChanWaiter D))
    → (q ≡ [] → P none)
    → ((w : ChanWaiter D) (r : List (ChanWaiter D)) → q ≡ w ∷ r → P (some (w, r)))
    → P (chan_pop q)
unfolding chan_pop
chan_pop_lem P [] f g = f refl
chan_pop_lem P (w ∷ r) f g = g w r refl

module _ {D : Type 0} (t : ℕ) (block : Bool) (ch : ChanRec D) where
  pub chan_send_impl-SendStep : (x : Hval D) → SendStep t block x ch (chan_send_impl t x block ch)
  unfolding chan_send_impl send_open
  chan_send_impl-SendStep x = if_lem (SendStep t block x ch) ch.closed send_closed (λ c.
      chan_pop_lem (λ o. SendStep t block x ch (send_open t x block ch o)) ch.recvq
        (λ e.
          if_lem (SendStep t block x ch) (ltb 0 ch.cap && ltb ch.len ch.cap)
            (λ m. send_buffered c e (ground arith))
            (λ m.
              if_lem (SendStep t block x ch) (not block)
                (λ b. send_full c e (ground arith) (ground arith))
                (λ b. send_queued c e (ground arith) (ground arith))))
        (λ w r e. send_handed w r c e))

  pub chan_recv_impl-RecvStep : RecvStep t ch (chan_recv_impl t block ch)
  unfolding chan_recv_impl recv_ready recv_empty
  chan_recv_impl-RecvStep =
      if_lem (RecvStep t ch) (ltb 0 ch.len)
        (λ n.
          chan_pop_lem (λ o. RecvStep t ch (recv_ready ch o)) ch.sendq
            (λ e. recv_ring (ground arith) e) (λ w r e. recv_refill w r (ground arith) e))
        (λ n.
          chan_pop_lem (λ o. RecvStep t ch (recv_empty t block ch o)) ch.sendq
            (λ e.
              if_lem (RecvStep t ch) ch.closed (λ c. recv_failed (ground arith) e)
                (λ c.
                  if_lem (RecvStep t ch) (not block) (λ b. recv_failed (ground arith) e)
                    (λ b. recv_waits (ground arith) e c)))
            (λ w r e. recv_sender w r (ground arith) e))
