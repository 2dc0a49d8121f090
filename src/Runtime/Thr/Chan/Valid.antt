-- ===== src/Runtime/Thr/Chan/Valid.antt =====
-- What holds of a channel of src/hphpc/runtime/hphp_thr.c whenever its lock is free.
use holyphp.Prelude.{
  Bool, List, [], ap, arith, false, if_lem, inl, inr, length, length-replicate, length-set, not,
  refl, suc, sym, true, ℕ, ◌&&◌, ◌-◌, ◌<◌, ◌==◌, ◌∙◌, ◌∷◌, ◌≡◌, ◌≤◌, ◌⊎◌,
}
use holyphp.Prelude.Int.{ℤ}
use holyphp.Runtime.Value.{Hval, null}
use holyphp.Runtime.Thr.Chan.{
  ChanRec, ChanWaiter, Received, Sent, capacity, chan_advance, chan_put, chan_recv_impl,
  chan_recv_resume, chan_send_impl, hpbi_chan_close, hpbi_chan_new, is_null, unlink,
}
use holyphp.Runtime.Thr.Chan.Step.{
  RecvStep, SendStep, chan_recv_impl-RecvStep, chan_send_impl-SendStep, recv_failed, recv_refill,
  recv_ring, recv_sender, recv_waits, send_buffered, send_closed, send_full, send_handed,
  send_queued,
}
use holyphp.Runtime.Thr.Chan.Ring.{next_pos-lt, next_pos-ring_pos, ring_pos, ring_pos-next_pos}

-- The tail stands `len` slots behind the head.
pub record IsRing {D : Type 0} (ch : ChanRec D) : Type 0 where
  pub room : length (ch.buf) ≡ ch.cap
  pub bounded : ch.len ≤ ch.cap
  pub head_within : (ch.cap ≡ 0) ⊎ (ch.head < ch.cap)
  pub tail_behind : ch.tail ≡ ring_pos (ch.cap) (ch.head) (ch.len)

-- A sender waits only while the ring is full, and a receiver only while there is no value, no waiting
-- sender, and the channel is open.
pub record IsValid {D : Type 0} (ch : ChanRec D) : Type 0 where
  pub ring : IsRing ch
  pub senders : (ch.sendq ≡ []) ⊎ (ch.len ≡ ch.cap)
  pub receivers : (ch.recvq ≡ []) ⊎ ((ch.len ≡ 0) × (ch.sendq ≡ []) × (ch.closed ≡ false))

module _ {D : Type 0} where
  -- A ring with an element, or with room, has a slot for its head.
  pub head_lt : (ch : ChanRec D) → IsRing ch → 0 < ch.cap → ch.head < ch.cap
  head_lt ch v h = ground (arith, v.head_within)

  pub chan_put-IsRing :
      (x : Hval D) (ch : ChanRec D) → IsRing ch → ch.len < ch.cap → IsRing (chan_put x ch)
  unfolding chan_put
  chan_put-IsRing x ch v h =
      let hc = head_lt ch v (omega arith) in
      record {
        room = length-set ch.buf ch.tail x ∙ v.room;
        bounded = omega arith;
        head_within = v.head_within;
        tail_behind =
            rw (v.tail_behind, next_pos-ring_pos ch.cap ch.head ch.len hc h) (ground arith);
      }

  pub chan_advance-IsRing : (ch : ChanRec D) → IsRing ch → 0 < ch.len → IsRing (chan_advance ch)
  unfolding chan_advance
  chan_advance-IsRing ch v h =
      let hc = head_lt ch v (omega (arith, v.bounded)) in
      let b = v.bounded in
      let step = ring_pos-next_pos ch.cap ch.head (ch.len - 1) hc (omega arith) in
      let back : suc (ch.len - 1) ≡ ch.len = omega arith in
      record {
        room = v.room;
        bounded = omega arith;
        head_within = inr (next_pos-lt ch.cap ch.head hc);
        tail_behind = v.tail_behind ∙ sym (step ∙ ap (ring_pos ch.cap ch.head) back);
      }

  -- The queues are not part of the ring.
  pub requeued :
      {ch : ChanRec D} {c : Bool} {q r w : List (ChanWaiter D)}
      → IsRing ch
      → IsRing (record ch { closed = c; sendq = q; recvq = r; woken = w })
  requeued v = record {
    room = v.room;
    bounded = v.bounded;
    head_within = v.head_within;
    tail_behind = v.tail_behind;
  }

  pub hpbi_chan_new-IsValid : (c : ℤ) → IsValid (hpbi_chan_new {D = D} c)
  unfolding hpbi_chan_new
  hpbi_chan_new-IsValid c = record {
    ring = record {
      room = length-replicate (capacity c) null;
      bounded = omega arith;
      head_within = ground arith;
      tail_behind = ground arith;
    };
    senders = inl refl;
    receivers = inl refl;
  }

  -- With a value in the ring no receiver waits; with a sender waiting the ring is full.
  pub idle : {ch : ChanRec D} → 0 < ch.len → IsValid ch → (ch.recvq ≡ [])
  idle n v = elim v.receivers [ inl e ↦ e | inr (l, q, o) ↦ absurd (omega arith) ]

  pub waiting_full :
      {ch : ChanRec D} {w : ChanWaiter D} {r : List (ChanWaiter D)}
      → ch.sendq ≡ w ∷ r
      → IsValid ch
      → (ch.len ≡ ch.cap)
  waiting_full e v = elim v.senders [ inl n ↦ absurd (cc) | inr f ↦ f ]

  pub no_sender : {ch : ChanRec D} → ch.len < ch.cap → IsValid ch → ch.sendq ≡ []
  no_sender l v = ground (arith, v.senders)

  send_IsValid :
      {t : ℕ} {block : Bool} {x : Hval D} {ch : ChanRec D} {r : ChanRec D × Sent}
      → SendStep t block x ch r
      → IsValid ch
      → IsValid (r.0)
  unfolding chan_put
  send_IsValid {ch = ch} (send_closed c) v = v
  send_IsValid {ch = ch} (send_full c e l b) v = v
  send_IsValid {ch = ch} (send_handed w r c e) v = record {
    ring = requeued v.ring;
    senders = v.senders;
    receivers = elim v.receivers [ inl n ↦ absurd (cc) | inr (l, q, o) ↦ inr (l, q, o) ];
  }
  send_IsValid {x = x} {ch = ch} (send_buffered c e l) v = record {
    ring = chan_put-IsRing x ch v.ring l;
    senders = ground (arith, v.senders);
    receivers = inl e;
  }
  send_IsValid {ch = ch} (send_queued c e l b) v = record {
    ring = requeued v.ring;
    senders = inr (omega (arith, (v.ring).bounded));
    receivers = inl e;
  }

  recv_IsValid :
      {t : ℕ} {ch : ChanRec D} {r : ChanRec D × Received D}
      → RecvStep t ch r
      → IsValid ch
      → IsValid (r.0)
  unfolding chan_put chan_advance
  recv_IsValid {ch = ch} (recv_ring n e) v = record {
    ring = chan_advance-IsRing ch v.ring n;
    senders = inl e;
    receivers = inl (idle n v);
  }
  recv_IsValid {ch = ch} (recv_refill w r n e) v = record {
    ring = requeued (
        chan_put-IsRing w.value (chan_advance ch) (chan_advance-IsRing ch v.ring n)
          (omega (arith, (v.ring).bounded)));
    senders = inr (omega (arith, waiting_full e v));
    receivers = inl (idle n v);
  }
  recv_IsValid {ch = ch} (recv_sender w r n e) v = record {
    ring = requeued v.ring;
    senders = inr (waiting_full e v);
    receivers = elim v.receivers [ inl o ↦ inl o | inr (l, q, o) ↦ absurd (cc) ];
  }
  recv_IsValid {ch = ch} (recv_failed n e) v = v
  recv_IsValid {ch = ch} (recv_waits n e c) v = record {
    ring = requeued v.ring;
    senders = v.senders;
    receivers = inr (n, e, c);
  }

  pub chan_send_impl-IsValid :
      (t : ℕ) (x : Hval D) (block : Bool) (ch : ChanRec D)
      → IsValid ch
      → IsValid ((chan_send_impl t x block ch).0)
  chan_send_impl-IsValid t x block ch v = send_IsValid (chan_send_impl-SendStep t block ch x) v

  pub chan_recv_impl-IsValid :
      (t : ℕ) (block : Bool) (ch : ChanRec D) → IsValid ch → IsValid ((chan_recv_impl t block ch).0)
  chan_recv_impl-IsValid t block ch v = recv_IsValid (chan_recv_impl-RecvStep t block ch) v

  pub hpbi_chan_close-IsValid : (ch : ChanRec D) → IsValid ch → IsValid (hpbi_chan_close ch)
  unfolding hpbi_chan_close
  hpbi_chan_close-IsValid ch v = record {
    ring = requeued v.ring;
    senders = v.senders;
    receivers = inl refl;
  }

  unlinked : {r : List (ChanWaiter D)} (t : ℕ) → r ≡ [] → unlink t r ≡ []
  unfolding unlink
  unlinked t e = rw e refl

  pub unlink-IsValid :
      (t : ℕ) (ch : ChanRec D) → IsValid ch → IsValid (record ch { recvq = unlink t ch.recvq })
  unlink-IsValid t ch v = record {
    ring = requeued v.ring;
    senders = v.senders;
    receivers = elim v.receivers [ inl e ↦ inl (unlinked t e) | inr h ↦ inr h ];
  }

  -- A receiver's way back from its wait keeps the channel valid, whatever its waiter holds.
  pub chan_recv_resume-IsValid :
      (w : ChanWaiter D) (ch : ChanRec D) → IsValid ch → IsValid ((chan_recv_resume w ch).0)
  unfolding chan_recv_resume
  chan_recv_resume-IsValid w ch v =
      let ch' = record ch { recvq = unlink w.thread ch.recvq } in
      let v' = unlink-IsValid w.thread ch v in
      if_lem (λ (p : ChanRec D × Received D). IsValid (p.0)) (w.done && not (is_null w.value))
        (λ d. v')
        (λ d.
          if_lem (λ (p : ChanRec D × Received D). IsValid (p.0))
            (ch'.closed && (ch'.len == 0) && (length ch'.sendq == 0)) (λ e. v')
            (λ e. chan_recv_impl-IsValid w.thread true ch' v'))
