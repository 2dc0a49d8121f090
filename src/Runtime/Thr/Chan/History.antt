-- ===== src/Runtime/Thr/Chan/History.antt =====
-- Histories of a channel of src/hphpc/runtime/hphp_thr.c: any threads call its operations in any order.
use holyphp.Prelude.{
  Bool, Bool-cases, List, [], ap, append-nil, append_assoc, false, if_lem, if◌then◌else◌, inl, inr,
  length, not, refl, some, suc, sym, true, zero, ℕ, ◌&&◌, ◌++◌, ◌==◌, ◌∙◌, ◌∷◌, ◌≡◌,
}
use holyphp.Prelude.Int.{ℤ}
use holyphp.Runtime.Value.{Hval}
use holyphp.Runtime.Thr.Chan.{
  ChanRec, ChanWaiter, Received, Sent, chan_recv_impl, chan_recv_resume, chan_send_impl, failed,
  got, handed, hpbi_chan_close, hpbi_chan_new, is_null, refused, unlink, waits,
}
use holyphp.Runtime.Thr.Chan.Step.{
  SendStep, chan_send_impl-SendStep, send_buffered, send_closed, send_full, send_handed,
  send_queued,
}
use holyphp.Runtime.Thr.Chan.Valid.{
  IsValid, chan_recv_impl-IsValid, chan_recv_resume-IsValid, chan_send_impl-IsValid,
  hpbi_chan_close-IsValid, hpbi_chan_new-IsValid, no_sender, unlink-IsValid,
}
use holyphp.Runtime.Thr.Chan.Contents.{
  contents, contents_buffered, contents_idle, contents_queued, waiting_values,
}
use holyphp.Runtime.Thr.Chan.Fifo.{chan_recv_impl-take_first, received, take_first}

-- `x` if a send takes it, and again what a send hands to a receiver at once.
abbrev pub given : {D : Type 0} → Hval D → Sent → List (Hval D)
given x refused = []
given x s = x ∷ []

abbrev pub handed_over : {D : Type 0} → Hval D → Sent → List (Hval D)
handed_over x handed = x ∷ []
handed_over x s = []

abbrev pub taken : {D : Type 0} → Received D → List (Hval D)
taken (got v) = v ∷ []
taken r = []

-- What leaves the channel when a receiver resumes: its own value left when it was handed over.
abbrev pub taken_later : {D : Type 0} → ChanWaiter D → ChanRec D → List (Hval D)
taken_later w ch = if w.done && not (is_null w.value) then [] else taken ((chan_recv_resume w ch).1)

-- What a channel can be after any of its operations in any order. Any waiter may resume.
pub data History {D : Type 0} : ChanRec D → Type 0 where
  created : (c : ℤ) → History (hpbi_chan_new c)
  sent :
      {ch : ChanRec D} (t : ℕ) (x : Hval D) (block : Bool)
      → History ch
      → History (chan_send_impl t x block ch).0
  asked :
      {ch : ChanRec D} (t : ℕ) (block : Bool) → History ch → History (chan_recv_impl t block ch).0
  resumed : {ch : ChanRec D} (w : ChanWaiter D) → History ch → History (chan_recv_resume w ch).0
  closed_down : {ch : ChanRec D} → History ch → History (hpbi_chan_close ch)

module _ {D : Type 0} where
  pub contents_new : (c : ℤ) → contents (hpbi_chan_new {D = D} c) ≡ []
  unfolding contents hpbi_chan_new
  contents_new c = refl

  -- The equations of one operation.
  SendStep-balance :
      {t : ℕ} {block : Bool} {x : Hval D} {ch : ChanRec D} {r : ChanRec D × Sent}
      → SendStep t block x ch r
      → IsValid ch
      → contents ch ++ given x (r.1) ≡ handed_over x (r.1) ++ contents (r.0)
  unfolding contents waiting_values
  SendStep-balance {ch = ch} (send_closed c) v = append-nil (contents ch)
  SendStep-balance {ch = ch} (send_full c e l b) v = append-nil (contents ch)
  SendStep-balance {x = x} {ch = ch} (send_handed w r c e) v = elim v.receivers [
    | inl n ↦ absurd (cc)
    | inr (l, q, o) ↦
        let none_left : contents ch ≡ [] = contents_idle ch l ∙ ap waiting_values q in
        ap (λ k. k ++ x ∷ []) none_left ∙ sym (ap (λ k. x ∷ k) none_left)
  ]
  SendStep-balance {x = x} {ch = ch} (send_buffered c e l) v =
      sym (contents_buffered x ch v.ring l (no_sender l v))
  SendStep-balance {t} {x = x} {ch = ch} (send_queued c e l b) v = sym (contents_queued t x ch)

  pub send_balance :
      (t : ℕ) (x : Hval D) (block : Bool) (ch : ChanRec D)
      → IsValid ch
      → contents ch ++ given x ((chan_send_impl t x block ch).1)
        ≡ handed_over x ((chan_send_impl t x block ch).1)
          ++ contents ((chan_send_impl t x block ch).0)
  send_balance t x block ch v = SendStep-balance (chan_send_impl-SendStep t block ch x) v

  taken_first :
      (c c' : List (Hval D)) (r : Received D) → (c', received r) ≡ take_first c → c ≡ taken r ++ c'
  taken_first [] c' (got x) e = absurd (cc)
  taken_first [] c' failed e = cc
  taken_first [] c' waits e = cc
  taken_first (y ∷ c) c' (got x) e = cc
  taken_first (y ∷ c) c' failed e = absurd (cc)
  taken_first (y ∷ c) c' waits e = absurd (cc)

  pub recv_balance :
      (t : ℕ) (block : Bool) (ch : ChanRec D)
      → IsValid ch
      → contents ch
        ≡ taken ((chan_recv_impl t block ch).1) ++ contents ((chan_recv_impl t block ch).0)
  recv_balance t block ch v =
      taken_first (contents ch) (contents ((chan_recv_impl t block ch).0))
        ((chan_recv_impl t block ch).1) (chan_recv_impl-take_first t block ch v)

  pub resume_balance :
      (w : ChanWaiter D) (ch : ChanRec D)
      → IsValid ch
      → contents ch ≡ taken_later w ch ++ contents ((chan_recv_resume w ch).0)
  unfolding chan_recv_resume contents
  resume_balance w ch v =
      let ch' = record ch { recvq = unlink w.thread ch.recvq } in
      elim (Bool-cases (w.done && not (is_null w.value))) [
        | inl d ↦ rw d refl
        | inr d ↦ rw d (
            if_lem (λ (p : ChanRec D × Received D). contents ch ≡ taken (p.1) ++ contents (p.0))
              (ch'.closed && (ch'.len == 0) && (length ch'.sendq == 0)) (λ e. refl)
              (λ e. recv_balance w.thread true ch' (unlink-IsValid w.thread ch v)))
      ]

  -- In every history the ring of the channel stays consistent, a sender waits only while it is full, and
  -- a receiver only while it is empty, no sender waits and the channel is open.
  pub History-IsValid : {ch : ChanRec D} → History ch → IsValid ch
  History-IsValid (created c) = hpbi_chan_new-IsValid c
  History-IsValid (sent {ch = ch'} t x block h) =
      chan_send_impl-IsValid t x block ch' (History-IsValid h)
  History-IsValid (asked {ch = ch'} t block h) =
      chan_recv_impl-IsValid t block ch' (History-IsValid h)
  History-IsValid (resumed {ch = ch'} w h) = chan_recv_resume-IsValid w ch' (History-IsValid h)
  History-IsValid (closed_down {ch = ch'} h) = hpbi_chan_close-IsValid ch' (History-IsValid h)

  pub carry :
      (xs ys g k c c' : List (Hval D)) → xs ≡ ys ++ c → c ++ g ≡ k ++ c' → xs ++ g ≡ (ys ++ k) ++ c'
  carry xs ys g k c c' e b =
      ap (λ l. l ++ g) e ∙ append_assoc ys c g ∙ ap (λ l. ys ++ l) b ∙ sym (append_assoc ys k c')

  pub carry_taken :
      (xs ys k c c' : List (Hval D)) → xs ≡ ys ++ c → c ≡ k ++ c' → xs ≡ (ys ++ k) ++ c'
  carry_taken xs ys k c c' e b = e ∙ ap (λ l. ys ++ l) b ∙ sym (append_assoc ys k c')

  pub contents-hpbi_chan_close : (ch : ChanRec D) → contents (hpbi_chan_close ch) ≡ contents ch
  unfolding contents hpbi_chan_close
  contents-hpbi_chan_close ch = refl

-- `n` calls of `try_recv`, one after the other.
unfoldable pub drain : {D : Type 0} → ℕ → ChanRec D → List (Hval D) × ChanRec D
drain zero ch = ([], ch)
drain (suc n) ch =
    let r = chan_recv_impl 0 false ch in let rest = drain n (r.0) in (taken (r.1) ++ rest.0, rest.1)

module _ {D : Type 0} where
  taken-received : (r : Received D) (x : Hval D) → received r ≡ some x → taken r ≡ x ∷ []
  taken-received (got y) x e = cc
  taken-received failed x e = absurd (cc)
  taken-received waits x e = absurd (cc)

  drained :
      (c : List (Hval D)) (ch : ChanRec D)
      → contents ch ≡ c
      → IsValid ch
      → ((drain (length c) ch).0 ≡ c) × (contents ((drain (length c) ch).1) ≡ [])
  unfolding drain
  drained [] ch e v = (refl, e)
  drained (x ∷ c) ch e v =
      let r = chan_recv_impl 0 false ch in
      let one = chan_recv_impl-take_first 0 false ch v ∙ ap take_first e in
      let rest = drained c (r.0) (ap (λ p. p.0) one) (chan_recv_impl-IsValid 0 false ch v) in
      let first = taken-received (r.1) x (ap (λ p. p.1) one) in
      (ap (λ l. l ++ (drain (length c) (r.0)).0) first ∙ ap (λ l. x ∷ l) (rest.0), rest.1)

  -- On a valid channel, as many calls of `try_recv` as it holds values return all of them, in order, and
  -- leave none.
  pub drain-contents :
      (ch : ChanRec D)
      → IsValid ch
      → ((drain (length (contents ch)) ch).0 ≡ contents ch)
        × (contents ((drain (length (contents ch)) ch).1) ≡ [])
  drain-contents ch v = drained (contents ch) ch refl v
