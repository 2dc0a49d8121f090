-- ===== src/Runtime/Thr/Chan/Conserved.antt =====
-- A channel of src/hphpc/runtime/hphp_thr.c gives its values out in order, and to receivers that return
-- them.
use mathlib.Core.Path.{subst}
use holyphp.Prelude.{
  All, Bool, Bool-cases, List, [], ap, arith, false, if_lem, inl, inr, length, not, refl, sym, true,
  ℕ, ◌&&◌, ◌++◌, ◌+◌, ◌==◌, ◌∙◌, ◌∷◌, ◌≡◌,
}
use holyphp.Prelude.Int.{ℤ}
use holyphp.Runtime.Value.{Hval, null}
use holyphp.Runtime.Thr.Chan.{
  ChanRec, ChanWaiter, Received, chan_recv_impl, chan_recv_resume, chan_send_impl, hpbi_chan_close,
  hpbi_chan_new, is_null, unlink, wake_all,
}
use holyphp.Runtime.Thr.Chan.Valid.{
  IsValid, chan_recv_impl-IsValid, chan_recv_resume-IsValid, chan_send_impl-IsValid,
  hpbi_chan_close-IsValid, hpbi_chan_new-IsValid,
}
use holyphp.Runtime.Thr.Chan.Step.{chan_recv_impl-RecvStep, chan_send_impl-SendStep}
use holyphp.Runtime.Thr.Chan.Contents.{contents, waiting_values}
use holyphp.Runtime.Thr.Chan.History.{
  carry, carry_taken, contents-hpbi_chan_close, contents_new, given, handed_over, recv_balance,
  resume_balance, send_balance, taken, taken_later,
}
use holyphp.Runtime.Thr.Chan.Delivered.{
  All-append, All-without, HasNull, IsDone, IsSession, Session, after_close, after_receive,
  after_resume, after_send, at_first, closes, count_if, count_if-append, drop_append, is_null_lem,
  opened, receives, recv-HasNull, resumes, send_wakes, sends, then_step, unlink-HasNull,
  wake_all-IsDone, wake_all_nulls, woken_since,
}

waiting_values-append :
    {D : Type 0} (q r : List (ChanWaiter D))
    → waiting_values (q ++ r) ≡ waiting_values q ++ waiting_values r
unfolding waiting_values
waiting_values-append [] r = refl
waiting_values-append (w ∷ q) r = ap (λ l. w.value ∷ l) (waiting_values-append q r)

-- As many of the values that left pass the test as were returned or are in a woken receiver.
abbrev Balanced : {D : Type 0} → (Hval D → Bool) → Session D → Type 0
Balanced p s = count_if p s.left ≡ count_if p s.returned + count_if p (waiting_values s.pending)

record IsConserved {D : Type 0} (s : Session D) : Type 0 where
  valid : IsValid s.ch
  done : All IsDone s.pending
  nulls : All HasNull s.ch.recvq
  order : s.accepted ≡ s.left ++ contents s.ch
  balance : (p : Hval D → Bool) → p null ≡ false → Balanced p s

module _ {D : Type 0} where
  count_pending :
      (p : Hval D → Bool) (q r : List (ChanWaiter D))
      → count_if p (waiting_values (q ++ r))
        ≡ count_if p (waiting_values q) + count_if p (waiting_values r)
  count_pending p q r =
      ap (count_if p) (waiting_values-append q r)
      ∙ count_if-append p (waiting_values q) (waiting_values r)

  count_middle :
      (p : Hval D → Bool) (pre post : List (ChanWaiter D)) (w : ChanWaiter D)
      → count_if p (waiting_values (pre ++ w ∷ post))
        ≡ count_if p (w.value ∷ []) + count_if p (waiting_values (pre ++ post))
  unfolding waiting_values
  count_middle p pre post w =
      omega (arith, count_pending p pre (w ∷ post), count_pending p pre post)

  send-IsConserved :
      (t : ℕ) (x : Hval D) (block : Bool) (s : Session D)
      → IsConserved s
      → IsConserved (after_send t x block s)
  send-IsConserved t x block s v =
      let r = chan_send_impl t x block s.ch in
      let wakes = woken_since s.ch r.0 in
      let (values, done, nulls) = send_wakes (chan_send_impl-SendStep t block s.ch x) in
      record {
        valid = chan_send_impl-IsValid t x block s.ch v.valid;
        done = All-append IsDone s.pending wakes v.done done;
        nulls = nulls v.nulls;
        order =
            carry s.accepted s.left (given x r.1) (handed_over x r.1) (contents s.ch) (contents r.0)
              v.order (send_balance t x block s.ch v.valid)
            ∙ ap (λ l. (s.left ++ l) ++ contents r.0) (sym values);
        balance = λ p n. omega (
          arith,
          v.balance p n,
          count_if-append p s.left (waiting_values wakes),
          count_pending p s.pending wakes,
        );
      }

  receive-IsConserved :
      (t : ℕ) (block : Bool) (s : Session D) → IsConserved s → IsConserved (after_receive t block s)
  receive-IsConserved t block s v =
      let r = chan_recv_impl t block s.ch in
      record {
        valid = chan_recv_impl-IsValid t block s.ch v.valid;
        done = v.done;
        nulls = recv-HasNull (chan_recv_impl-RecvStep t block s.ch) v.nulls;
        order =
            carry_taken s.accepted s.left (taken r.1) (contents s.ch) (contents r.0) v.order
              (recv_balance t block s.ch v.valid);
        balance = λ p n. omega (
          arith,
          v.balance p n,
          count_if-append p s.left (taken r.1),
          count_if-append p s.returned (taken r.1),
        );
      }

  resume-HasNull :
      (w : ChanWaiter D) (ch : ChanRec D)
      → All HasNull ch.recvq
      → All HasNull (chan_recv_resume w ch).0.recvq
  unfolding chan_recv_resume
  resume-HasNull w ch h =
      let ch' = record ch { recvq = unlink w.thread ch.recvq } in
      let h' = unlink-HasNull w.thread ch.recvq h in
      if_lem (λ (q : ChanRec D × Received D). All HasNull q.0.recvq)
        (w.done && not (is_null w.value)) (λ a. h')
        (λ a.
          if_lem (λ (q : ChanRec D × Received D). All HasNull q.0.recvq)
            (ch'.closed && (ch'.len == 0) && (length ch'.sendq == 0)) (λ b. h')
            (λ b. recv-HasNull (chan_recv_impl-RecvStep w.thread true ch') h'))

  -- What a woken receiver returns, against what left the channel: its own value counts before.
  resume_count :
      (p : Hval D → Bool) (w : ChanWaiter D) (ch : ChanRec D)
      → p null ≡ false
      → w.done ≡ true
      → count_if p (w.value ∷ []) + count_if p (taken_later w ch)
        ≡ count_if p (taken (chan_recv_resume w ch).1)
  unfolding chan_recv_resume
  resume_count p w ch n d = elim (Bool-cases (is_null w.value)) [
    | inl e ↦
        let test : (w.done && not (is_null w.value)) ≡ false = ground arith in
        let fails : p w.value ≡ false = ap p (is_null_lem w.value e) ∙ n in
        let later : taken_later w ch ≡ taken (chan_recv_resume w ch).1 = rw test refl in
        rw fails (omega (arith, ap (count_if p) later))
    | inr e ↦
        let test : (w.done && not (is_null w.value)) ≡ true = ground arith in
        let later : taken_later w ch ≡ [] = rw test refl in
        let own : taken (chan_recv_resume w ch).1 ≡ w.value ∷ [] = rw test refl in
        omega (arith, ap (count_if p) later, ap (count_if p) own)
  ]

  resume-IsConserved :
      (pre post : List (ChanWaiter D)) (w : ChanWaiter D) (s : Session D)
      → s.pending ≡ pre ++ w ∷ post
      → IsConserved s
      → IsConserved (after_resume w (pre ++ post) s)
  resume-IsConserved pre post w s same v =
      let r = chan_recv_resume w s.ch in
      let (here, others) = All-without IsDone pre post w (subst (All IsDone) same v.done) in
      record {
        valid = chan_recv_resume-IsValid w s.ch v.valid;
        done = others;
        nulls = resume-HasNull w s.ch v.nulls;
        order =
            carry_taken s.accepted s.left (taken_later w s.ch) (contents s.ch) (contents r.0)
              v.order (resume_balance w s.ch v.valid);
        balance = λ p n. omega (
          arith,
          v.balance p n,
          ap (λ q. count_if p (waiting_values q)) same,
          count_middle p pre post w,
          resume_count p w s.ch n here,
          count_if-append p s.left (taken_later w s.ch),
          count_if-append p s.returned (taken r.1),
        );
      }

  close_wakes :
      (ch : ChanRec D)
      → (woken_since ch (hpbi_chan_close ch) ≡ wake_all ch.recvq)
        × ((hpbi_chan_close ch).recvq ≡ [])
  unfolding hpbi_chan_close
  close_wakes ch = (drop_append ch.woken (wake_all ch.recvq), refl)

  close-IsConserved : (s : Session D) → IsConserved s → IsConserved (after_close s)
  close-IsConserved s v =
      let (wakes, empty) = close_wakes s.ch in
      record {
        valid = hpbi_chan_close-IsValid s.ch v.valid;
        done =
            All-append IsDone s.pending _ v.done
              (subst (All IsDone) (sym wakes) (wake_all-IsDone s.ch.recvq));
        nulls = subst (All HasNull) (sym empty) tt;
        order = v.order ∙ ap (λ l. s.left ++ l) (sym (contents-hpbi_chan_close s.ch));
        balance = λ p n. omega (
          arith,
          v.balance p n,
          count_pending p s.pending (woken_since s.ch (hpbi_chan_close s.ch)),
          ap (λ q. count_if p (waiting_values q)) wakes,
          wake_all_nulls p s.ch.recvq n v.nulls,
        );
      }

  opened-IsConserved : (c : ℤ) → IsConserved (opened {D = D} c)
  unfolding hpbi_chan_new waiting_values
  opened-IsConserved c = record {
    valid = hpbi_chan_new-IsValid c;
    done = tt;
    nulls = tt;
    order = sym (contents_new c);
    balance = λ p n. refl;
  }

  IsSession-IsConserved : {s : Session D} → IsSession s → IsConserved s
  IsSession-IsConserved (at_first c) = opened-IsConserved c
  IsSession-IsConserved (then_step {s} h (sends t x block)) =
      send-IsConserved t x block s (IsSession-IsConserved h)
  IsSession-IsConserved (then_step {s} h (receives t block)) =
      receive-IsConserved t block s (IsSession-IsConserved h)
  IsSession-IsConserved (then_step {s} h (resumes pre post w same)) =
      resume-IsConserved pre post w s same (IsSession-IsConserved h)
  IsSession-IsConserved (then_step {s} h closes) = close-IsConserved s (IsSession-IsConserved h)

-- In every history of a channel the values that sends took are, in their order, those that left it, to a
-- receive or into the waiter of a receiver, and then those still in it. Of the values that left it, as
-- many pass any test that null fails as pass it among those that receives returned and those in the
-- waiters of woken receivers that have not run since.
pub Session-delivers :
    {D : Type 0} {s : Session D}
    → IsSession s
    → (s.accepted ≡ s.left ++ contents s.ch)
      × ((p : Hval D → Bool)
          → p null ≡ false
          → count_if p s.left ≡ count_if p s.returned + count_if p (waiting_values s.pending))
Session-delivers h = let v = IsSession-IsConserved h in (v.order, v.balance)
