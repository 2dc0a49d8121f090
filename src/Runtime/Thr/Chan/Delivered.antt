-- ===== src/Runtime/Thr/Chan/Delivered.antt =====
-- What the receives of a channel of src/hphpc/runtime/hphp_thr.c return, over any calls by any threads. A
-- session is a channel with its woken receivers, the receivers that were unlinked and whose threads
-- have not run since, and with what was sent and received so far.
use mathlib.Core.Path.{subst}
use holyphp.Prelude.{
  All, Bool, List, [], ap, arith, drop, false, if_lem, if◌then◌else◌, length, refl, sym, true, ℕ,
  ◌++◌, ◌+◌, ◌==◌, ◌∷◌, ◌≡◌,
}
use holyphp.Prelude.Int.{ℤ}
use holyphp.Runtime.Value.{Hval, arr, bool, clo, float, int, null, obj, str}
use holyphp.Runtime.Thr.Chan.{
  ChanRec, ChanWaiter, Received, Sent, chan_advance, chan_put, chan_recv_impl, chan_recv_resume,
  chan_send_impl, chan_waiter_new, hpbi_chan_close, hpbi_chan_new, is_null, unlink, wake_all,
}
use holyphp.Runtime.Thr.Chan.Contents.{waiting_values}
use holyphp.Runtime.Thr.Chan.Step.{
  RecvStep, SendStep, recv_failed, recv_refill, recv_ring, recv_sender, recv_waits, send_buffered,
  send_closed, send_full, send_handed, send_queued,
}
use holyphp.Runtime.Thr.Chan.History.{given, handed_over, taken, taken_later}

-- `accepted`: the values that sends took. `left`: those that left the channel, to a receive or into the
-- waiter of a receiver. `returned`: those that receives returned.
pub record Session (D : Type 0) : Type 0 where
  pub ch : ChanRec D
  pub pending : List (ChanWaiter D)
  pub accepted : List (Hval D)
  pub left : List (Hval D)
  pub returned : List (Hval D)

-- The waiters that an operation unlinked.
abbrev pub woken_since : {D : Type 0} → ChanRec D → ChanRec D → List (ChanWaiter D)
woken_since old new = drop (length old.woken) new.woken

abbrev pub opened : {D : Type 0} → ℤ → Session D
opened c = record { ch = hpbi_chan_new c; pending = []; accepted = []; left = []; returned = [] }

-- A send wakes receivers only.
abbrev pub after_send : {D : Type 0} → ℕ → Hval D → Bool → Session D → Session D
after_send t x block s =
    let r = chan_send_impl t x block s.ch in
    let wakes = woken_since s.ch r.0 in
    record {
      ch = r.0;
      pending = s.pending ++ wakes;
      accepted = s.accepted ++ given x r.1;
      left = s.left ++ waiting_values wakes;
      returned = s.returned;
    }

-- A receive wakes senders only.
abbrev pub after_receive : {D : Type 0} → ℕ → Bool → Session D → Session D
after_receive t block s =
    let r = chan_recv_impl t block s.ch in
    record {
      ch = r.0;
      pending = s.pending;
      accepted = s.accepted;
      left = s.left ++ taken r.1;
      returned = s.returned ++ taken r.1;
    }

-- The woken receiver `w` goes on, and the others stay.
abbrev pub after_resume : {D : Type 0} → ChanWaiter D → List (ChanWaiter D) → Session D → Session D
after_resume w others s =
    let r = chan_recv_resume w s.ch in
    record {
      ch = r.0;
      pending = others;
      accepted = s.accepted;
      left = s.left ++ taken_later w s.ch;
      returned = s.returned ++ taken r.1;
    }

abbrev pub after_close : {D : Type 0} → Session D → Session D
after_close s = record s {
  ch = hpbi_chan_close s.ch;
  pending = s.pending ++ woken_since s.ch (hpbi_chan_close s.ch);
}

pub data SessionStep {D : Type 0} (s : Session D) : Session D → Type 0 where
  sends : (t : ℕ) (x : Hval D) (block : Bool) → SessionStep s (after_send t x block s)
  receives : (t : ℕ) (block : Bool) → SessionStep s (after_receive t block s)
  resumes :
      (pre post : List (ChanWaiter D)) (w : ChanWaiter D)
      → s.pending ≡ pre ++ w ∷ post
      → SessionStep s (after_resume w (pre ++ post) s)
  closes : SessionStep s (after_close s)

pub data IsSession {D : Type 0} : Session D → Type 0 where
  at_first : (c : ℤ) → IsSession (opened c)
  then_step : {s t : Session D} → IsSession s → SessionStep s t → IsSession t

-- How many elements pass a test.
abbrev pub count_if : {A : Type 0} → (A → Bool) → List A → ℕ
count_if p [] = 0
count_if p (x ∷ l) = (if p x then 1 else 0) + count_if p l

pub count_if-append :
    {A : Type 0} (p : A → Bool) (l m : List A) → count_if p (l ++ m) ≡ count_if p l + count_if p m
count_if-append p [] m = omega arith
count_if-append p (x ∷ l) m = omega (arith, count_if-append p l m)

drop_all : {A : Type 0} (l : List A) → drop (length l) l ≡ []
drop_all [] = refl
drop_all (x ∷ l) = drop_all l

pub drop_append : {A : Type 0} (l m : List A) → drop (length l) (l ++ m) ≡ m
drop_append [] m = refl
drop_append (x ∷ l) m = drop_append l m

pub All-append : {A : Type 0} (P : A → Type 0) (l m : List A) → All P l → All P m → All P (l ++ m)
All-append P [] m h k = k
All-append P (x ∷ l) m h k = (h.0, All-append P l m h.1 k)

pub All-without :
    {A : Type 0} (P : A → Type 0) (pre post : List A) (w : A)
    → All P (pre ++ w ∷ post)
    → P w × All P (pre ++ post)
All-without P [] post w h = h
All-without P (x ∷ pre) post w h =
    let (here, rest) = All-without P pre post w h.1 in (here, (h.0, rest))

module _ {D : Type 0} where
  abbrev pub IsDone : ChanWaiter D → Type 0
  IsDone w = w.done ≡ true

  abbrev pub HasNull : ChanWaiter D → Type 0
  HasNull w = w.value ≡ null

  pub is_null_lem : (v : Hval D) → is_null v ≡ true → v ≡ null
  is_null_lem null h = refl
  is_null_lem (int i) h = absurd (cc)
  is_null_lem (float d) h = absurd (cc)
  is_null_lem (bool b) h = absurd (cc)
  is_null_lem (str s) h = absurd (cc)
  is_null_lem (arr a) h = absurd (cc)
  is_null_lem (obj a) h = absurd (cc)
  is_null_lem (clo a) h = absurd (cc)

  nothing_woken : (l : List (ChanWaiter D)) → l ≡ [] → (waiting_values l ≡ []) × All IsDone l
  unfolding waiting_values
  nothing_woken [] e = (refl, tt)
  nothing_woken (w ∷ l) e = absurd (cc)

  -- What a send wakes.
  pub send_wakes :
      {t : ℕ} {block : Bool} {x : Hval D} {ch : ChanRec D} {r : ChanRec D × Sent}
      → SendStep t block x ch r
      → (waiting_values (woken_since ch r.0) ≡ handed_over x r.1)
        × All IsDone (woken_since ch r.0)
        × (All HasNull ch.recvq → All HasNull r.0.recvq)
  unfolding waiting_values chan_put
  send_wakes {ch = ch} (send_closed c) =
      let no = nothing_woken (woken_since ch ch) (drop_all ch.woken) in (no.0, no.1, λ h. h)
  send_wakes {ch = ch} (send_full c e l b) =
      let no = nothing_woken (woken_since ch ch) (drop_all ch.woken) in (no.0, no.1, λ h. h)
  send_wakes {x = x} {ch = ch} (send_handed w r c e) =
      let new = record w { value = x; done = true } in
      let wakes = drop_append ch.woken (new ∷ []) in
      (
        ap waiting_values wakes,
        subst (All IsDone) (sym wakes) (refl, tt),
        λ h. (subst (All HasNull) e h).1,
      )
  send_wakes {ch = ch} (send_buffered c e l) =
      let no = nothing_woken (woken_since ch ch) (drop_all ch.woken) in (no.0, no.1, λ h. h)
  send_wakes {ch = ch} (send_queued c e l b) =
      let no = nothing_woken (woken_since ch ch) (drop_all ch.woken) in (no.0, no.1, λ h. h)

  pub recv-HasNull :
      {t : ℕ} {ch : ChanRec D} {r : ChanRec D × Received D}
      → RecvStep t ch r
      → All HasNull ch.recvq
      → All HasNull r.0.recvq
  unfolding chan_put chan_advance chan_waiter_new
  recv-HasNull (recv_ring n e) h = h
  recv-HasNull (recv_refill w r n e) h = h
  recv-HasNull (recv_sender w r n e) h = h
  recv-HasNull (recv_failed n e) h = h
  recv-HasNull {ch = ch} (recv_waits n e c) h = All-append HasNull ch.recvq _ h (refl, tt)

  pub unlink-HasNull : (t : ℕ) (q : List (ChanWaiter D)) → All HasNull q → All HasNull (unlink t q)
  unfolding unlink
  unlink-HasNull t [] h = h
  unlink-HasNull t (w ∷ q) h =
      if_lem (λ (l : List (ChanWaiter D)). All HasNull l) (w.thread == t) (λ e. h.1)
        (λ e. (h.0, unlink-HasNull t q h.1))

  pub wake_all-IsDone : (q : List (ChanWaiter D)) → All IsDone (wake_all q)
  unfolding wake_all
  wake_all-IsDone [] = tt
  wake_all-IsDone (w ∷ q) = (refl, wake_all-IsDone q)

  pub wake_all_nulls :
      (p : Hval D → Bool) (q : List (ChanWaiter D))
      → p null ≡ false
      → All HasNull q
      → count_if p (waiting_values (wake_all q)) ≡ 0
  unfolding wake_all waiting_values
  wake_all_nulls p [] n h = refl
  wake_all_nulls p (w ∷ q) n h = rw (h.0, n) (omega (arith, wake_all_nulls p q n h.1))
