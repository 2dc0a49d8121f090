-- ===== src/Runtime/Thr/Chan/Tests.antt =====
-- Concrete channels of src/hphpc/runtime/hphp_thr.c.
use holyphp.Prelude.{Bool, [], false, length, refl, true, ℕ, ◌++◌, ◌+◌, ◌∷◌, ◌≡◌}
use holyphp.Prelude.Int.{pos}
use holyphp.Runtime.Value.{Hval, int, null}
use holyphp.Runtime.Thr.Chan.{
  ChanRec, ChanWaiter, chan_recv_impl, chan_recv_resume, chan_send_impl, hpbi_chan_new, waits,
}
use holyphp.Runtime.Thr.Chan.Valid.{IsValid}
use holyphp.Runtime.Thr.Chan.Contents.{contents, waiting_values}
use holyphp.Runtime.Thr.Chan.Delivered.{
  IsSession, Session, after_receive, after_resume, after_send, at_first, count_if, opened, receives,
  resumes, sends, then_step,
}
use holyphp.Runtime.Thr.Chan.Conserved.{Session-delivers}
use holyphp.Runtime.Thr.Chan.Fifo.{
  chan_recv_impl-take_first, chan_send_impl-offer, offer, received, take_first, takes,
}
use holyphp.Runtime.Thr.Chan.History.{
  History, History-IsValid, created, drain, drain-contents, sent,
}

abbrev num : ℕ → Hval ℕ
num n = int (pos n)

-- One slot, one value in it, and a sender that waits.
abbrev after_one : ChanRec ℕ
after_one = (chan_send_impl 1 (num 5) true (hpbi_chan_new (pos 1))).0

abbrev after_two : ChanRec ℕ
after_two = (chan_send_impl 2 (num 6) true after_one).0

two_sent : History after_two
unfolding chan_send_impl hpbi_chan_new
two_sent = sent 2 (num 6) true (sent 1 (num 5) true (created (pos 1)))

abbrev after_null : ChanRec ℕ
after_null = (chan_recv_impl 3 true (hpbi_chan_new (pos 0))).0

-- A null that is handed to a waiting receiver does not end its wait.
null_lost :
    (chan_recv_resume
      (record { thread = 3; value = null; done = true })
      ((chan_send_impl 4 null true after_null).0)).1
    ≡ waits
unfolding chan_recv_resume chan_send_impl hpbi_chan_new
null_lost = refl

after_two-contents : contents after_two ≡ num 5 ∷ num 6 ∷ []
unfolding contents chan_send_impl hpbi_chan_new
after_two-contents = refl

History-IsValid_example : IsValid after_two
History-IsValid_example = History-IsValid two_sent

-- A receiver waits, a value is handed to it, a second value waits in a sender, and the receiver goes on.
abbrev one_asks : Session ℕ
one_asks = after_receive 3 true (opened (pos 0))

abbrev handed_five : Session ℕ
handed_five = after_send 4 (num 5) true one_asks

abbrev six_waits : Session ℕ
six_waits = after_send 5 (num 6) true handed_five

abbrev woken_receiver : ChanWaiter ℕ
woken_receiver = record { thread = 3; value = num 5; done = true }

abbrev five_returned : Session ℕ
five_returned = after_resume woken_receiver [] six_waits

five_returned-IsSession : IsSession five_returned
unfolding chan_recv_impl chan_send_impl hpbi_chan_new
five_returned-IsSession =
    then_step
      (then_step (then_step (then_step (at_first (pos 0)) (receives 3 true)) (sends 4 (num 5) true))
        (sends 5 (num 6) true))
      (resumes [] [] woken_receiver refl)

returned_run : five_returned.returned ≡ num 5 ∷ []
unfolding chan_recv_resume chan_recv_impl chan_send_impl hpbi_chan_new
returned_run = refl

Session-delivers_example :
    (five_returned.accepted ≡ five_returned.left ++ contents five_returned.ch)
    × ((p : Hval ℕ → Bool)
        → p null ≡ false
        → count_if p five_returned.left
          ≡ count_if p five_returned.returned + count_if p (waiting_values five_returned.pending))
Session-delivers_example = Session-delivers five_returned-IsSession

chan_send_impl-offer_example :
    (
      contents ((chan_send_impl 7 (num 8) false after_two).0),
      takes ((chan_send_impl 7 (num 8) false after_two).1),
    )
    ≡ offer after_two.closed
        (length after_two.recvq)
        after_two.cap
        false
        (num 8)
        (contents after_two)
chan_send_impl-offer_example =
    chan_send_impl-offer 7 (num 8) false after_two (History-IsValid two_sent)

chan_recv_impl-take_first_example :
    (contents ((chan_recv_impl 7 true after_two).0), received ((chan_recv_impl 7 true after_two).1))
    ≡ take_first (contents after_two)
chan_recv_impl-take_first_example =
    chan_recv_impl-take_first 7 true after_two (History-IsValid two_sent)

drain-contents_example :
    ((drain (length (contents after_two)) after_two).0 ≡ contents after_two)
    × (contents ((drain (length (contents after_two)) after_two).1) ≡ [])
drain-contents_example = drain-contents after_two (History-IsValid two_sent)
