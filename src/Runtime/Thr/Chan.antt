-- ===== src/Runtime/Thr/Chan.antt =====
-- The channels of src/hphpc/runtime/hphp_thr.c. A `ChanRec` with its waiters is one state, and a section
-- of the code that runs under `ch->mu` is one operation on it. `woken` lists the waiters that were
-- unlinked with `done` set, the latest last. A pass of the loop of
-- `chan_recv_impl` ends with a result or with the wait. A sender that resumes from its wait returns true and
-- leaves the channel as it is. Memory is not modelled: a waiter is a value.
pub mod Step
pub mod Ring
pub mod Valid
pub mod Contents
pub mod Fifo
pub mod History
pub mod Delivered
pub mod Conserved
mod Tests
use holyphp.Prelude.{
  Bool, List, Option, [], false, get_or, if◌then◌else◌, length, ltb, none, not, replicate, set,
  some, true, ℕ, ◌%◌, ◌&&◌, ◌++◌, ◌+◌, ◌-◌, ◌==◌, ◌∷◌,
}
use holyphp.Prelude.Int.{negsuc, pos, ℤ}
use holyphp.Runtime.Value.{Hval, null}

-- A thread waits on one waiter at a time, so that the thread's number names the waiter.
pub record ChanWaiter (D : Type 0) : Type 0 where
  pub thread : ℕ
  pub value : Hval D
  pub done : Bool

pub record ChanRec (D : Type 0) : Type 0 where
  pub cap : ℕ
  pub len : ℕ
  pub head : ℕ
  pub tail : ℕ
  pub buf : List (Hval D)
  pub closed : Bool
  pub sendq : List (ChanWaiter D)
  pub recvq : List (ChanWaiter D)
  pub woken : List (ChanWaiter D)

-- How a send leaves the lock: it gave its value to a waiting receiver, put it into the ring, waits in
-- `sendq`, or returned false. The first two return true.
pub data Sent : Type 0 where
  handed buffered queued refused : Sent

-- How a pass of the receive loop ends: with a value, with false, or with the wait in `recvq`.
pub data Received (D : Type 0) : Type 0 where
  got : Hval D → Received D
  failed waits : Received D

unfoldable pub chan_waiter_new : {D : Type 0} → ℕ → Hval D → ChanWaiter D
chan_waiter_new t v = record { thread = t; value = v; done = false }

unfoldable pub chan_pop :
    {D : Type 0} → List (ChanWaiter D) → Option (ChanWaiter D × List (ChanWaiter D))
chan_pop [] = none
chan_pop (w ∷ q) = some (w, q)

-- A capacity below 0 becomes 0.
abbrev pub capacity : ℤ → ℕ
capacity (pos n) = n
capacity (negsuc n) = 0

-- `calloc` fills the ring with nulls.
unfoldable pub hpbi_chan_new : {D : Type 0} → ℤ → ChanRec D
hpbi_chan_new c = record {
  cap = capacity c;
  len = 0;
  head = 0;
  tail = 0;
  buf = replicate (capacity c) null;
  closed = false;
  sendq = [];
  recvq = [];
  woken = [];
}

abbrev pub next_pos : ℕ → ℕ → ℕ
next_pos n i = (i + 1) % n

-- `ch->buf[ch->tail] = v`, and the tail and the length move on.
unfoldable pub chan_put : {D : Type 0} → Hval D → ChanRec D → ChanRec D
chan_put v ch = record ch {
  buf = set (ch.buf) (ch.tail) v;
  tail = next_pos (ch.cap) (ch.tail);
  len = ch.len + 1;
}

-- The head of the ring leaves it.
unfoldable pub chan_advance : {D : Type 0} → ChanRec D → ChanRec D
chan_advance ch = record ch { head = next_pos (ch.cap) (ch.head); len = ch.len - 1 }

-- `chan_send_impl` on an open channel, with what it popped from `recvq`.
unfoldable pub send_open :
    {D : Type 0}
    → ℕ
    → Hval D
    → Bool
    → ChanRec D
    → Option (ChanWaiter D × List (ChanWaiter D))
    → ChanRec D × Sent
unfolding chan_put chan_waiter_new
send_open t v block ch (some (rw, q)) =
    (record ch { recvq = q; woken = ch.woken ++ record rw { value = v; done = true } ∷ [] }, handed)
send_open t v block ch none =
    if ltb 0 ch.cap && ltb ch.len ch.cap
    then (chan_put v ch, buffered)
    else if not block
    then (ch, refused)
    else (record ch { sendq = ch.sendq ++ chan_waiter_new t v ∷ [] }, queued)

unfoldable pub chan_send_impl : {D : Type 0} → ℕ → Hval D → Bool → ChanRec D → ChanRec D × Sent
unfolding chan_pop send_open
chan_send_impl t v block ch =
    if ch.closed then (ch, refused) else send_open t v block ch (chan_pop ch.recvq)

-- A receive from the ring, with what it popped from `sendq`.
unfoldable pub recv_ready :
    {D : Type 0} → ChanRec D → Option (ChanWaiter D × List (ChanWaiter D)) → ChanRec D × Received D
unfolding chan_put chan_advance
recv_ready ch none = (chan_advance ch, got (get_or ch.buf ch.head null))
recv_ready ch (some (sw, q)) = (
  record (chan_put sw.value (chan_advance ch)) {
    sendq = q;
    woken = ch.woken ++ record sw { done = true } ∷ [];
  },
  got (get_or ch.buf ch.head null),
)

-- A receive when the ring is empty.
unfoldable pub recv_empty :
    {D : Type 0}
    → ℕ
    → Bool
    → ChanRec D
    → Option (ChanWaiter D × List (ChanWaiter D))
    → ChanRec D × Received D
unfolding chan_waiter_new
recv_empty t block ch (some (sw, q)) =
    (record ch { sendq = q; woken = ch.woken ++ record sw { done = true } ∷ [] }, got sw.value)
recv_empty t block ch none =
    if ch.closed
    then (ch, failed)
    else if not block
    then (ch, failed)
    else (record ch { recvq = ch.recvq ++ chan_waiter_new t null ∷ [] }, waits)

-- One pass of the loop of `chan_recv_impl`.
unfoldable pub chan_recv_impl : {D : Type 0} → ℕ → Bool → ChanRec D → ChanRec D × Received D
unfolding chan_pop recv_ready recv_empty
chan_recv_impl t block ch =
    if ltb 0 ch.len
    then recv_ready ch (chan_pop ch.sendq)
    else recv_empty t block ch (chan_pop ch.sendq)

-- A receiver removes its waiter from the queue.
unfoldable pub unlink : {D : Type 0} → ℕ → List (ChanWaiter D) → List (ChanWaiter D)
unlink t [] = []
unlink t (w ∷ q) = if w.thread == t then q else w ∷ unlink t q

-- `w.value.tag == HV_NULL`
abbrev pub is_null : {D : Type 0} → Hval D → Bool
is_null null = true
is_null v = false

-- What a receiver does with its waiter `w` when its wait is over, up to its return or the next wait.
unfoldable pub chan_recv_resume : {D : Type 0} → ChanWaiter D → ChanRec D → ChanRec D × Received D
unfolding chan_recv_impl unlink
chan_recv_resume w ch =
    let ch' = record ch { recvq = unlink (w.thread) (ch.recvq) } in
    if w.done && not (is_null (w.value))
    then (ch', got (w.value))
    else if ch'.closed && (ch'.len == 0) && (length (ch'.sendq) == 0)
    then (ch', failed)
    else chan_recv_impl (w.thread) true ch'

unfoldable pub wake_all : {D : Type 0} → List (ChanWaiter D) → List (ChanWaiter D)
wake_all [] = []
wake_all (w ∷ q) = record w { done = true } ∷ wake_all q

unfoldable pub hpbi_chan_close : {D : Type 0} → ChanRec D → ChanRec D
unfolding wake_all
hpbi_chan_close ch = record ch {
  closed = true;
  recvq = [];
  woken = ch.woken ++ wake_all (ch.recvq);
}
