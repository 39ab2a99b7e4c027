-- ===== src/Queue/System/Safety.antt =====
-- What holds in every state that threads which share a queue can reach.
use open_hsm.Base.{
  ℕ, ◌<◌, ◌≡◌, inl, inr, refl, ap, [], ◌++◌, arith, update, total-pos, total-zero, le-total,
}
use open_hsm.Queue.{Queue}
use open_hsm.Queue.Valid.{IsValid}
use open_hsm.Queue.Fifo.{contents}
use open_hsm.Queue.Trace.{IsOpen}
use open_hsm.Queue.System.{
  Sending, Receiving, Pc, outside, send_asleep, send_woken, receive_asleep, receive_woken,
  sleeping_senders, woken_senders, sleeping_receivers, woken_receivers, roused, System, Step,
  send_sleeps, send_fails, send_done, receive_sleeps, receive_fails, receive_done, send_overruns,
  receive_overruns, stirs, Reach, here, later,
}
use open_hsm.Queue.System.Invariant.{Inv, update-Waits, roused-Waits, roused-weights, total-moves}
use open_hsm.Queue.System.Senders.{
  send_sleeps-Inv, send_fails-Inv, send_overruns-Inv, send_done-Inv,
}
use open_hsm.Queue.System.Receivers.{
  receive_sleeps-Inv, receive_fails-Inv, receive_overruns-Inv, receive_done-Inv,
}

-- No thread is in a call.
abbrev pub starting : Queue → System
starting q = record {
  queue = q;
  pc = λ i. outside;
  accepted = contents q;
  delivered = [];
  lost = 0;
}

-- A thread sleeps while its queue has what it waits for.
abbrev pub Misses : Queue → Pc → Type 0
Misses q (receive_asleep c) = 0 < q.count
Misses q (send_asleep c) = q.count < q.max_msgs
Misses q _ = ⊥

-- The second thread has been woken from the wait that the first one is in.
abbrev pub Relieves : Pc → Pc → Type 0
Relieves (receive_asleep c) (receive_woken d) = Unit
Relieves (send_asleep c) (send_woken d) = Unit
Relieves _ _ = ⊥

module _ (size cap n : ℕ) where
  stirs-Inv :
      {s : System} (i : ℕ)
      → i < n
      → Inv size cap n s
      → Inv size cap n (record s { pc = update s.pc i (roused (s.pc i)) })
  stirs-Inv {s} i lt inv =
      let (a, b, c, d) = roused-weights (s.pc i) in
      let (r, r', w, w') = total-moves n s.pc i lt (roused (s.pc i)) in
      record {
        is_open = inv.is_open;
        fifo = inv.fifo;
        waits =
            update-Waits size s.pc i (roused (s.pc i)) inv.waits
              (roused-Waits size (s.pc i) (inv.waits i));
        receivers = ground (arith, inv.receivers, r, r', a, c);
        senders = ground (arith, inv.senders, w, w', b, d);
      }

  Step-Inv : {s t : System} → Step n s t → Inv size cap n s → Inv size cap n t
  Step-Inv (send_sleeps i c lt g e) inv = send_sleeps-Inv inv i lt g e
  Step-Inv (send_fails i c code q lt g e neg) inv = send_fails-Inv inv i lt code q g e neg
  Step-Inv (send_done i c q pc' lt g e sig) inv = send_done-Inv inv i lt q pc' g e sig
  Step-Inv (receive_sleeps i c lt g e) inv = receive_sleeps-Inv inv i lt g e
  Step-Inv (receive_fails i c code q lt g e) inv = receive_fails-Inv inv i lt code q g e
  Step-Inv (receive_done i c m q pc' lt g e sig) inv = receive_done-Inv inv i lt m q pc' g e sig
  Step-Inv (send_overruns i c code q lt at timed e) inv =
      send_overruns-Inv inv i lt c code q at timed e
  Step-Inv (receive_overruns i c code q lt at timed e) inv =
      receive_overruns-Inv inv i lt c code q at timed e
  Step-Inv (stirs i lt) inv = stirs-Inv i lt inv

  module _ (q : Queue) (o : IsOpen size cap q) where
    starting-Inv : Inv size cap n (starting q)
    starting-Inv = record {
      is_open = o;
      fifo = refl;
      waits = λ i. tt;
      receivers = inr (inl (total-zero sleeping_receivers n (λ i. outside) (λ i. refl)));
      senders = inr (inl (total-zero sleeping_senders n (λ i. outside) (λ i. refl)));
    }

    Reach-Inv : {t : System} → Reach n (starting q) t → Inv size cap n t
    Reach-Inv here = starting-Inv
    Reach-Inv (later r st) = Step-Inv st (Reach-Inv r)

    -- However the calls of `n` threads interleave on an open queue, with waits, timeouts and spurious
    -- wakes: the messages that it held at first, followed by those whose sends returned 0, in the order
    -- of these returns, are those that receives have handed out, in their order, followed by those
    -- that the queue holds; and the queue is valid.
    pub threads_fifo :
        {t : System}
        → Reach n (starting q) t
        → (t.accepted ≡ t.delivered ++ contents t.queue) × IsValid t.queue
    threads_fifo r = let inv = Reach-Inv r in (inv.fifo, inv.is_open.valid)

    woken_receiver : (p : Pc) → 0 < woken_receivers p → (c : Receiving) × (p ≡ receive_woken c)
    woken_receiver (receive_woken c) h = (c, refl)
    woken_receiver outside h = absurd (omega (arith, h))
    woken_receiver (send_asleep c) h = absurd (omega (arith, h))
    woken_receiver (send_woken c) h = absurd (omega (arith, h))
    woken_receiver (receive_asleep c) h = absurd (omega (arith, h))

    woken_sender : (p : Pc) → 0 < woken_senders p → (c : Sending) × (p ≡ send_woken c)
    woken_sender (send_woken c) h = (c, refl)
    woken_sender outside h = absurd (omega (arith, h))
    woken_sender (receive_woken c) h = absurd (omega (arith, h))
    woken_sender (send_asleep c) h = absurd (omega (arith, h))
    woken_sender (receive_asleep c) h = absurd (omega (arith, h))

    awake_receiver :
        {t : System}
        → Inv size cap n t
        → t.lost ≡ 0
        → (i : ℕ) (c : Receiving) → i < n
        → t.pc i ≡ receive_asleep c
        → 0 < t.queue.count
        → (k : ℕ) × (k < n) × ((d : Receiving) × (t.pc k ≡ receive_woken d))
    awake_receiver {t} inv kept i c lt at there =
        let one_sleeps = le-total sleeping_receivers n t.pc i lt in
        let weight : sleeping_receivers (t.pc i) ≡ 1 = ap sleeping_receivers at in
        let (k, k_lt, w) =
          total-pos woken_receivers n t.pc
            (ground (arith, inv.receivers, kept, one_sleeps, weight)) in
        (k, k_lt, woken_receiver (t.pc k) w)

    awake_sender :
        {t : System}
        → Inv size cap n t
        → t.lost ≡ 0
        → (i : ℕ) (c : Sending) → i < n
        → t.pc i ≡ send_asleep c
        → t.queue.count < cap
        → (k : ℕ) × (k < n) × ((d : Sending) × (t.pc k ≡ send_woken d))
    awake_sender {t} inv kept i c lt at room =
        let one_sleeps = le-total sleeping_senders n t.pc i lt in
        let weight : sleeping_senders (t.pc i) ≡ 1 = ap sleeping_senders at in
        let (k, k_lt, w) =
          total-pos woken_senders n t.pc (ground (arith, inv.senders, kept, one_sleeps, weight)) in
        (k, k_lt, woken_sender (t.pc k) w)

    relieved :
        {t : System}
        → Inv size cap n t
        → t.lost ≡ 0
        → (i : ℕ) (p : Pc) → i < n
        → t.pc i ≡ p
        → Misses t.queue p
        → (k : ℕ) × (k < n) × Relieves p (t.pc k)
    relieved {t} inv kept i (receive_asleep c) lt at there =
        let (k, k_lt, (d, woken)) = awake_receiver inv kept i c lt at there in
        (k, k_lt, rw woken tt)
    relieved {t} inv kept i (send_asleep c) lt at room =
        let (k, k_lt, (d, woken)) =
          awake_sender inv kept i c lt at (omega (arith, room, inv.is_open.capped)) in
        (k, k_lt, rw woken tt)
    relieved inv kept i outside lt at h = absurd h
    relieved inv kept i (receive_woken c) lt at h = absurd h
    relieved inv kept i (send_woken c) lt at h = absurd h

    -- In every state that the threads reach in which `lost` is 0, that is, no wait that was woken has
    -- come back with ETIMEDOUT so far: if a receiver sleeps while a message waits, some receiver has
    -- been woken and is about to look at the queue; and if a sender sleeps while there is room, so has
    -- some sender.
    pub wakes_suffice :
        {t : System}
        → Reach n (starting q) t
        → t.lost ≡ 0
        → (i : ℕ) → i < n
        → Misses t.queue (t.pc i)
        → (k : ℕ) × (k < n) × Relieves (t.pc i) (t.pc k)
    wakes_suffice {t} r kept i lt h = relieved (Reach-Inv r) kept i (t.pc i) lt refl h
