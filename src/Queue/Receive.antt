-- ===== src/Queue/Receive.antt =====
-- `osa_queue_receive`: what a call does on every branch, waits included.
use open_hsm.Base.{
  ℕ, Bool, ◌<◌, ◌≡◌, ◌≢◌, inl, inr, refl, ◌∙◌, true, false, not, ◌&&◌, none, some, List, ◌∷◌, ◌++◌,
  arith, ℤ, pos, negsuc, minus, is_neg, epipe, eagain, einval, ◌⊎◌, if◌then◌else◌, etimedout,
  Bool-cases, ◌==◌, All,
}
use open_hsm.Queue.{
  Queue, Wake, Waited, ready, quit, asleep, returned, blocked, Received, empty, wait_for, read_slot,
  receive_ready, receive,
}
use open_hsm.Queue.Valid.{read_slot-IsValid}
use open_hsm.Queue.Wait.{Spurious, Ends, wait_for-woken}
use open_hsm.Queue.Fifo.{contents, contents-read_slot}
use open_hsm.Queue.Send.{
  Of, Found, Seen, Among-self, Among-Found, Waits, GivesUp, TimedOut, wait_for-Waits,
}

and-false : (b : Bool) → (b && false) ≡ false
and-false true = refl
and-false false = refl

-- Why a receive has no message, by its code: no buffer or one of the wrong size, a queue that is closed
-- and empty, an empty one at timeout 0, a timed wait that ran out.
abbrev pub Unreceived :
    (found : Queue) (out : Bool) (msg_len : ℕ) (t : ℤ) → List Wake → ℤ → Queue → Type 0
Unreceived found out msg_len t ws c q' =
    ((c ≡ minus einval) × ((out ≡ false) ⊎ (msg_len ≢ found.msg_size)))
    ⊎ (((c ≡ minus epipe) × (q'.closed ≡ true) × (q'.count ≡ 0))
        ⊎ (((c ≡ minus eagain) × (q'.count ≡ 0))
            ⊎ ((c ≡ minus etimedout) × (is_neg t ≡ false) × TimedOut ws)))

-- A call that found the queue `found` at first, and then those of the wakes. Success takes the oldest
-- message off a queue that it found; failure leaves a queue as it was found, and the buffer alone. A
-- call that still waits found an open queue that is empty.
abbrev pub ReceiveResult :
    (size : ℕ) → (found : Queue) (out : Bool) (msg_len : ℕ) (t : ℤ) → List Wake → Received → Type 0
ReceiveResult size found out msg_len t ws blocked =
    (q : Queue) × Seen size found ws q × (q.count ≡ 0) × (q.closed ≡ false)
ReceiveResult size found out msg_len t ws (returned (c, msg, none)) = ⊥
ReceiveResult size found out msg_len t ws (returned (c, none, some q')) =
    Seen size found ws q' × Unreceived found out msg_len t ws c q'
ReceiveResult size found out msg_len t ws (returned (c, some msg, some q')) =
    (c ≡ pos 0)
    × (out ≡ true)
    × (msg_len ≡ found.msg_size)
    × Of size q'
    × ((q : Queue) × Seen size found ws q × (contents q ≡ msg ∷ contents q'))

msg_size-read_slot : (q : Queue) → (read_slot q).1.msg_size ≡ q.msg_size
unfolding read_slot
msg_size-read_slot q = refl

module _ (size : ℕ) (found : Queue) (ws : List Wake) where
  receive_ready-ReceiveResult :
      (t : ℤ) (w : Waited)
      → Waits (Seen size found ws) empty (GivesUp empty t ws) w
      → ReceiveResult size found true found.msg_size t ws (receive_ready w)
  unfolding receive_ready
  receive_ready-ReceiveResult t asleep (q, p, nothing, opened) =
      (q, p, ground (arith, nothing), opened)
  receive_ready-ReceiveResult t (quit e q) (p, inl (c, _, nothing)) =
      (p, inr (inr (inl (c, ground (arith, nothing)))))
  receive_ready-ReceiveResult t (quit e q) (p, inr late) = (p, inr (inr (inr late)))
  receive_ready-ReceiveResult t (ready q) p = elim (Bool-cases (q.count == 0)) [
    | inl nothing ↦
        let zero_count : q.count ≡ 0 = ground (arith, nothing) in
        elim (Bool-cases q.closed) [
          | inl shut ↦ simp (nothing, shut) (p, inr (inl (refl, refl, zero_count)))
          | inr opened ↦ simp (nothing, opened) (p, inr (inr (inl (refl, zero_count))))
        ]
    | inr there ↦
        let some_there : 0 < q.count = ground arith in
        simp (there, and-false)
          (
            refl,
            refl,
            refl,
            (read_slot-IsValid p.0.0 some_there, msg_size-read_slot q ∙ p.0.1),
            (q, p, contents-read_slot p.0.0 some_there),
          )
  ]

  -- Whatever other threads do while the call waits, as long as they leave valid queues: a receive
  -- that hands out a message returns 0, was given a buffer of the queue's message size, and has taken
  -- the message, the oldest, and nothing else off a queue that it found, at first or at one of its
  -- wakes. Any other return hands on such a queue as it found it, with EINVAL for no buffer or another
  -- size, EPIPE if that queue is closed and empty, EAGAIN if it is empty, or ETIMEDOUT if a wait with a
  -- timeout ran out. One that still waits has found an open queue that is empty.
  pub receive_lem :
      (out : Bool) (msg_len : ℕ) (t : ℤ)
      → Of size found
      → Found (Of size) ws
      → ReceiveResult size found out msg_len t ws (receive (some found) out msg_len t ws)
  unfolding receive
  receive_lem false msg_len t p ps = ((p, Among-self found ws), inl (refl, inl refl))
  receive_lem true msg_len t p ps =
      let seen : Seen size found ws found = (p, Among-self found ws) in
      elim (Bool-cases (not (msg_len == found.msg_size))) [
        | inl other ↦ simp other (seen, inl (refl, inr (ground (arith, other))))
        | inr fits ↦
            let same : msg_len ≡ found.msg_size = ground (arith, fits) in
            elim (Bool-cases (found.closed && (found.count == 0))) [
              | inl drained ↦
                  simp (fits, drained)
                    (seen, inr (inl (refl, ground (arith, drained), ground (arith, drained))))
              | inr goes_on ↦
                  simp (fits, goes_on)
                    (rw same (
                      receive_ready-ReceiveResult t (wait_for empty t found ws) (
                        wait_for-Waits (Seen size found ws) empty t found ws seen
                          (Among-Found (Of size) found ws ps))))
            ]
      ]

module _ (q : Queue) (t : ℤ) (before after : List Wake) (w : Wake) where
  -- A receiver that finds an open queue empty and may wait comes back at the first wake that finds
  -- a message or a closed queue, if no earlier wake timed out: with ETIMEDOUT if its timed wait ran
  -- out at that wake, else with EPIPE if the queue was closed and empty, else with 0 and the message
  -- at the head of the queue that the wake found.
  pub receive-woken :
      t ≢ pos 0
      → (empty q ≡ true) × (q.closed ≡ false)
      → All (Spurious empty) before
      → Ends empty w
      → receive (some q) true q.msg_size t (before ++ w ∷ after) ≡ (
          if not (is_neg t) && (w.status == etimedout)
          then returned (minus etimedout, none, some w.queue)
          else if empty w.queue
          then returned (minus epipe, none, some w.queue)
          else returned (pos 0, some (read_slot w.queue).0, some (read_slot w.queue).1))
  unfolding receive receive_ready
  receive-woken nz o a e = ground (arith, wait_for-woken empty t q before after w nz o a e)

-- Messages are handed out until the queue is empty, also when it is closed; then, at once and at any
-- timeout, a closed queue answers EPIPE.
pub receive-closed :
    (q : Queue) (t : ℤ) (ws : List Wake)
    → q.closed ≡ true
    → receive (some q) true q.msg_size t ws ≡ (
        if empty q
        then returned (minus epipe, none, some q)
        else returned (pos 0, some (read_slot q).0, some (read_slot q).1))
unfolding receive receive_ready wait_for
receive-closed q (pos t) ws shut = ground arith
receive-closed q (negsuc n) ws shut = ground arith

-- A receiver that finds a message does not wait, at any timeout.
pub receive-there :
    (q : Queue) (t : ℤ) (ws : List Wake)
    → 0 < q.count
    → receive (some q) true q.msg_size t ws
      ≡ returned (pos 0, some (read_slot q).0, some (read_slot q).1)
unfolding receive receive_ready wait_for
receive-there q (pos t) ws there = ground arith
receive-there q (negsuc n) ws there = ground arith
