-- ===== src/Queue/Send.antt =====
-- `osa_queue_send`: what a call does on every branch, waits included.
use open_hsm.Base.{
  ℕ, Bool, ◌≤◌, ◌<◌, ◌≡◌, ◌≢◌, ◌⊎◌, inl, inr, refl, ap, ◌∙◌, true, false, not, ◌&&◌, none, some,
  List, [], ◌∷◌, ◌++◌, arith, length, take, ℤ, pos, negsuc, minus, is_neg, epipe, eagain, einval,
  if◌then◌else◌, etimedout, Bool-cases, ◌==◌, All,
}
use open_hsm.Queue.{
  Queue, Message, Wake, Waited, ready, quit, asleep, returned, blocked, Sent, full, wait_while,
  wait_for, write_slot, send_ready, send,
}
use open_hsm.Queue.Valid.{IsValid, write_slot-IsValid}
use open_hsm.Queue.Wait.{Spurious, Ends, wait_for-woken}
use open_hsm.Queue.Fifo.{contents, contents-write_slot}

-- Every queue that a wait found satisfies `P`.
abbrev pub Found : (Queue → Type 0) → List Wake → Type 0
Found P ws = All (λ w. P w.queue) ws

-- One of the queues that a call found: at first, or at one of its wakes.
abbrev pub Among : Queue → List Wake → Queue → Type 0
Among q [] q' = q' ≡ q
Among q (w ∷ ws) q' = (q' ≡ q) ⊎ Among w.queue ws q'

pub Among-self : (q : Queue) (ws : List Wake) → Among q ws q
Among-self q [] = refl
Among-self q (w ∷ ws) = inl refl

All-map : {P Q : Wake → Type 0} (ws : List Wake) → ((w : Wake) → P w → Q w) → All P ws → All Q ws
All-map [] f a = tt
All-map (w ∷ ws) f a = (f w a.0, All-map ws f a.1)

pub Among-Found :
    (P : Queue → Type 0) (q : Queue) (ws : List Wake)
    → Found P ws
    → Found (λ q'. P q' × Among q ws q') ws
Among-Found P q [] ps = tt
Among-Found P q (w ∷ ws) ps = (
  (ps.0, inr (Among-self w.queue ws)),
  All-map ws (λ v a. (a.0, inr a.1)) (Among-Found P w.queue ws ps.1),
)

-- One of the waits came back with ETIMEDOUT.
abbrev pub TimedOut : List Wake → Type 0
TimedOut [] = ⊥
TimedOut (w ∷ ws) = (w.status ≡ etimedout) ⊎ TimedOut ws

-- A wait that goes on holds such a queue; one that gives up does so for a reason; and one that sleeps on
-- has found an open queue that it waits for.
abbrev pub Waits : (Queue → Type 0) → (Queue → Bool) → (ℤ → Queue → Type 0) → Waited → Type 0
Waits P held R (ready q) = P q
Waits P held R (quit e q) = P q × R e q
Waits P held R asleep = (q : Queue) × P q × (held q ≡ true) × (q.closed ≡ false)

Waits-map :
    (P : Queue → Type 0) (held : Queue → Bool) (R S : ℤ → Queue → Type 0)
    → ((e : ℤ) (q : Queue) → R e q → S e q)
    → (w : Waited) → Waits P held R w
    → Waits P held S w
Waits-map P held R S f (ready q) h = h
Waits-map P held R S f (quit e q) h = (h.0, f e q h.1)
Waits-map P held R S f asleep h = h

-- A wait at timeout 0 gives up at once; a timed one when it runs out.
abbrev pub GivesUp : (Queue → Bool) → ℤ → List Wake → ℤ → Queue → Type 0
GivesUp held t ws e q =
    ((e ≡ minus eagain) × (t ≡ pos 0) × (held q ≡ true))
    ⊎ ((e ≡ minus etimedout) × (is_neg t ≡ false) × TimedOut ws)

module _ (P : Queue → Type 0) (held : Queue → Bool) where
  abbrev RunsOut : Bool → List Wake → ℤ → Queue → Type 0
  RunsOut timed ws e q = (e ≡ minus etimedout) × (timed ≡ true) × TimedOut ws

  wait_while-Waits :
      (timed : Bool) (q : Queue) (ws : List Wake)
      → P q
      → Found P ws
      → Waits P held (RunsOut timed ws) (wait_while held timed q ws)
  unfolding wait_while
  wait_while-Waits timed q [] p ps = elim (Bool-cases (held q && not q.closed)) [
    | inl on ↦ simp on (q, p, ground (arith, on), ground (arith, on))
    | inr off ↦ simp off p
  ]
  wait_while-Waits timed q (w ∷ ws) p ps = elim (Bool-cases (held q && not q.closed)) [
    | inr off ↦ simp off p
    | inl on ↦ elim (Bool-cases (timed && (w.status == etimedout))) [
      | inl out ↦ simp (on, out) (ps.0, (refl, ground (arith, out), inl (ground (arith, out))))
      | inr again ↦
          simp (on, again)
            (Waits-map P held (RunsOut timed ws) (RunsOut timed (w ∷ ws))
              (λ e q' h. (h.0, h.1, inr h.2)) (wait_while held timed w.queue ws)
              (wait_while-Waits timed w.queue ws ps.0 ps.1))
    ]
  ]

  pub wait_for-Waits :
      (t : ℤ) (q : Queue) (ws : List Wake)
      → P q
      → Found P ws
      → Waits P held (GivesUp held t ws) (wait_for held t q ws)
  unfolding wait_for
  wait_for-Waits (pos t) q ws p ps = elim (Bool-cases (held q)) [
    | inr off ↦ simp off p
    | inl on ↦ elim (Bool-cases (t == 0)) [
      | inl now ↦ simp (on, now) (p, inl (refl, ap pos (ground (arith, now)), refl))
      | inr later ↦
          simp (on, later)
            (Waits-map P held (RunsOut true ws) (GivesUp held (pos t) ws)
              (λ e q' h. inr (h.0, refl, h.2)) (wait_while held true q ws)
              (wait_while-Waits true q ws p ps))
    ]
  ]
  wait_for-Waits (negsuc n) q ws p ps = elim (Bool-cases (held q)) [
    | inr off ↦ simp off p
    | inl on ↦ simp on (
        Waits-map P held (RunsOut false ws) (GivesUp held (negsuc n) ws)
          (λ e q' h. ground (arith, h.1)) (wait_while held false q ws)
          (wait_while-Waits false q ws p ps))
  ]

-- The queues that other threads may leave: valid, with messages of `size` bytes.
abbrev pub Of : ℕ → Queue → Type 0
Of size q = IsValid q × (q.msg_size ≡ size)

msg_size-write_slot : (q : Queue) (msg : Message) → (write_slot q msg).msg_size ≡ q.msg_size
unfolding write_slot
msg_size-write_slot q msg = refl

-- A valid queue that the call found.
abbrev pub Seen : ℕ → Queue → List Wake → Queue → Type 0
Seen size found ws q = Of size q × Among found ws q

-- Why a send does not deliver, by its code: a message of the wrong size, a queue that is closed, a full
-- one at timeout 0 (or at the end of the wait), a timed wait that ran out.
abbrev pub Unsent : (found : Queue) (msg_len : ℕ) (t : ℤ) → List Wake → ℤ → Queue → Type 0
Unsent found msg_len t ws c q' =
    ((c ≡ minus einval) × (msg_len ≢ found.msg_size))
    ⊎ (((c ≡ minus epipe) × (q'.closed ≡ true))
        ⊎ (((c ≡ minus eagain) × (full q' ≡ true))
            ⊎ ((c ≡ minus etimedout) × (is_neg t ≡ false) × TimedOut ws)))

-- A call that found the queue `found` at first, and then those of the wakes. Success appends the
-- message to a queue that it found open and with room; failure leaves a queue as it was found. A call
-- that still waits found an open queue that is full.
abbrev pub SendResult :
    (size : ℕ) → Message → (found : Queue) (msg_len : ℕ) (t : ℤ) → List Wake → Sent → Type 0
SendResult size msg found msg_len t ws blocked =
    (q : Queue) × Seen size found ws q × (full q ≡ true) × (q.closed ≡ false)
SendResult size msg found msg_len t ws (returned (c, none)) = ⊥
SendResult size msg found msg_len t ws (returned (c, some q')) =
    ((c ≡ pos 0)
      × (msg_len ≡ found.msg_size)
      × ((q : Queue) × Seen size found ws q
          × (q.count < q.max_msgs)
          × (q.closed ≡ false)
          × Of size q'
          × (contents q' ≡ contents q ++ take size msg ∷ [])))
    ⊎ (Seen size found ws q' × Unsent found msg_len t ws c q')

module _ (size : ℕ) (msg : Message) (long : size ≤ length msg) (found : Queue)
    (ws : List Wake) where
  write_slot-delivers :
      (q : Queue)
      → Of size q
      → q.count < q.max_msgs
      → Of size (write_slot q msg)
        × (contents (write_slot q msg) ≡ contents q ++ take size msg ∷ [])
  write_slot-delivers q (v, e) room = (
    (write_slot-IsValid v msg room, msg_size-write_slot q msg ∙ e),
    contents-write_slot v msg (rw e long) room ∙ ap (λ n. contents q ++ take n msg ∷ []) e,
  )

  send_ready-SendResult :
      (t : ℤ) (w : Waited)
      → Waits (Seen size found ws) full (GivesUp full t ws) w
      → SendResult size msg found found.msg_size t ws (send_ready msg w)
  unfolding send_ready
  send_ready-SendResult t asleep p = p
  send_ready-SendResult t (quit e q) (p, inl (c, _, no_room)) =
      inr (p, inr (inr (inl (c, no_room))))
  send_ready-SendResult t (quit e q) (p, inr late) = inr (p, inr (inr (inr late)))
  send_ready-SendResult t (ready q) p = elim (Bool-cases q.closed) [
    | inl shut ↦ simp shut (inr (p, inr (inl (refl, refl))))
    | inr opened ↦ elim (Bool-cases (full q)) [
      | inl no_room ↦ simp (opened, no_room) (inr (p, inr (inr (inl (refl, refl)))))
      | inr room ↦
          let has_room : q.count < q.max_msgs = ground arith in
          let (same, grown) = write_slot-delivers q p.0 has_room in
          simp (opened, room) (inl (refl, refl, (q, p, has_room, opened, same, grown)))
    ]
  ]

  -- Whatever other threads do while the call waits, as long as they leave valid queues: a send that
  -- returns 0 was given the queue's message size and has appended the message, and nothing else, to a
  -- queue that it found, at first or at one of its wakes, open and with room. One that returns anything
  -- else hands on a queue as it found it, with EINVAL for another size, EPIPE if that queue is closed,
  -- EAGAIN if it is full, or ETIMEDOUT if a wait with a timeout ran out. One that still waits has found
  -- an open queue that is full.
  pub send_lem :
      (msg_len : ℕ) (t : ℤ)
      → Of size found
      → Found (Of size) ws
      → SendResult size msg found msg_len t ws (send (some found) (some msg) msg_len t ws)
  unfolding send
  send_lem msg_len t p ps =
      let seen : Seen size found ws found = (p, Among-self found ws) in
      elim (Bool-cases (not (msg_len == found.msg_size))) [
        | inl other ↦ simp other (inr (seen, inl (refl, ground (arith, other))))
        | inr fits ↦
            let same : msg_len ≡ found.msg_size = ground (arith, fits) in
            elim (Bool-cases found.closed) [
              | inl shut ↦ simp (fits, shut) (inr (seen, inr (inl (refl, refl))))
              | inr opened ↦
                  simp (fits, opened)
                    (rw same (
                      send_ready-SendResult t (wait_for full t found ws) (
                        wait_for-Waits (Seen size found ws) full t found ws seen
                          (Among-Found (Of size) found ws ps))))
            ]
      ]

module _ (q : Queue) (msg : Message) (t : ℤ) (before after : List Wake) (w : Wake) where
  -- A sender that finds an open queue full and may wait comes back at the first wake that finds
  -- room or a closed queue, if no earlier wake timed out: with ETIMEDOUT if its timed wait ran out
  -- at that wake, else with EPIPE if the queue was closed, else with 0 and its message written to
  -- the queue that the wake found.
  pub send-woken :
      t ≢ pos 0
      → (full q ≡ true) × (q.closed ≡ false)
      → All (Spurious full) before
      → Ends full w
      → send (some q) (some msg) q.msg_size t (before ++ w ∷ after) ≡ (
          if not (is_neg t) && (w.status == etimedout)
          then returned (minus etimedout, some w.queue)
          else if w.queue.closed
          then returned (minus epipe, some w.queue)
          else returned (pos 0, some (write_slot w.queue msg)))
  unfolding send send_ready
  send-woken nz o a e = ground (arith, wait_for-woken full t q before after w nz o a e)

-- A sender that finds an open queue with room does not wait, at any timeout.
pub send-room :
    (q : Queue) (msg : Message) (t : ℤ) (ws : List Wake)
    → q.closed ≡ false
    → q.count < q.max_msgs
    → send (some q) (some msg) q.msg_size t ws ≡ returned (pos 0, some (write_slot q msg))
unfolding send send_ready wait_for
send-room q msg (pos t) ws opened room = ground arith
send-room q msg (negsuc n) ws opened room = ground arith

-- At timeout 0 it does not wait for a full one either.
pub send-full :
    (q : Queue) (msg : Message) (ws : List Wake)
    → q.closed ≡ false
    → full q ≡ true
    → send (some q) (some msg) q.msg_size (pos 0) ws ≡ returned (minus eagain, some q)
unfolding send send_ready wait_for
send-full q msg ws opened no_room = ground arith
