-- ===== src/Queue/System.antt =====
-- Threads that share a queue of platform/linux/osa_queue.c until it is destroyed.
--
-- A step is what a thread does from one wait to the next with the mutex held: it is the outcome of the
-- call `send` or `receive` for the queue that the call found at first, and for the wakes that it had
-- since then. A thread that sleeps on a condition variable is woken by a signal, by its timeout, or
-- for no reason.
pub mod Calls
pub mod Invariant
pub mod Senders
pub mod Receivers
pub mod Safety
mod Tests
use open_hsm.Base.{
  ℕ, ◌+◌, ◌<◌, ◌≡◌, ◌≢◌, true, false, some, none, List, [], ◌∷◌, ◌++◌, length, ℤ, pos, is_neg,
  etimedout, update, total,
}
use open_hsm.Queue.{Queue, Message, Wake, Sent, Received, returned, blocked, send, receive}

-- A call in its wait: its arguments, the queue that it found, and the wakes since.
pub record Sending : Type 0 where
  pub start : Queue
  pub msg : Message
  pub timeout : ℤ
  pub wakes : List Wake

pub record Receiving : Type 0 where
  pub start : Queue
  pub timeout : ℤ
  pub wakes : List Wake

-- What the calls come to.
abbrev pub sent : Sending → Sent
sent c = send (some (c.start)) (some (c.msg)) c.start.msg_size c.timeout c.wakes

abbrev pub received : Receiving → Received
received c = receive (some (c.start)) true c.start.msg_size c.timeout c.wakes

-- In no call; in a wait; about to take the mutex again after a wait.
pub data Pc : Type 0 where
  outside : Pc
  send_asleep send_woken : Sending → Pc
  receive_asleep receive_woken : Receiving → Pc

abbrev pub sleeping_senders : Pc → ℕ
sleeping_senders (send_asleep c) = 1
sleeping_senders _ = 0

abbrev pub woken_senders : Pc → ℕ
woken_senders (send_woken c) = 1
woken_senders _ = 0

abbrev pub sleeping_receivers : Pc → ℕ
sleeping_receivers (receive_asleep c) = 1
sleeping_receivers _ = 0

abbrev pub woken_receivers : Pc → ℕ
woken_receivers (receive_woken c) = 1
woken_receivers _ = 0

-- A sleeper that is woken.
abbrev pub roused : Pc → Pc
roused (send_asleep c) = send_woken c
roused (receive_asleep c) = receive_woken c
roused p = p

-- The threads, the queue, and the messages that were sent with success and that were handed out, in
-- the order of these events. `lost` counts the threads that were woken and whose timed wait then came
-- back with ETIMEDOUT, so that the signal, if there was one, has gone to nobody.
pub record System : Type 0 where
  pub queue : Queue
  pub pc : ℕ → Pc
  pub accepted : List Message
  pub delivered : List Message
  pub lost : ℕ

-- `pthread_cond_signal`: one of the threads that `sleeping` counts wakes up, if there is any.
pub data Signalled (sleeping : Pc → ℕ) (n : ℕ) (pc : ℕ → Pc) : (ℕ → Pc) → Type 0 where
  nobody : total sleeping n pc ≡ 0 → Signalled sleeping n pc pc
  one :
      (k : ℕ) → k < n → 0 < sleeping (pc k) → Signalled sleeping n pc (update pc k (roused (pc k)))

abbrev pub send_on : ℕ → Queue → Sending → Sending
send_on status q c = record c { wakes = c.wakes ++ record { status = status; queue = q } ∷ [] }

abbrev pub receive_on : ℕ → Queue → Receiving → Receiving
receive_on status q c = record c { wakes = c.wakes ++ record { status = status; queue = q } ∷ [] }

-- The call that thread `i` goes on with: a new one, one that was woken, or one whose time is over.
pub data Sends (s : System) (i : ℕ) : Sending → Type 0 where
  enters :
      (m : Message) (t : ℤ)
      → s.pc i ≡ outside
      → length m ≡ s.queue.msg_size
      → Sends s i (record { start = s.queue; msg = m; timeout = t; wakes = [] })
  resumes :
      (c : Sending) (status : ℕ)
      → s.pc i ≡ send_woken c
      → status ≢ etimedout
      → Sends s i (send_on status s.queue c)
  expires :
      (c : Sending)
      → s.pc i ≡ send_asleep c
      → is_neg c.timeout ≡ false
      → Sends s i (send_on etimedout s.queue c)

pub data Receives (s : System) (i : ℕ) : Receiving → Type 0 where
  enters :
      (t : ℤ)
      → s.pc i ≡ outside
      → Receives s i (record { start = s.queue; timeout = t; wakes = [] })
  resumes :
      (c : Receiving) (status : ℕ)
      → s.pc i ≡ receive_woken c
      → status ≢ etimedout
      → Receives s i (receive_on status s.queue c)
  expires :
      (c : Receiving)
      → s.pc i ≡ receive_asleep c
      → is_neg c.timeout ≡ false
      → Receives s i (receive_on etimedout s.queue c)

-- The steps of `n` threads.
pub data Step (n : ℕ) (s : System) : System → Type 0 where
  send_sleeps :
      (i : ℕ) (c : Sending)
      → i < n
      → Sends s i c
      → sent c ≡ blocked
      → Step n s (record s { pc = update s.pc i (send_asleep c) })
  send_fails :
      (i : ℕ) (c : Sending) (code : ℤ) (q : Queue)
      → i < n
      → Sends s i c
      → sent c ≡ returned (code, some q)
      → is_neg code ≡ true
      → Step n s (record s { queue = q; pc = update s.pc i outside })
  send_done :
      (i : ℕ) (c : Sending) (q : Queue) (pc' : ℕ → Pc)
      → i < n
      → Sends s i c
      → sent c ≡ returned (pos 0, some q)
      → Signalled sleeping_receivers n (update s.pc i outside) pc'
      → Step n s (record s { queue = q; pc = pc'; accepted = s.accepted ++ c.msg ∷ [] })
  receive_sleeps :
      (i : ℕ) (c : Receiving)
      → i < n
      → Receives s i c
      → received c ≡ blocked
      → Step n s (record s { pc = update s.pc i (receive_asleep c) })
  receive_fails :
      (i : ℕ) (c : Receiving) (code : ℤ) (q : Queue)
      → i < n
      → Receives s i c
      → received c ≡ returned (code, none, some q)
      → Step n s (record s { queue = q; pc = update s.pc i outside })
  receive_done :
      (i : ℕ) (c : Receiving) (m : Message) (q : Queue) (pc' : ℕ → Pc)
      → i < n
      → Receives s i c
      → received c ≡ returned (pos 0, some m, some q)
      → Signalled sleeping_senders n (update s.pc i outside) pc'
      → Step n s (record s { queue = q; pc = pc'; delivered = s.delivered ++ m ∷ [] })
  -- A timed wait may take a signal, and come back with ETIMEDOUT all the same.
  send_overruns :
      (i : ℕ) (c : Sending) (code : ℤ) (q : Queue)
      → i < n
      → s.pc i ≡ send_woken c
      → is_neg c.timeout ≡ false
      → sent (send_on etimedout s.queue c) ≡ returned (code, some q)
      → Step n s (record s { queue = q; pc = update s.pc i outside; lost = s.lost + 1 })
  receive_overruns :
      (i : ℕ) (c : Receiving) (code : ℤ) (q : Queue)
      → i < n
      → s.pc i ≡ receive_woken c
      → is_neg c.timeout ≡ false
      → received (receive_on etimedout s.queue c) ≡ returned (code, none, some q)
      → Step n s (record s { queue = q; pc = update s.pc i outside; lost = s.lost + 1 })
  -- A wait may also end without a signal.
  stirs : (i : ℕ) → i < n → Step n s (record s { pc = update s.pc i (roused (s.pc i)) })

pub data Reach (n : ℕ) (s : System) : System → Type 0 where
  here : Reach n s s
  later : {t u : System} → Reach n s t → Step n t u → Reach n s u
