-- ===== src/Queue.antt =====
-- platform/linux/osa_queue.c, the message queue over a ring buffer of bytes.
--
-- A function that updates `*q` returns the new queue beside its code. Each function holds the
-- mutex from its first access to its last, except while it waits on a condition variable: there
-- other threads run, and the list of `Wake`s says what each return of the wait found. A list that
-- ends while the loop still waits leaves the call `blocked`.
pub mod Valid
pub mod Fifo
pub mod Wait
pub mod Send
pub mod Receive
pub mod Trace
pub mod System
mod Tests
use open_hsm.Base.{
  ℕ, ◌+◌, ◌-◌, ◌*◌, ◌%◌, Bool, true, false, ◌&&◌, ◌||◌, not, Option, none, some, List, [], ◌∷◌, leb,
  ◌==◌, if◌then◌else◌, is_some, length, take, replicate, overwrite, slice, ℤ, pos, negsuc, minus,
  is_neg, eagain, enomem, einval, epipe, etimedout,
}

-- OSA_QUEUE_NAME_LEN
abbrev pub name_len : ℕ
name_len = 32

abbrev pub Message : Type 0
Message = List ℕ

-- `struct osa_queue_impl`, without the mutex and the condition variables.
pub record Queue : Type 0 where
  pub name : List ℕ
  pub msg_size : ℕ
  pub max_msgs : ℕ
  pub buffer : List ℕ
  pub head : ℕ
  pub tail : ℕ
  pub count : ℕ
  pub closed : Bool

-- What a call gives back, or that it still waits.
pub data Outcome {ℓ} (A : Type ℓ) : Type ℓ where
  returned : A → Outcome A
  blocked : Outcome A

-- What `pthread_cond_wait` or `pthread_cond_timedwait` returned, and the queue as it then was.
pub record Wake : Type 0 where
  pub status : ℕ
  pub queue : Queue

abbrev pub fresh : List ℕ → ℕ → ℕ → Queue
fresh name msg_size max_msgs = record {
  name = take (name_len - 1) name;
  msg_size = msg_size;
  max_msgs = max_msgs;
  buffer = replicate (max_msgs * msg_size) 0;
  head = 0;
  tail = 0;
  count = 0;
  closed = false;
}

-- `room` and `storage` say whether the two calls of `calloc` succeed; `out` is whether the output
-- pointer is not NULL.
unfoldable pub create :
    (out : Bool) → Option (List ℕ) → ℕ → ℤ → (room storage : Bool) → ℤ × Option Queue
create out none msg_size max_msgs room storage = (minus einval, none)
create out (some name) msg_size (negsuc n) room storage = (minus einval, none)
create out (some name) msg_size (pos max_msgs) room storage =
    if not out || (msg_size == 0) || (max_msgs == 0)
    then (minus einval, none)
    else if not room
    then (minus enomem, none)
    else if not storage
    then (minus enomem, none)
    else (pos 0, some (fresh name msg_size max_msgs))

-- The queue is closed, its waiters are woken, and it is freed: the handle leads nowhere after.
unfoldable pub destroy : Option Queue → ℤ × Option Queue
destroy none = (minus einval, none)
destroy (some q) = (pos 0, none)

abbrev pub full : Queue → Bool
full q = leb q.max_msgs q.count

abbrev pub empty : Queue → Bool
empty q = q.count == 0

-- How a call stands after its wait: it goes on, it has returned a code, or it is asleep.
pub data Waited : Type 0 where
  ready : Queue → Waited
  quit : ℤ → Queue → Waited
  asleep : Waited

-- `while (held && !q->closed)` around a wait; a timed wait ends by ETIMEDOUT.
unfoldable pub wait_while : (Queue → Bool) → Bool → Queue → List Wake → Waited
wait_while held timed q [] = if held q && not q.closed then asleep else ready q
wait_while held timed q (w ∷ ws) =
    let rest = wait_while held timed w.queue ws in
    if held q && not q.closed
    then (if timed && (w.status == etimedout) then quit (minus etimedout) w.queue else rest)
    else ready q

-- `if (held) { … }`: no wait at timeout 0, a timed wait above it, an unlimited one below.
unfoldable pub wait_for : (Queue → Bool) → ℤ → Queue → List Wake → Waited
unfolding wait_while
wait_for held (pos timeout_ms) q ws =
    if held q
    then (if timeout_ms == 0 then quit (minus eagain) q else wait_while held true q ws)
    else ready q
wait_for held (negsuc n) q ws = if held q then wait_while held false q ws else ready q

-- The message goes to the slot at `tail`.
unfoldable pub write_slot : Queue → Message → Queue
write_slot q msg = record q {
  tail = (q.tail + 1) % q.max_msgs;
  buffer = overwrite q.buffer (q.tail * q.msg_size) (take q.msg_size msg);
  count = q.count + 1;
}

abbrev pub Sent : Type 0
Sent = Outcome (ℤ × Option Queue)

unfoldable pub send_ready : Message → Waited → Sent
send_ready msg asleep = blocked
send_ready msg (quit e q) = returned (e, some q)
send_ready msg (ready q) =
    if q.closed
    then returned (minus epipe, some q)
    else if full q
    then returned (minus eagain, some q)
    else returned (pos 0, some (write_slot q msg))

unfoldable pub send : Option Queue → Option Message → ℕ → ℤ → List Wake → Sent
unfolding send_ready wait_for
send none msg msg_len timeout_ms ws = returned (minus einval, none)
send (some q) none msg_len timeout_ms ws = returned (minus einval, some q)
send (some q) (some msg) msg_len timeout_ms ws =
    if not (msg_len == q.msg_size)
    then returned (minus einval, some q)
    else if q.closed
    then returned (minus epipe, some q)
    else send_ready msg (wait_for full timeout_ms q ws)

-- The message at `head`, and the queue without it.
unfoldable pub read_slot : Queue → Message × Queue
read_slot q = (
  slice 0 q.buffer (q.head * q.msg_size) q.msg_size,
  record q { head = (q.head + 1) % q.max_msgs; count = q.count - 1 },
)

-- The middle part is what is written through `msg`.
abbrev pub Received : Type 0
Received = Outcome (ℤ × Option Message × Option Queue)

unfoldable pub receive_ready : Waited → Received
receive_ready asleep = blocked
receive_ready (quit e q) = returned (e, none, some q)
receive_ready (ready q) =
    if q.closed && (q.count == 0)
    then returned (minus epipe, none, some q)
    else if q.count == 0
    then returned (minus eagain, none, some q)
    else (let (msg, q') = read_slot q in returned (pos 0, some msg, some q'))

-- `out` is whether the caller's buffer is not NULL.
unfoldable pub receive : Option Queue → (out : Bool) → ℕ → ℤ → List Wake → Received
unfolding receive_ready wait_for
receive none out msg_len timeout_ms ws = returned (minus einval, none, none)
receive (some q) false msg_len timeout_ms ws = returned (minus einval, none, some q)
receive (some q) true msg_len timeout_ms ws =
    if not (msg_len == q.msg_size)
    then returned (minus einval, none, some q)
    else if q.closed && (q.count == 0)
    then returned (minus epipe, none, some q)
    else receive_ready (wait_for empty timeout_ms q ws)

unfoldable pub queue_count : Option Queue → ℤ
queue_count none = minus einval
queue_count (some q) = pos q.count

unfoldable pub is_full : Option Queue → Bool
is_full none = false
is_full (some q) = leb q.max_msgs q.count

unfoldable pub is_empty : Option Queue → Bool
is_empty none = true
is_empty (some q) = q.count == 0

unfoldable pub get_name : Option Queue → Option (List ℕ)
get_name none = none
get_name (some q) = some q.name
