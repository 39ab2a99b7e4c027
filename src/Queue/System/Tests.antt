-- ===== src/Queue/System/Tests.antt =====
-- A receiver that waits on an empty queue, and a sender that wakes it.
use open_hsm.Base.{ℕ, ◌≡◌, refl, ◌<◌, false, some, [], ◌∷◌, ◌++◌, arith, pos, negsuc, update}
use open_hsm.Queue.{
  Queue, Message, returned, blocked, send, receive, write_slot, send_ready, receive_ready, wait_for,
  wait_while,
}
use open_hsm.Queue.Valid.{IsValid}
use open_hsm.Queue.Fifo.{contents}
use open_hsm.Queue.Trace.{IsOpen}
use open_hsm.Queue.System.{
  sent, received, Sending, Receiving, outside, receive_asleep, receive_woken, System, enters, one,
  receive_sleeps, send_done, Reach, here, later,
}
use open_hsm.Queue.System.Safety.{starting, Misses, Relieves, threads_fifo, wakes_suffice}

-- Room for one message of one byte.
abbrev blank : Queue
blank = record {
  name = [];
  msg_size = 1;
  max_msgs = 1;
  buffer = 0 ∷ [];
  head = 0;
  tail = 0;
  count = 0;
  closed = false;
}

abbrev seven : Message
seven = 7 ∷ []

blank-IsOpen : IsOpen 1 1 blank
blank-IsOpen = record { valid = omega arith; opened = refl; sized = refl; capped = refl }

abbrev waiting : Receiving
waiting = record { start = blank; timeout = negsuc 0; wakes = [] }

abbrev telling : Sending
telling = record { start = blank; msg = seven; timeout = pos 0; wakes = [] }

-- Threads 0 and 1 wait for a message; thread 2 sends one, and thread 0 is woken.
abbrev one_sleeps : System
one_sleeps = record (starting blank) { pc = update (starting blank).pc 0 (receive_asleep waiting) }

abbrev two_sleep : System
two_sleep = record one_sleeps { pc = update one_sleeps.pc 1 (receive_asleep waiting) }

abbrev loaded : Queue
loaded = write_slot blank seven

abbrev told : System
told = record two_sleep {
  queue = loaded;
  pc = update (update two_sleep.pc 2 outside) 0 (receive_woken waiting);
  accepted = contents blank ++ seven ∷ [];
}

waiting-blocked : received waiting ≡ blocked
unfolding receive receive_ready wait_for wait_while
waiting-blocked = refl

telling-returned : sent telling ≡ returned (pos 0, some loaded)
unfolding send send_ready wait_for write_slot
telling-returned = refl

to_told : Reach 3 (starting blank) told
to_told =
    later
      (later
        (later here
          (receive_sleeps 0 waiting (omega arith) (enters (negsuc 0) refl) waiting-blocked))
        (receive_sleeps 1 waiting (omega arith) (enters (negsuc 0) refl) waiting-blocked))
      (send_done 2 telling loaded told.pc (omega arith) (enters seven (pos 0) refl refl)
        telling-returned (one 0 (omega arith) (omega arith)))

loaded-Misses : Misses loaded (receive_asleep waiting)
unfolding write_slot
loaded-Misses = omega arith

threads_fifo_example : (told.accepted ≡ told.delivered ++ contents loaded) × IsValid loaded
threads_fifo_example = threads_fifo 1 1 3 blank blank-IsOpen to_told

wakes_suffice_example : (k : ℕ) × (k < 3) × Relieves (receive_asleep waiting) (told.pc k)
wakes_suffice_example =
    wakes_suffice 1 1 3 blank blank-IsOpen to_told refl 1 (omega arith) loaded-Misses
