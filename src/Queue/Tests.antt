-- ===== src/Queue/Tests.antt =====
-- The queue at concrete rings, and the theorems at these.
use open_hsm.Base.{
  ◌≡◌, refl, true, false, none, some, List, [], ◌∷◌, arith, replicate, pos, negsuc, minus, eagain,
}
use open_hsm.Queue.{Queue, Message, Wake, send, receive, write_slot, read_slot}
use open_hsm.Queue.Valid.{IsValid}
use open_hsm.Queue.Send.{SendResult, send_lem}
use open_hsm.Queue.Receive.{ReceiveResult, receive_lem}
use open_hsm.Queue.Trace.{Call, put, get, IsOpen, run, spec_run, run_refines}

-- Two slots of two bytes; the message 1, 2 waits in the second slot.
abbrev one : Queue
one = record {
  name = [];
  msg_size = 2;
  max_msgs = 2;
  buffer = 9 ∷ 8 ∷ 1 ∷ 2 ∷ [];
  head = 1;
  tail = 0;
  count = 1;
  closed = false;
}

abbrev brimming : Queue
brimming = record one { buffer = 3 ∷ 4 ∷ 1 ∷ 2 ∷ []; tail = 1; count = 2 }

abbrev drained : Queue
drained = record one { head = 0; count = 0 }

abbrev shut : Queue
shut = record one { closed = true }

abbrev woken : Queue → Wake
woken q = record { status = 0; queue = q }

one-IsValid : IsValid one
one-IsValid = omega arith

one-IsOpen : IsOpen 2 2 one
one-IsOpen = record { valid = one-IsValid; opened = refl; sized = refl; capped = refl }

abbrev script : List Call
script = put (3 ∷ 4 ∷ []) ∷ put (5 ∷ 6 ∷ []) ∷ get ∷ get ∷ get ∷ []

run-one :
    run one script
    ≡ (pos 0, none)
      ∷ (minus eagain, none)
      ∷ (pos 0, some (1 ∷ 2 ∷ []))
      ∷ (pos 0, some (3 ∷ 4 ∷ []))
      ∷ (minus eagain, none)
      ∷ []
unfolding run send receive write_slot read_slot
run-one = refl

run_refines_example : run one script ≡ spec_run 2 ((1 ∷ 2 ∷ []) ∷ []) script
run_refines_example = run_refines 2 2 one script one-IsOpen (refl, (refl, (tt, (tt, (tt, tt)))))

abbrev blank : Queue
blank = record one { buffer = replicate 4 0; head = 0; count = 0 }

abbrev eight : Message
eight = 8 ∷ 8 ∷ []

send_lem_example :
    SendResult 2 eight one 2
      (negsuc 0)
      (woken one ∷ [])
      (send (some one) (some eight) 2 (negsuc 0) (woken one ∷ []))
send_lem_example =
    send_lem 2 eight (omega arith) one (woken one ∷ []) 2 (negsuc 0) (one-IsValid, refl)
      ((one-IsValid, refl), tt)

receive_lem_example : ReceiveResult 2 one true 2 (pos 5) [] (receive (some one) true 2 (pos 5) [])
receive_lem_example = receive_lem 2 one [] true 2 (pos 5) (one-IsValid, refl) tt
