-- ===== src/OsaHsm/Tests.antt =====
-- A machine with two states, and the theorems on its posts and rounds.
use open_hsm.Base.{◌≡◌, refl, false, replicate, none, some, [], ◌∷◌, ◌++◌, arith, pos, null}
use open_hsm.Queue.{Queue, returned, read_slot}
use open_hsm.Hsm.{Event, Chart, event_of, invoke, pure, ◌>>◌}
use open_hsm.OsaHsm.{OsaHsm, EmbedsHsm, event_post, continues, run_round}
use open_hsm.OsaHsm.Plain.{plain}
use open_hsm.OsaHsm.Post.{Inbox, posted, event_post-room}
use open_hsm.OsaHsm.Dispatch.{received, run_round_lem}

abbrev ring : Queue
ring = record {
  name = [];
  msg_size = 4;
  max_msgs = 2;
  buffer = replicate 4 0 ++ plain.bytes (event_of (pos 5));
  head = 1;
  tail = 0;
  count = 1;
  closed = false;
}

abbrev machine : Queue → OsaHsm
machine q = record {
  super = record { error = pos 0; current = 1; history = 1 };
  name = none;
  task_ref = 70;
  msg_q = some q;
  msg_q_size = pos 2;
  timer_id = null;
  tick_period = 0;
}

abbrev five : Event
five = event_of (pos 5)

abbrev six : Event
six = event_of (pos 6)

abbrev filled : Queue
filled = record ring { buffer = plain.bytes six ++ plain.bytes five; tail = 1; count = 2 }

abbrev one_waits : Inbox plain 2 (machine ring).msg_q (five ∷ [])
one_waits = record {
  queue = ring;
  here = refl;
  is_open = record { valid = omega arith; opened = refl; sized = refl; capped = refl };
  holds = refl;
}

abbrev two_wait : Inbox plain 2 (machine filled).msg_q (five ∷ six ∷ [])
two_wait = record {
  queue = filled;
  here = refl;
  is_open = record { valid = omega arith; opened = refl; sized = refl; capped = refl };
  holds = refl;
}

event_post-room_example :
    (event_post plain (some (machine ring)) (some six) 0 []
      ≡ returned (pos 0, some (posted plain 2 (machine ring) (five ∷ []) one_waits six 0 [])))
    × Inbox plain 2
        (posted plain 2 (machine ring) (five ∷ []) one_waits six 0 []).msg_q
        (five ∷ six ∷ [])
event_post-room_example =
    event_post-room plain 2 (machine ring) (five ∷ []) one_waits six 0 [] (omega arith)

abbrev alone : EmbedsHsm OsaHsm
alone = record { hsm = λ x. x; with_hsm = λ h x. h }

-- Every state returns the signal of the event.
abbrev chart : Chart OsaHsm
chart p = record { handler = λ call e. pure e.signal; parent = null; name = [] }

run_round_lem_example :
    (run_round alone plain chart 1 [] (machine filled)
      ≡ (invoke chart 1 1 five >> pure continues)
          (received alone plain chart 1 filled (machine filled)))
    × Inbox plain 2 (some (read_slot filled).1) (six ∷ [])
run_round_lem_example =
    run_round_lem alone plain chart 1 2 (machine filled) five (six ∷ []) [] two_wait
