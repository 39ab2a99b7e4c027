-- ===== src/Simulate/Tests.antt =====
-- Runs of the machines of examples/linux/hsm_simulate.c.
use open_hsm.Base.{
  ℕ, ◌≡◌, refl, false, some, none, List, [], ◌∷◌, ◌++◌, replicate, arith, pos, Ptr, null,
}
use open_hsm.Queue.{Queue}
use open_hsm.Hsm.{event_of, sig_period}
use open_hsm.OsaHsm.{OsaHsm, continues}
use open_hsm.OsaHsm.Plain.{plain}
use open_hsm.Simulate.{Simulate, simulate_working_state, simulate_idle_state, sig_send, sig_recv}
use open_hsm.Simulate.Answers.{Talking, state_of}
use open_hsm.Simulate.Periods.{ticks_to_sends}
use open_hsm.Simulate.Sends.{rounds, sends_to_idle}

-- A queue for three events, in which `n` wait.
abbrev holding : List ℕ → ℕ → Queue
holding buffer n = record {
  name = [];
  msg_size = 4;
  max_msgs = 3;
  buffer = buffer;
  head = 0;
  tail = n;
  count = n;
  closed = false;
}

abbrev machine : Ptr → Queue → OsaHsm
machine state q = record {
  super = record { error = pos 0; current = state; history = state };
  name = none;
  task_ref = 70;
  msg_q = some q;
  msg_q_size = pos 3;
  timer_id = null;
  tick_period = 0;
}

abbrev two_sends : Queue
two_sends =
    holding (plain.bytes (event_of sig_send) ++ plain.bytes (event_of sig_send) ++ replicate 4 0) 2

abbrev nothing : Queue
nothing = holding (replicate 12 0) 0

-- It has had three SENDs, and two wait.
abbrev three_had : Ptr → Simulate
three_had state = record {
  super = machine state two_sends;
  watcher = some (machine simulate_working_state nothing);
  cnt = 0;
  send_cnt = 3;
}

abbrev talking :
    (state : Ptr) → Talking plain 3 (three_had state) (replicate 2 (event_of sig_send)) []
talking state = record {
  inbox = record {
    queue = two_sends;
    here = refl;
    is_open = record { valid = omega arith; opened = refl; sized = refl; capped = refl };
    holds = refl;
  };
  peer = machine simulate_working_state nothing;
  watches = refl;
  outbox = record {
    queue = nothing;
    here = refl;
    is_open = record { valid = omega arith; opened = refl; sized = refl; capped = refl };
    holds = refl;
  };
}

-- A tick waits, and it has counted eleven.
abbrev eleven_had : Simulate
eleven_had = record (three_had simulate_working_state) {
  super =
      record (machine simulate_working_state
        (holding (plain.bytes (event_of sig_period) ++ replicate 8 0) 1)) { tick_period = 200 };
  cnt = 11;
}

abbrev ticking : Talking plain 3 eleven_had (event_of sig_period ∷ []) []
ticking = record {
  inbox = record {
    queue = holding (plain.bytes (event_of sig_period) ++ replicate 8 0) 1;
    here = refl;
    is_open = record { valid = omega arith; opened = refl; sized = refl; capped = refl };
    holds = refl;
  };
  peer = machine simulate_working_state nothing;
  watches = refl;
  outbox = (talking simulate_working_state).outbox;
}

sends_to_idle_example :
    (y : Simulate) × (rounds plain 3 [] []
        (pos 0)
        0
        (([] ∷ [] ∷ []) ++ [] ∷ [])
        (three_had simulate_working_state)
      ≡ some (continues, y))
    × (state_of y ≡ simulate_idle_state)
    × (y.send_cnt ≡ 5)
    × Talking plain 3 y [] (replicate 2 (event_of sig_recv))
sends_to_idle_example =
    sends_to_idle plain 3 [] [] (pos 0) 0 1 [] (three_had simulate_working_state) ([] ∷ [] ∷ []) []
      refl refl (omega arith) (talking simulate_working_state) (omega arith) refl

ticks_to_sends_example :
    (y : Simulate) × (rounds plain 3 [] [] (pos 0) 0 ([] ∷ []) eleven_had ≡ some (continues, y))
    × (state_of y ≡ simulate_working_state)
    × (y.cnt ≡ 12)
    × (y.super.tick_period ≡ 0)
    × Talking plain 3 y [] (event_of sig_send ∷ [])
ticks_to_sends_example =
    ticks_to_sends plain 3 [] [] (pos 0) 0 0 [] [] eleven_had ([] ∷ []) refl ticking (omega arith)
      refl
