-- ===== src/Simulate/Start.antt =====
-- The start of a machine of examples/linux/hsm_simulate.c: its creation, and its thread up to the loop.
use open_hsm.Base.{
  ℕ, suc, ◌<◌, ◌≡◌, refl, true, some, List, [], arith, ◌==◌, false, inl, inr, Bool-cases, eqb_ℤ, ℤ,
  pos, Ptr,
}
use open_hsm.Queue.{Queue, Wake, create, fresh}
use open_hsm.Queue.Valid.{create-IsValid}
use open_hsm.Hsm.{state_init, state_transit, state_error, invoke}
use open_hsm.OsaHsm.{OsaHsm, Layout, continues, run_start, active_init, active_start}
use open_hsm.OsaHsm.Post.{Inbox}
use open_hsm.Simulate.{
  Simulate, simulate_hsm, simulate_chart, simulate_create, simulate_init_state,
  simulate_working_state, simulate_handler, simulate_init_state_handler,
  simulate_working_state_handler,
}
use open_hsm.Simulate.Answers.{state_of}

new_queue :
    (lay : Layout) (name : List ℕ)
    → 0 < lay.event_size
    → (q : Queue) × (create true (some name) lay.event_size (pos 20) true true ≡ (pos 0, some q))
      × Inbox lay 20 (some q) []
unfolding create
new_queue lay name sized =
    let nonzero : (lay.event_size == 0) ≡ false = ground (arith, sized) in
    let e : create true (some name) lay.event_size (pos 20) true true
        ≡ (pos 0, some (fresh name lay.event_size 20)) =
      rw (nonzero, create) refl in
    let (v, empty, size, room, zero) =
      create-IsValid true true true name lay.event_size 20 (pos 0) e in
    (
      _,
      e,
      record {
        queue = _;
        here = refl;
        is_open = record { valid = v; opened = refl; sized = size; capped = room };
        holds = refl;
      },
    )

module _ (lay : Layout) (there here : List Wake) (stopped : ℤ) (f : ℕ) (x : Simulate)
    (created : ℤ × Ptr) (name : List ℕ) where
  -- A machine with the fields that `simulate_create` sets.
  abbrev made : OsaHsm → Simulate
  made h = record x {
    super = record h {
      super = record {
        error = pos 0;
        current = simulate_init_state;
        history = simulate_init_state;
      };
      msg_q_size = pos 20;
    };
  }

  -- The machine that enters the loop with the queue `q`.
  abbrev started : OsaHsm → Queue → Simulate
  started h q = record x {
    super = record h {
      super = record {
        error = pos 0;
        current = simulate_working_state;
        history = simulate_init_state;
      };
      msg_q_size = pos 20;
      msg_q = some q;
    };
    cnt = 0;
  }

  run_start-made :
      (h : OsaHsm) {q : Queue}
      → create true (some name) lay.event_size (pos 20) true true ≡ (pos 0, some q)
      → run_start simulate_hsm lay
          (simulate_chart lay there here stopped)
          (suc (suc f))
          name
          true
          true
          (made h)
        ≡ some (continues, started h q)
  unfolding run_start invoke simulate_handler simulate_init_state_handler
      simulate_working_state_handler state_transit state_init state_error
  run_start-made h e = rw e refl

  -- Whatever the creation of its thread answers, a machine that is made and whose thread then runs
  -- with enough memory goes through `init` into `working`, with its counter of periods at 0, and
  -- reaches the loop with an empty queue for 20 events.
  pub run_start-working :
      0 < lay.event_size
      → (y : Simulate) × (run_start simulate_hsm lay
            (simulate_chart lay there here stopped)
            (suc (suc f))
            name
            true
            true
            (simulate_create created x).1
          ≡ some (continues, y))
        × (state_of y ≡ simulate_working_state)
        × (y.cnt ≡ 0)
        × (y.watcher ≡ x.watcher)
        × Inbox lay 20 y.super.msg_q []
  unfolding simulate_create active_init active_start
  run_start-working sized =
      let (q, e, b) = new_queue lay name sized in
      elim (Bool-cases (eqb_ℤ created.0 (pos 0))) [
        | inl t ↦ (
          started (record (x.super) { task_ref = created.1 }) q,
          rw t (run_start-made (record (x.super) { task_ref = created.1 }) e),
          refl,
          refl,
          refl,
          b,
        )
        | inr t ↦ (started x.super q, rw t (run_start-made x.super e), refl, refl, refl, b)
      ]
