-- ===== src/WorkerExample/Tests.antt =====
-- The example at concrete machines, and the theorems at these.
use open_hsm.Base.{
  ◌≡◌, ◌<◌, ◌++◌, refl, true, false, none, some, [], ◌∷◌, ◌==◌, if◌then◌else◌, pos, Ptr, null,
  arith, minus, replicate,
}
use open_hsm.Queue.{Queue}
use open_hsm.Hsm.{event_of, sig_exit, invoke}
use open_hsm.OsaHsm.{continues, run_round}
use open_hsm.OsaHsm.Plain.{plain}
use open_hsm.OsaHsm.Post.{Inbox}
use open_hsm.Worker.{Job, Store, completed, cancelled, error, zero_job}
use open_hsm.Worker.Invariant.{IsQueue}
use open_hsm.Worker.Slots.{job_free}
use open_hsm.Worker.Slots.Alloc.{free_count, free_slots}
use open_hsm.Worker.Cancel.{withdrawn}
use open_hsm.Worker.Stale.{Withdrawal}
use open_hsm.WorkerExample.{
  Example, example_hsm, sig_work_start, sig_work_complete, sig_work_cancel, sig_work_error,
}
use open_hsm.WorkerExample.Handlers.{state_idle, state_working, state_processing, chart}
use open_hsm.WorkerExample.Given.{IsFilled, Attempt}
use open_hsm.WorkerExample.Finish.{bound_for, start_work, work_error}
use open_hsm.WorkerExample.Delegate.{work_cancel}
use open_hsm.WorkerExample.Life.{worked, job_life}
use open_hsm.WorkerExample.Cycle.{Ended, one_job}
use open_hsm.WorkerExample.Unknown.{unknown_signal_loops}

-- The job in slot 1 waits; the other slots are free.
abbrev memory : Ptr → Job
memory a = if a == 1 then record zero_job { id = 1 } else record zero_job { state = completed }

abbrev store_of_one : Store
store_of_one = record {
  pool = record {
    head = 1;
    tail = 1;
    num_workers = 4;
    queue_size = 64;
    shutdown = false;
    stats = record {
      total_submitted = 1;
      total_completed = 0;
      total_cancelled = 0;
      total_errors = 0;
      queue_depth = 1;
      active_workers = 0;
    };
    work_sem = 1;
    complete_sem = 0;
  };
  jobs = memory;
  id_counter = 1;
  pool_initialized = true;
}

store_of_one-IsQueue : IsQueue store_of_one (1 ∷ [])
store_of_one-IsQueue = record {
  linked = (refl, (λ e. omega arith), (refl, refl));
  distinct = (refl, tt);
  depth = refl;
  bounded = omega arith;
  small = omega arith;
  waiting = λ a i. ground arith;
}

abbrev machine : Ptr → Ptr → Example
machine s job = record {
  super = record {
    super = record { error = pos 0; current = s; history = state_idle };
    name = none;
    task_ref = 70;
    msg_q = none;
    msg_q_size = pos 20;
    timer_id = null;
    tick_period = 0;
  };
  worker_pool = 90;
  current_job = job;
  job_count = 1;
  completed_count = 0;
  error_count = 0;
  operation_progress = pos 0;
  operation_result = pos 0;
  store = store_of_one;
}

abbrev resting : Example
resting = machine state_idle null

abbrev busy : Example
busy = machine state_processing 1

start_work_example :
    (y : Example) × (invoke (chart 500 600 700) 4 state_idle (event_of sig_work_start) resting
      ≡ some (pos 0, y))
    × Attempt 500 600 700 (bound_for state_working resting) (1 ∷ []) y
start_work_example =
    start_work 500 600 700 1 resting (1 ∷ []) store_of_one-IsQueue refl (omega arith)

work_error_example :
    (y : Example) × (invoke (chart 500 600 700) 3 state_processing (event_of sig_work_error) busy
      ≡ some (pos 0, y))
    × Attempt 500 600 700 (bound_for state_working (record busy { error_count = 1 })) (1 ∷ []) y
work_error_example = work_error 500 600 700 0 busy (1 ∷ []) store_of_one-IsQueue refl (omega arith)

work_cancel_example :
    (y : Example) × (invoke (chart 500 600 700) 3 state_processing (event_of sig_work_cancel) busy
      ≡ some (pos 0, y))
    × (y.super.super.current ≡ state_processing)
    × (y.current_job ≡ 1)
    × (y.store ≡ withdrawn 1 store_of_one)
    × ((y.store.jobs y.current_job).state ≡ cancelled)
    × Withdrawal store_of_one (1 ∷ []) 1
work_cancel_example =
    work_cancel 500 600 700 0 busy refl (1 ∷ []) store_of_one-IsQueue (omega arith) (omega arith)
      refl

-- Room for two events.
abbrev empty_queue : Queue
empty_queue = record {
  name = [];
  msg_size = 4;
  max_msgs = 2;
  buffer = replicate 8 0;
  head = 0;
  tail = 0;
  count = 0;
  closed = false;
}

-- The machine 500 waits for the job 1, which it has filled in.
abbrev ordered : Ptr → Job
ordered a =
    if a == 1
    then record (memory 1) {
      job_func = 600;
      complete_cb = 700;
      target_hsm = 500;
      completion_signal = sig_work_complete;
    }
    else memory a

abbrev listening : Example
listening = record busy {
  super = record (busy.super) { msg_q = some empty_queue };
  store = record store_of_one { jobs = ordered };
}

ordered-IsQueue : IsQueue listening.store (1 ∷ [])
ordered-IsQueue = record {
  linked = (refl, (λ e. omega arith), (refl, refl));
  distinct = (refl, tt);
  depth = refl;
  bounded = omega arith;
  small = omega arith;
  waiting = λ a i. ground arith;
}

ordered-IsFilled : IsFilled 500 600 700 (ordered 1)
ordered-IsFilled = record { function = refl; callback = refl; target = refl; signal = refl }

abbrev none_waits : Inbox plain 2 listening.super.msg_q []
none_waits = record {
  queue = empty_queue;
  here = refl;
  is_open = record { valid = omega arith; opened = refl; sized = refl; capped = refl };
  holds = refl;
}

abbrev job_done : Example
job_done = worked 500 600 700 plain 96 1 (minus 5) listening

job_life_example :
    (z : Example) × (run_round example_hsm plain (chart 500 600 700) 3 [] job_done
      ≡ some (continues, z))
    × (z.super.super ≡ record { error = pos 0; current = state_idle; history = state_processing })
    × (z.current_job ≡ null)
    × Inbox plain 2 z.super.msg_q []
    × (z.store ≡ job_free 1 job_done.store)
    × ((job_done.store.jobs 1).state ≡ error)
    × (z.completed_count ≡ 0)
    × (z.error_count ≡ 1)
    × IsQueue z.store []
job_life_example =
    job_life 500 600 700 plain 96 listening 1 [] (minus 5) ordered-IsQueue refl ordered-IsFilled
      (omega arith) (omega arith) (omega arith) 2 none_waits (omega arith) 0 [] refl

-- The signal waits in the second slot of the queue.
abbrev bell : Queue
bell = record empty_queue {
  buffer = plain.bytes (event_of sig_work_start) ++ replicate 4 0;
  tail = 1;
  count = 1;
}

-- No job waits.
abbrev spare : Store
spare = record store_of_one {
  pool = record (store_of_one.pool) {
    head = null;
    tail = null;
    stats = record (store_of_one.pool.stats) { queue_depth = 0 };
  };
  jobs = λ a. record zero_job { state = completed };
}

spare-IsQueue : IsQueue spare []
spare-IsQueue = record {
  linked = (refl, refl);
  distinct = tt;
  depth = refl;
  bounded = omega arith;
  small = omega arith;
  waiting = λ a i. ground arith;
}

abbrev called : Example
called = record resting { super = record (resting.super) { msg_q = some bell }; store = spare }

abbrev start_waits : Inbox plain 2 called.super.msg_q (event_of sig_work_start ∷ [])
start_waits = record {
  queue = bell;
  here = refl;
  is_open = record { valid = omega arith; opened = refl; sized = refl; capped = refl };
  holds = refl;
}

spare-free : 0 < free_count spare
unfolding free_slots
spare-free = omega arith

one_job_example :
    (y z : Example) × (run_round example_hsm plain (chart 500 600 700) 3 [] called
      ≡ some (continues, y))
    × (y.super.super.current ≡ state_processing)
    × IsQueue y.store (y.current_job ∷ [])
    × (run_round example_hsm plain
          (chart 500 600 700)
          3
          []
          (worked 500 600 700 plain 96 y.current_job (pos 9) y)
        ≡ some (continues, z))
    × Ended plain 2 0 0 (pos 9) z
one_job_example =
    one_job 500 600 700 plain 96 (omega arith) (omega arith) (omega arith) 2 (omega arith) 0 called
      spare-IsQueue refl (omega arith) refl spare-free (omega arith) start_waits refl [] [] (pos 9)

unknown_signal_loops_example :
    invoke (chart 500 600 700) 1000 state_processing (event_of sig_exit) busy ≡ none
unknown_signal_loops_example =
    unknown_signal_loops 500 600 700 (event_of sig_exit) busy refl refl 1000
