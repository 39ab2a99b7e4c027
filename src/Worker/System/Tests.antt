-- ===== src/Worker/System/Tests.antt =====
-- Two workers and two jobs, and the theorems in states that they reach.
use open_hsm.Base.{
  ℕ, ◌<◌, ◌≡◌, ◌≢◌, ◌⊎◌, refl, true, false, some, [], ◌∷◌, List, ℤ, Ptr, null, arith, pos,
}
use open_hsm.Hsm.{Event}
use open_hsm.Worker.{Store, completed, zero_job}
use open_hsm.Worker.Members.{has}
use open_hsm.Worker.Invariant.{IsQueue}
use open_hsm.Worker.Ops.{submit}
use open_hsm.Worker.Slots.{job_alloc}
use open_hsm.Worker.Thread.{take_job, dequeue}
use open_hsm.Worker.Frame.{Quiet}
use open_hsm.Worker.Ledger.{Balanced}
use open_hsm.Worker.System.Accounts.{Reach-Balanced}
use open_hsm.Worker.System.Threads.{job_of, awake}
use open_hsm.Worker.System.Effort.{work_left, of_worker, Move, Works, no_step, and_step}
use open_hsm.Worker.System.Finish.{AtRest, workers_finish}
use open_hsm.Worker.System.Defs.{System, submits, wakes, takes, runs, Reach, here, later}
use open_hsm.Worker.System.Safety.{idle_system, exclusive_jobs, no_lost_wakeup, job_alloc-unqueued}

abbrev no_call_back : (cb job : Ptr) → ℤ → (ctx : Ptr) → Store × List Event → Store × List Event
no_call_back cb job r ctx p = p

abbrev remember : Ptr → Event → List Event → List Event
remember hsm e es = e ∷ es

no_call_back-Quiet : Quiet no_call_back
no_call_back-Quiet = record {
  pool_same = λ cb job r ctx s w. refl;
  jobs_same = λ cb job r ctx s w a ne. record { next = refl; prev = refl; state = refl };
}

abbrev fresh_store : Store
fresh_store = record {
  pool = record {
    head = null;
    tail = null;
    num_workers = 2;
    queue_size = 3;
    shutdown = false;
    stats = record {
      total_submitted = 0;
      total_completed = 0;
      total_cancelled = 0;
      total_errors = 0;
      queue_depth = 0;
      active_workers = 0;
    };
    work_sem = 0;
    complete_sem = 0;
  };
  jobs = λ a. record zero_job { state = completed };
  id_counter = 0;
  pool_initialized = true;
}

fresh_store-IsQueue : IsQueue fresh_store []
fresh_store-IsQueue = record {
  linked = (refl, refl);
  distinct = tt;
  depth = refl;
  bounded = omega arith;
  small = omega arith;
  waiting = λ a i. cc;
}

record Run : Type 0 where
  last : System (List Event)
  reach : Reach no_call_back remember 80 2 (idle_system fresh_store []) last

-- The jobs 1 and 2 are submitted, and worker 1 takes the first.
abbrev submitted : Run
unfolding submit
submitted = record {
  last = _;
  reach =
      later (later here (submits 1 (omega arith) refl (λ i e. cc)))
        (submits 2 (omega arith) refl (λ i e. cc));
}

abbrev taken_one : Run
unfolding submit take_job
taken_one = record {
  last = _;
  reach =
      later (later submitted.reach (wakes 1 (omega arith) refl (omega arith)))
        (takes 1 (omega arith) refl);
}

exclusive_jobs_example :
    (◌≡◌ {A = ℕ} 1 1)
    × (has 1 taken_one.last.queued ≡ false)
    × IsQueue taken_one.last.store taken_one.last.queued
unfolding submit take_job
exclusive_jobs_example =
    exclusive_jobs no_call_back remember 80 2 no_call_back-Quiet fresh_store [] fresh_store-IsQueue
      taken_one.reach 1 1 1 refl refl

no_lost_wakeup_example :
    ((i : ℕ) × (i < 2) × (taken_one.last.pc i ≡ awake)) ⊎ (0 < taken_one.last.store.pool.work_sem)
unfolding submit take_job dequeue
no_lost_wakeup_example =
    no_lost_wakeup no_call_back remember 80 2 no_call_back-Quiet fresh_store [] fresh_store-IsQueue
      taken_one.reach refl (omega arith)

job_alloc-unqueued_example :
    ((job_alloc taken_one.last.store).0 ≡ null)
    ⊎ ((has (job_alloc taken_one.last.store).0 taken_one.last.queued ≡ false)
        × ((i : ℕ) → job_of (taken_one.last.pc i) ≢ some (job_alloc taken_one.last.store).0))
unfolding submit take_job dequeue
job_alloc-unqueued_example =
    job_alloc-unqueued no_call_back remember 80 2 no_call_back-Quiet fresh_store []
      fresh_store-IsQueue taken_one.reach refl

Reach-Balanced_example : Balanced taken_one.last.store
unfolding submit take_job dequeue
Reach-Balanced_example =
    Reach-Balanced no_call_back remember 80 2 no_call_back-Quiet taken_one.reach refl

-- Worker 1 runs its job; the other job is still queued.
record WorkerRun : Type 0 where
  final : System (List Event)
  works : Works no_call_back remember 80 2 taken_one.last 1 final

abbrev one_ran : WorkerRun
unfolding submit take_job of_worker
one_ran = record { final = _; works = and_step no_step (runs 1 1 (pos 5) (omega arith) refl) refl }

workers_finish_example :
    ((1 < work_left 2 taken_one.last) × Move no_call_back remember 80 2 one_ran.final)
    ⊎ ((1 ≡ work_left 2 taken_one.last) × AtRest 2 one_ran.final)
unfolding submit take_job dequeue
workers_finish_example =
    workers_finish no_call_back remember 80 2 no_call_back-Quiet fresh_store [] fresh_store-IsQueue
      taken_one.reach (omega arith) refl one_ran.works
