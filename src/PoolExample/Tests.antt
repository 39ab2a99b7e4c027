-- ===== src/PoolExample/Tests.antt =====
-- Five jobs, as the program submits them to its pool, and the theorem at them.
use open_hsm.Base.{
  ℤ, true, ℕ, ◌==◌, if◌then◌else◌, minus, ◌≡◌, refl, false, some, [], ◌∷◌, arith, pos, null,
}
use open_hsm.Worker.{Store, zero_job}
use open_hsm.Worker.Invariant.{IsQueue}
use open_hsm.Worker.Loop.{asleep}
use open_hsm.Worker.Loop.Fifo.{Ran}
use open_hsm.PoolExample.{Program, submit_jobs, run_jobs}
use open_hsm.PoolExample.Setup.{Alive, SetupResult, setup, setup_lem}
use open_hsm.PoolExample.Batch.{addresses, run_jobs-job_count}

abbrev fresh : Store
fresh = record {
  pool = record {
    head = null;
    tail = null;
    num_workers = 2;
    queue_size = 16;
    shutdown = false;
    stats = record {
      total_submitted = 0;
      total_completed = 0;
      total_cancelled = 0;
      total_errors = 0;
      queue_depth = 0;
      active_workers = 0;
    };
    work_sem = 0;
    complete_sem = 0;
  };
  jobs = λ a. zero_job;
  id_counter = 0;
  pool_initialized = false;
}

fresh-IsQueue : IsQueue fresh []
fresh-IsQueue = record {
  linked = (refl, refl);
  distinct = tt;
  depth = refl;
  bounded = omega arith;
  small = omega arith;
  waiting = λ a i. ground arith;
}

abbrev blank : Program
blank = record { job_count = 0; ids = λ a. 0 }

run_jobs-job_count_example :
    (t : Store) × (v : Program) × (run_jobs 100 200 90 91 1 96 6 5 (fresh, blank)
      ≡ (pos 0 ∷ pos 0 ∷ pos 0 ∷ pos 0 ∷ pos 0 ∷ [], some (asleep, t, v)))
    × IsQueue t []
    × Ran (addresses 100 5 0) (submit_jobs 100 200 90 91 1 5 0 (fresh, blank)).1.0 t
    × (v.job_count ≡ 5)
run_jobs-job_count_example =
    run_jobs-job_count 100 200 90 91 1 (omega arith) (omega arith) (omega arith) 96 6 5 fresh blank
      fresh-IsQueue refl (omega arith) (omega arith)

-- The platform refuses the second worker.
abbrev refuse_second : ℕ → ℤ
refuse_second i = if i == 1 then minus 11 else pos 0

abbrev first_part : ℤ × Alive
first_part = setup (pos 0) (λ t. some t) (pos 0) (pos 0) (pos 0) true refuse_second (pos 0)

setup_lem_example : SetupResult (pos 0) (pos 0) (pos 0) (pos 0) true refuse_second first_part
setup_lem_example =
    setup_lem (pos 0) (λ t. some t) (pos 0) (pos 0) (pos 0) true refuse_second (pos 0)
