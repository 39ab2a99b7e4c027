-- ===== src/Worker/Loop/Tests.antt =====
-- The loop of a worker on a queue of two jobs, and the theorem at it.
use open_hsm.Base.{
  ◌≡◌, refl, true, false, some, List, [], ◌∷◌, arith, ◌==◌, if◌then◌else◌, ◌++◌, ℤ, pos, Ptr,
}
use open_hsm.Hsm.{Event}
use open_hsm.Worker.{Job, Store, completed, zero_job}
use open_hsm.Worker.Invariant.{IsQueue}
use open_hsm.Worker.Loop.{asleep, call_function, worker_loop}
use open_hsm.Worker.Loop.Order.{told, effect, in_order}
use open_hsm.Worker.Loop.Fifo.{Ran, worker_loop_lem}

-- The job 40 runs the function 90 on 7; the job 41 has no function, and a callback.
abbrev memory : Ptr → Job
memory a =
    if a == 40
    then record zero_job { id = 1; next = 41; job_func = 90; job_ctx = 7 }
    else if a == 41
    then record zero_job { id = 2; prev = 40; complete_cb = 91 }
    else record zero_job { state = completed }

abbrev two : Store
two = record {
  pool = record {
    head = 40;
    tail = 41;
    num_workers = 1;
    queue_size = 3;
    shutdown = false;
    stats = record {
      total_submitted = 2;
      total_completed = 0;
      total_cancelled = 0;
      total_errors = 0;
      queue_depth = 2;
      active_workers = 0;
    };
    work_sem = 2;
    complete_sem = 0;
  };
  jobs = memory;
  id_counter = 2;
  pool_initialized = true;
}

abbrev both : List Ptr
both = 40 ∷ 41 ∷ []

two-IsQueue : IsQueue two both
two-IsQueue = record {
  linked = (refl, (λ e. omega arith), (refl, (λ e. omega arith), refl, (refl, refl)));
  distinct = (refl, (refl, tt));
  depth = refl;
  bounded = omega arith;
  small = omega arith;
  waiting = λ a i. ground arith;
}

-- The world is the list of what was called.
abbrev log_function : (f ctx : Ptr) → List Ptr → ℤ × List Ptr
log_function f ctx w = (pos 5, w ++ f ∷ ctx ∷ [])

abbrev log_callback : (cb job : Ptr) → ℤ → (ctx : Ptr) → List Ptr → List Ptr
log_callback cb job r ctx w = w ++ cb ∷ job ∷ []

abbrev no_post : Ptr → Event → List Ptr → List Ptr
no_post hsm e w = w

in_order-both : in_order log_function log_callback no_post 96 memory both [] ≡ 90 ∷ 7 ∷ 91 ∷ 41 ∷ []
unfolding in_order effect told call_function
in_order-both = refl

worker_loop_lem_example :
    (s' : Store) × (worker_loop log_function log_callback no_post 96 3 (two, [])
      ≡ some (asleep, s', in_order log_function log_callback no_post 96 memory both []))
    × IsQueue s' []
    × Ran both two s'
worker_loop_lem_example =
    worker_loop_lem log_function log_callback no_post 96 3 two [] both two-IsQueue refl
      (omega arith) (omega arith)
