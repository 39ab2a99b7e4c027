-- ===== src/Worker/Tests.antt =====
-- The job pool and the job queue at concrete stores, and the theorems at these.
use open_hsm.Base.{
  ℕ, none, ◌+◌, ◌-◌, ◌^◌, ◌≡◌, ◌≢◌, ◌<◌, ◌≤◌, ◌⊎◌, inl, inr, refl, true, false, some, List, [], ◌∷◌,
  arith, ◌==◌, if◌then◌else◌, length, ℤ, pos, minus, Ptr, null,
}
use open_hsm.Hsm.{Event}
use open_hsm.Worker.{Job, pending, running, completed, cancelled, zero_job, Pool, Store}
use open_hsm.Worker.Slots.{claim, reusable, job_alloc}
use open_hsm.Worker.Slots.Alloc.{free_count, ready, job_alloc_lem}
use open_hsm.Worker.Invariant.{IsQueue}
use open_hsm.Worker.Ops.{submit, cancel}
use open_hsm.Worker.Submit.{submit_lem}
use open_hsm.Worker.Cancel.{withdrawn, cancel_lem}
use open_hsm.Worker.Thread.{got, take_job, store_result, finish_job}
use open_hsm.Worker.Thread.Take.{take_job-cons}
use open_hsm.Worker.Thread.Finish.{finish_job_lem}
use open_hsm.Worker.Stale.{cancel-stale_head}
use open_hsm.Worker.Lifecycle.{Handles, pool_init, pool_start}
use open_hsm.Worker.Lifecycle.Init.{InitResult, pool_init_lem}
use open_hsm.Worker.Lifecycle.Run.{Makes, Refuses, pool_start_lem}
use open_hsm.Worker.Frame.{Quiet, finish_job-IsQueue}

-- The jobs 40 and 41 wait, in this order; 42 is free. Job 40 runs the function at 90 for the HSM
-- at 80, and `back` is its `prev`.
abbrev memory : Ptr → Ptr → Job
memory back a =
    if a == 40
    then record zero_job {
      id = 1;
      next = 41;
      prev = back;
      job_func = 90;
      target_hsm = 80;
      completion_signal = pos 7;
    }
    else if a == 41
    then record zero_job { id = 2; prev = 40 }
    else record zero_job { state = completed }

abbrev pool_of_two : Pool
pool_of_two = record {
  head = 40;
  tail = 41;
  num_workers = 1;
  queue_size = 3;
  shutdown = false;
  stats = record {
    total_submitted = 2;
    total_completed = 0;
    total_cancelled = 0;
    total_errors = 0;
    queue_depth = 2;
    active_workers = 0;
  };
  work_sem = 2;
  complete_sem = 0;
}

abbrev store_of : Ptr → Store
store_of back = record {
  pool = pool_of_two;
  jobs = memory back;
  id_counter = 2;
  pool_initialized = true;
}

abbrev two : Store
two = store_of null

-- As `two`, but the first job's `prev` still leads to a job that a worker took.
abbrev left_over : Store
left_over = store_of 39

abbrev both : List Ptr
both = 40 ∷ 41 ∷ []

store_of-IsQueue : (back : Ptr) → IsQueue (store_of back) both
store_of-IsQueue back = record {
  linked = (refl, (λ e. omega arith), (refl, (λ e. omega arith), refl, (refl, refl)));
  distinct = (refl, (refl, tt));
  depth = refl;
  bounded = omega arith;
  small = omega arith;
  waiting = λ a i. ground arith;
}

submit_lem_example :
    ((length both ≡ 3) × (submit 1 42 two ≡ (minus 1, two)))
    ⊎ ((length both < 3)
        × ((submit 1 42 two).0 ≡ pos 0)
        × IsQueue (submit 1 42 two).1 (40 ∷ 41 ∷ 42 ∷ [])
        × ((submit 1 42 two).1.pool.work_sem ≡ 3))
submit_lem_example =
    submit_lem two both 42 (store_of-IsQueue null) (omega arith) refl 1 (omega arith)

cancel_lem_example :
    ((41 ≡ null) × (cancel 1 2 two ≡ some (minus 1, two)))
    ⊎ ((41 ≢ null)
        × (cancel 1 2 two ≡ some (pos 0, withdrawn 41 two))
        × (((withdrawn 41 two).jobs 41).state ≡ cancelled)
        × IsQueue (withdrawn 41 two) (40 ∷ []))
cancel_lem_example =
    cancel_lem two both (store_of-IsQueue null) 1 2 (omega arith) (inr (inl (omega arith)))

take_job-cons_example :
    ((take_job two).0 ≡ got 40)
    × IsQueue (take_job two).1 (41 ∷ [])
    × (((take_job two).1.jobs 40).state ≡ running)
    × (((take_job two).1.jobs 40).next ≡ null)
    × (((take_job two).1.jobs 40).prev ≡ null)
take_job-cons_example = take_job-cons two refl 40 (41 ∷ []) (store_of-IsQueue null)

cancel-stale_head_example :
    (cancel 1 1 left_over ≡ some (pos 0, withdrawn 40 left_over))
    × (((withdrawn 40 left_over).jobs 40).state ≡ cancelled)
    × ((withdrawn 40 left_over).pool.head ≡ 40)
    × ((take_job (withdrawn 40 left_over)).0 ≡ got 40)
cancel-stale_head_example =
    cancel-stale_head left_over 40 (41 ∷ []) (store_of-IsQueue 39) 1 (omega arith) (omega arith)
      refl

abbrev no_call_back : (cb job : Ptr) → ℤ → (ctx : Ptr) → Store × List Event → Store × List Event
no_call_back cb job r ctx p = p

abbrev remember : Ptr → Event → List Event → List Event
remember hsm e es = e ∷ es

abbrev ended : Store × List Event
ended = finish_job no_call_back remember 80 40 (store_result 40 (pos 3) two, [])

finish_job_lem_example :
    ((ended.0.jobs 40).result ≡ pos 3)
    × ((ended.0.jobs 40).state ≡ completed)
    × (ended.0.pool.stats.total_errors ≡ 0)
    × (ended.0.pool.stats.total_completed ≡ 1)
    × (ended.0.pool.stats.active_workers ≡ 2 ^ 32 - 1)
    × (ended.0.pool.complete_sem ≡ 1)
    × (ended.1 ≡ record { signal = pos 7; payload = 40; size = 80 } ∷ [])
finish_job_lem_example = finish_job_lem no_call_back remember 80 40 (pos 3) two [] refl

job_alloc_lem_example :
    ((free_count (ready two) ≡ 0) × (job_alloc two ≡ (null, ready two)))
    ⊎ ((p : Ptr) × (job_alloc two ≡ (p, claim p (ready two)))
        × (1 ≤ p)
        × (p < 33)
        × (reusable ((ready two).jobs p).state ≡ true)
        × ((claim p (ready two)).jobs p
            ≡ record zero_job { id = (claim p (ready two)).id_counter; state = pending })
        × ((a : Ptr) → a ≢ p → (claim p (ready two)).jobs a ≡ (ready two).jobs a)
        × (free_count (claim p (ready two)) + 1 ≡ free_count (ready two)))
job_alloc_lem_example = job_alloc_lem two

abbrev no_handles : Handles
no_handles = record {
  name = none;
  lock = false;
  work_sem = false;
  complete_sem = false;
  workers = false;
}

-- The second semaphore cannot be made.
pool_init_lem_example :
    InitResult true
      (pos 0)
      (pos 0)
      (minus 12)
      true
      (pool_init true none 0 5 (λ t. some t) (pos 0) (pos 0) (minus 12) true)
pool_init_lem_example = pool_init_lem true none 0 5 (λ t. some t) (pos 0) (pos 0) (minus 12) true

abbrev refuse_third : ℕ → ℤ
refuse_third i = if i == 2 then minus 11 else pos 0

abbrev four_workers : Pool
four_workers = record pool_of_two { num_workers = 4 }

abbrev with_workers : Handles
with_workers = record no_handles { workers = true }

pool_start_lem_example :
    (Makes refuse_third four_workers.num_workers 0
      × (pool_start (some (four_workers, with_workers)) refuse_third (pos 0)
          ≡ (pos 0, four_workers.num_workers, true)))
    ⊎ ((k : ℕ) × (k < four_workers.num_workers)
        × Refuses refuse_third k 0
        × (pool_start (some (four_workers, with_workers)) refuse_third (pos 0)
            ≡ (minus 1, k, false)))
pool_start_lem_example = pool_start_lem four_workers with_workers refuse_third (pos 0) refl

no_call_back-Quiet : Quiet no_call_back
no_call_back-Quiet = record {
  pool_same = λ cb job r ctx s w. refl;
  jobs_same = λ cb job r ctx s w a ne. record { next = refl; prev = refl; state = refl };
}

finish_job-IsQueue_example :
    IsQueue (finish_job no_call_back remember 80 42 (store_result 42 (minus 3) two, [])).0 both
finish_job-IsQueue_example =
    finish_job-IsQueue no_call_back remember 80 no_call_back-Quiet 42 two [] (minus 3) both
      (store_of-IsQueue null) refl
