-- ===== src/Worker/Slots.antt =====
-- The static job pool of core/osa_worker.c: get_next_job_id, init_job_pool, job_pool_alloc,
-- job_pool_free, osa_worker_job_init, osa_worker_job_alloc, osa_worker_job_free.
pub mod Alloc
use open_hsm.Base.{
  ℕ, zero, suc, ◌+◌, Bool, true, false, ◌&&◌, ◌||◌, ltb, leb, ◌==◌, if◌then◌else◌, pos, Ptr, null,
  update, modify, inc32,
}
use open_hsm.Worker.{JobState, pending, running, completed, cancelled, error, Job, zero_job, Store}

abbrev pub job_pool_size : ℕ
job_pool_size = 32

-- The address of the first of the 32 slots of `g_job_pool`.
abbrev pub g_job_pool : Ptr
g_job_pool = 1

-- `++g_job_id_counter`: the new value and the store that holds it
unfoldable pub get_next_job_id : Store → ℕ × Store
get_next_job_id s = (inc32 s.id_counter, record s { id_counter = inc32 s.id_counter })

abbrev pub idle_job : Job
idle_job = record zero_job { id = 0; state = completed }

-- The loop of `init_job_pool`, over the `n` slots from `p` on.
unfoldable pub reset_slots : ℕ → Ptr → (Ptr → Job) → Ptr → Job
reset_slots zero p jobs = jobs
reset_slots (suc n) p jobs = reset_slots n (p + 1) (update jobs p idle_job)

unfoldable pub init_job_pool : Store → Store
unfolding reset_slots
init_job_pool s =
    if s.pool_initialized
    then s
    else record s { jobs = reset_slots job_pool_size g_job_pool s.jobs; pool_initialized = true }

abbrev pub reusable : JobState → Bool
reusable completed = true
reusable cancelled = true
reusable _ = false

-- The slot at `p` zeroed, with the next id, as a pending job.
unfoldable pub claim : Ptr → Store → Store
unfolding get_next_job_id
claim p s =
    let (id, s') = get_next_job_id s in
    record s' { jobs = update s'.jobs p (record zero_job { id = id; state = pending }) }

-- The loop of `job_pool_alloc`, over the `n` slots from `p` on.
unfoldable pub scan : ℕ → Ptr → Store → Ptr × Store
unfolding claim
scan zero p s = (null, s)
scan (suc n) p s =
    let rest = scan n (p + 1) s in if reusable (s.jobs p).state then (p, claim p s) else rest

unfoldable pub job_alloc : Store → Ptr × Store
unfolding init_job_pool scan
job_alloc s =
    let s' = (if s.pool_initialized then s else init_job_pool s) in scan job_pool_size g_job_pool s'

unfoldable pub job_free : Ptr → Store → Store
job_free job s =
    if leb g_job_pool job && ltb job (g_job_pool + job_pool_size)
    then record s { jobs = modify s.jobs job (λ j. record j { state = completed }) }
    else s

unfoldable pub job_init : Ptr → (job_func job_ctx complete_cb complete_ctx : Ptr) → Store → Store
unfolding get_next_job_id
job_init job job_func job_ctx complete_cb complete_ctx s =
    if job == null
    then s
    else (let (id, s') = get_next_job_id s in
        record s' {
          jobs = update s'.jobs job (record zero_job {
            id = id;
            state = pending;
            job_func = job_func;
            job_ctx = job_ctx;
            complete_cb = complete_cb;
            complete_ctx = complete_ctx;
            target_hsm = null;
            completion_signal = pos 0;
            result = pos 0;
            next = null;
            prev = null;
          });
        })
