-- ===== src/Worker/Ops.antt =====
-- The job queue of core/osa_worker.c: osa_worker_pool_submit, osa_worker_pool_submit_to_hsm,
-- osa_worker_pool_cancel, osa_worker_pool_get_stats, osa_worker_pool_wait.
--
-- `pool` and `job` are pointers, 0 for NULL. Each function holds the pool's mutex over all that it
-- reads and writes, but for the wait in the middle of osa_worker_pool_wait.
use open_hsm.Base.{
  ℕ, zero, suc, ◌+◌, Bool, true, false, ◌||◌, not, Option, none, some, leb, ◌==◌, if◌then◌else◌, ℤ,
  pos, negsuc, minus, eqb_ℤ, etimedout, Ptr, null, modify, inc32, dec32,
}
use open_hsm.Worker.{JobState, pending, completed, cancelled, Job, Stats, Store}
use open_hsm.Worker.Slots.{get_next_job_id}

-- `if (job->id == 0) job->id = get_next_job_id();`
unfoldable pub assign_id : Ptr → Store → Store
unfolding get_next_job_id
assign_id job s =
    if (s.jobs job).id == 0
    then (let (id, s') = get_next_job_id s in
        record s' { jobs = modify s'.jobs job (λ j. record j { id = id }) })
    else s

-- `job->state = PENDING; job->next = NULL; job->prev = NULL;`
unfoldable pub prepare : Ptr → Store → Store
prepare job s = record s {
  jobs = modify s.jobs job (λ j. record j { state = pending; next = null; prev = null });
}

-- The job goes behind the tail.
unfoldable pub link_last : Ptr → Store → Store
link_last job s =
    if s.pool.tail == null
    then record s { pool = record (s.pool) { head = job; tail = job } }
    else record s {
      jobs =
          modify (modify s.jobs s.pool.tail (λ j. record j { next = job })) job
            (λ j. record j { prev = s.pool.tail });
      pool = record (s.pool) { tail = job };
    }

-- Two counters go up, and `work_sem` is posted.
unfoldable pub count_submit : Store → Store
count_submit s = record s {
  pool = record (s.pool) {
    stats = record (s.pool.stats) {
      queue_depth = inc32 s.pool.stats.queue_depth;
      total_submitted = inc32 s.pool.stats.total_submitted;
    };
    work_sem = s.pool.work_sem + 1;
  };
}

unfoldable pub submit : (pool job : Ptr) → Store → ℤ × Store
unfolding assign_id prepare link_last count_submit
submit pool job s =
    if (pool == null) || (job == null)
    then (minus 1, s)
    else if leb s.pool.queue_size s.pool.stats.queue_depth
    then (minus 1, s)
    else (pos 0, count_submit (link_last job (prepare job (assign_id job s))))

unfoldable pub submit_to_hsm : (pool job target_hsm : Ptr) → ℤ → Store → ℤ × Store
unfolding submit
submit_to_hsm pool job target_hsm signal s =
    if job == null
    then (minus 1, s)
    else submit pool job (record s {
      jobs =
          modify s.jobs job (λ j. record j { target_hsm = target_hsm; completion_signal = signal });
    })

-- The search of `osa_worker_pool_cancel` from `p` on, with fuel: the job found, or NULL; `none`
-- when the fuel runs out.
unfoldable pub search_id : ℕ → (Ptr → Job) → Ptr → ℕ → Option Ptr
search_id zero jobs p id = none
search_id (suc f) jobs p id =
    let rest = search_id f jobs (jobs p).next id in
    if p == null then some null else if (jobs p).id == id then some p else rest

-- The two `if`s that take `job` out of the list.
unfoldable pub unlink_jobs : Ptr → (Ptr → Job) → Ptr → Job
unlink_jobs job jobs =
    let back = (jobs job).prev in
    let front = (jobs job).next in
    let jobs' =
      (if back == null then jobs else modify jobs back (λ j. record j { next = front })) in
    if front == null then jobs' else modify jobs' front (λ j. record j { prev = back })

unfoldable pub unlink : Ptr → Store → Store
unfolding unlink_jobs
unlink job s = record s {
  jobs = unlink_jobs job s.jobs;
  pool = record (s.pool) {
    head = if (s.jobs job).prev == null then (s.jobs job).next else s.pool.head;
    tail = if (s.jobs job).next == null then (s.jobs job).prev else s.pool.tail;
  };
}

unfoldable pub mark_cancelled : Ptr → Store → Store
mark_cancelled job s = record s {
  jobs = modify s.jobs job (λ j. record j { state = cancelled });
  pool = record (s.pool) {
    stats = record (s.pool.stats) {
      queue_depth = dec32 s.pool.stats.queue_depth;
      total_cancelled = inc32 s.pool.stats.total_cancelled;
    };
  };
}

-- The fuel is one more than the length that the queue should have.
unfoldable pub cancel : (pool : Ptr) → ℕ → Store → Option (ℤ × Store)
unfolding search_id unlink mark_cancelled
cancel pool job_id s =
    if pool == null
    then some (minus 1, s)
    else elim (search_id (suc s.pool.stats.queue_depth) s.jobs s.pool.head job_id) [
      | none ↦ none
      | some job ↦
          if job == null then some (minus 1, s) else some (pos 0, mark_cancelled job (unlink job s))
    ]

-- `stats` is whether the output pointer is not NULL.
unfoldable pub get_stats : (pool : Ptr) → (stats : Bool) → Store → ℤ × Option Stats
get_stats pool stats s =
    if (pool == null) || not stats then (minus 1, none) else (pos 0, some s.pool.stats)

abbrev pub finished : JobState → Bool
finished completed = true
finished cancelled = true
finished _ = false

-- `waited` is what `osa_sem_wait` on `complete_sem` returns, where it is called.
unfoldable pub wait : (pool job : Ptr) → ℤ → (waited : ℤ) → Store → ℤ
wait pool job (pos timeout_ms) waited s =
    if (pool == null) || (job == null)
    then minus 1
    else if timeout_ms == 0
    then (if finished (s.jobs job).state then pos 0 else minus 1)
    else if eqb_ℤ waited (minus etimedout)
    then minus 1
    else waited
wait pool job (negsuc n) waited s =
    if (pool == null) || (job == null)
    then minus 1
    else if eqb_ℤ waited (pos 0)
    then pos 0
    else minus 1
