-- ===== src/Worker/Thread.antt =====
-- The worker thread of core/osa_worker.c, osa_worker_pool_thread, one critical section at a time.
--
-- What the thread calls and core/osa_worker.c does not hold is a parameter: a completion callback may
-- do anything to the store, the address of an HSM leads to some part of the world `W`, and what
-- `job_func` returns is given to the call.
pub mod Take
pub mod Finish
use open_hsm.Base.{
  ℕ, zero, suc, ◌+◌, Bool, true, false, ◌==◌, if◌then◌else◌, ℤ, pos, negsuc, minus, is_neg, Ptr,
  null, update, modify, inc32, dec32,
}
use open_hsm.Hsm.{Event}
use open_hsm.Worker.{
  JobState, pending, running, completed, cancelled, error, Job, Stats, Pool, Store,
}

-- What a worker does after it has looked at the queue: leave, go back to the semaphore, run a job.
pub data Taken : Type 0 where
  leave : Taken
  nothing : Taken
  got : Ptr → Taken

-- The head of the queue is taken off, and becomes a running job.
unfoldable pub dequeue : Ptr → Store → Store
dequeue job s = record s {
  jobs = modify s.jobs job (λ j. record j { next = null; prev = null; state = running });
  pool = record (s.pool) {
    head = (s.jobs job).next;
    tail = if (s.jobs job).next == null then null else s.pool.tail;
    stats = record (s.pool.stats) {
      active_workers = inc32 s.pool.stats.active_workers;
      queue_depth = dec32 s.pool.stats.queue_depth;
    };
  };
}

-- The first critical section, lines 109 to 131, once `osa_sem_wait` has returned 0.
unfoldable pub take_job : Store → Taken × Store
take_job s =
    if s.pool.shutdown
    then (leave, s)
    else if s.pool.head == null
    then (nothing, s)
    else (got s.pool.head, dequeue s.pool.head s)

-- `ret` is what `job_func` returns, where there is one.
unfoldable pub store_result : Ptr → ℤ → Store → Store
store_result job ret s = record s {
  jobs = modify s.jobs job (λ j. record j { result = if j.job_func == null then minus 1 else ret });
}

-- The state and the counters of a job that has run.
unfoldable pub settle : Ptr → Store → Store
settle job s =
    if is_neg (s.jobs job).result
    then record s {
      jobs = modify s.jobs job (λ j. record j { state = error });
      pool = record (s.pool) {
        stats = record (s.pool.stats) {
          active_workers = dec32 s.pool.stats.active_workers;
          total_errors = inc32 s.pool.stats.total_errors;
        };
      };
    }
    else record s {
      jobs = modify s.jobs job (λ j. record j { state = completed });
      pool = record (s.pool) {
        stats = record (s.pool.stats) {
          active_workers = dec32 s.pool.stats.active_workers;
          total_completed = inc32 s.pool.stats.total_completed;
        };
      };
    }

unfoldable pub signal_complete : Store → Store
signal_complete s = record s { pool = record (s.pool) { complete_sem = s.pool.complete_sem + 1 } }

module _ {W : Type 0} (call_back : (cb job : Ptr) → ℤ → (ctx : Ptr) → Store × W → Store × W)
    (post : Ptr → Event → W → W) (job_size : ℕ) where
  -- `if (job->complete_cb) job->complete_cb(job, job->result, job->complete_ctx);`
  unfoldable pub run_callback : Ptr → Store × W → Store × W
  run_callback job (s, w) =
      if (s.jobs job).complete_cb == null
      then (s, w)
      else call_back (s.jobs job).complete_cb job (s.jobs job).result (s.jobs job).complete_ctx
          (s, w)

  -- The event that tells the HSM of a job.
  abbrev completion : Ptr → Store → Event
  completion job s = record {
    signal = (s.jobs job).completion_signal;
    payload = job;
    size = job_size;
  }

  unfoldable pub notify : Ptr → Store × W → Store × W
  notify job (s, w) =
      if (s.jobs job).target_hsm == null
      then (s, w)
      else (s, post (s.jobs job).target_hsm (completion job s) w)

  -- The second critical section, lines 144 to 174.
  unfoldable pub finish_job : Ptr → Store × W → Store × W
  unfolding settle run_callback notify signal_complete
  finish_job job (s, w) =
      let (s', w') = notify job (run_callback job (settle job s, w)) in (signal_complete s', w')
