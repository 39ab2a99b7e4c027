-- ===== src/Worker/Thread/Finish.antt =====
-- A worker ends a job: its result, its state, its HSM and the semaphore.
use open_hsm.Base.{
  ℕ, ◌≡◌, arith, ◌==◌, if◌then◌else◌, ◌+◌, Ptr, null, inc32, dec32, ℤ, minus, is_neg,
}
use open_hsm.Hsm.{Event}
use open_hsm.Worker.{completed, error, Store}
use open_hsm.Worker.Thread.{store_result, finish_job}

-- What is stored as the result of a job whose function is at `f` and returned `ret`.
abbrev pub outcome : Ptr → ℤ → ℤ
outcome f ret = if f == null then minus 1 else ret

-- The event for the job's HSM.
abbrev pub event_for : ℕ → Ptr → ℤ → Event
event_for size job sig = record { signal = sig; payload = job; size = size }

module _ {W : Type 0} (call_back : (cb job : Ptr) → ℤ → (ctx : Ptr) → Store × W → Store × W)
    (post : Ptr → Event → W → W) (job_size : ℕ) (job : Ptr) (ret : ℤ) (s : Store) (w : W)
    (no_callback : (s.jobs job).complete_cb ≡ null) where
  abbrev after : Store × W
  after = finish_job call_back post job_size job (store_result job ret s, w)

  -- A job without a completion callback, once its function has returned `ret`: the stored result is
  -- `ret`, or -1 where there is no function; the job failed exactly if that is negative; one of the
  -- two counters goes up and the active workers go down; the job's HSM, if it has one, is sent
  -- the job's signal with the job, once; and the completion semaphore is posted once.
  pub finish_job_lem :
      ((after.0.jobs job).result ≡ outcome (s.jobs job).job_func ret)
      × ((after.0.jobs job).state
          ≡ (if is_neg (outcome (s.jobs job).job_func ret) then error else completed))
      × (after.0.pool.stats.total_errors ≡ (
          if is_neg (outcome (s.jobs job).job_func ret)
          then inc32 s.pool.stats.total_errors
          else s.pool.stats.total_errors))
      × (after.0.pool.stats.total_completed ≡ (
          if is_neg (outcome (s.jobs job).job_func ret)
          then s.pool.stats.total_completed
          else inc32 s.pool.stats.total_completed))
      × (after.0.pool.stats.active_workers ≡ dec32 s.pool.stats.active_workers)
      × (after.0.pool.complete_sem ≡ s.pool.complete_sem + 1)
      × (after.1 ≡ (
          if (s.jobs job).target_hsm == null
          then w
          else post
              (s.jobs job).target_hsm
              (event_for job_size job (s.jobs job).completion_signal)
              w))
  unfolding finish_job store_result
  finish_job_lem = ground arith
