-- ===== src/Worker/Loop.antt =====
-- The loop of osa_worker_pool_thread (core/osa_worker.c) with one worker and no other caller: the
-- worker sleeps on the work semaphore, takes a job, runs it and ends it.
--
-- A job function, a completion callback and the posts act on some part of the world `W`; neither
-- writes to the store. `osa_sem_wait` without a timeout returns 0 when there is a token, and sleeps
-- when there is none.
pub mod Order
pub mod Fifo
mod Tests
use open_hsm.Base.{
  ℕ, zero, suc, ◌-◌, ◌==◌, if◌then◌else◌, Option, none, some, List, [], ◌∷◌, ℤ, minus, Ptr, null,
}
use open_hsm.Hsm.{Event}
use open_hsm.Worker.{Job, Store}
use open_hsm.Worker.Thread.{leave, nothing, got, take_job, store_result, finish_job}

-- How the loop stops: it has left, or it sleeps on the semaphore.
pub data Stop : Type 0 where
  left : Stop
  asleep : Stop

-- `osa_sem_wait` takes a token of the work semaphore.
abbrev pub woken : Store → Store
woken s = record s { pool = record (s.pool) { work_sem = s.pool.work_sem - 1 } }

module _ {W : Type 0} (func : (f ctx : Ptr) → W → ℤ × W)
    (calls : (cb job : Ptr) → ℤ → (ctx : Ptr) → W → W) (post : Ptr → Event → W → W)
    (job_size : ℕ) where
  abbrev pub call_back : (cb job : Ptr) → ℤ → (ctx : Ptr) → Store × W → Store × W
  call_back cb job result ctx (s, w) = (s, calls cb job result ctx w)

  -- What the function of the job returns, where there is one.
  unfoldable pub call_function : Job → W → ℤ × W
  call_function j w = if j.job_func == null then (minus 1, w) else func j.job_func j.job_ctx w

  -- The job's function runs, and its result is stored.
  unfoldable pub execute : Ptr → Store × W → Store × W
  execute job (s, w) = let (ret, w') = call_function (s.jobs job) w in (store_result job ret s, w')

  unfoldable pub run_job : Ptr → Store × W → Store × W
  run_job job x = finish_job call_back post job_size job (execute job x)

  -- The loop, with fuel for its turns; `none` when the fuel runs out.
  unfoldable pub worker_loop : ℕ → Store × W → Option (Stop × Store × W)
  worker_loop zero x = none
  worker_loop (suc f) (s, w) =
      if s.pool.work_sem == 0
      then some (asleep, s, w)
      else (let (t, s') = take_job (woken s) in
          elim t [
            | leave ↦ some (left, s', w)
            | nothing ↦ worker_loop f (s', w)
            | got job ↦ worker_loop f (run_job job (s', w))
          ])
