-- ===== src/Worker.antt =====
-- The data of core/osa_worker.h and core/osa_worker.c: jobs, the pool, and the memory they live in.
--
-- Jobs live at addresses of `jobs`; the functions, contexts and HSMs that they point to are
-- addresses that the pool only hands on. The value of a semaphore is a number beside the pool.
-- The unit of an address is one `struct osa_worker_job`.
pub mod Slots
pub mod Ops
pub mod Members
pub mod Chain
pub mod Invariant
pub mod Submit
pub mod Cancel
pub mod Thread
pub mod Loop
pub mod Stale
pub mod Ledger
pub mod Frame
pub mod Lifecycle
pub mod System
mod Tests
use open_hsm.Base.{ℕ, ◌+◌, ◌<◌, Bool, false, true, ℤ, pos, Ptr, null}

-- `enum osa_worker_job_state`
pub data JobState : Type 0 where
  pending running completed cancelled error : JobState

-- `struct osa_worker_job`
pub record Job : Type 0 where
  pub id : ℕ
  pub state : JobState
  pub job_func : Ptr
  pub job_ctx : Ptr
  pub complete_cb : Ptr
  pub complete_ctx : Ptr
  pub target_hsm : Ptr
  pub completion_signal : ℤ
  pub result : ℤ
  pub next : Ptr
  pub prev : Ptr

-- All bytes zero, as `memset` leaves them; OSA_JOB_PENDING is 0.
abbrev pub zero_job : Job
zero_job = record {
  id = 0;
  state = pending;
  job_func = null;
  job_ctx = null;
  complete_cb = null;
  complete_ctx = null;
  target_hsm = null;
  completion_signal = pos 0;
  result = pos 0;
  next = null;
  prev = null;
}

-- `struct osa_worker_pool_stats`, each field a uint32_t
pub record Stats : Type 0 where
  pub total_submitted : ℕ
  pub total_completed : ℕ
  pub total_cancelled : ℕ
  pub total_errors : ℕ
  pub queue_depth : ℕ
  pub active_workers : ℕ

-- The queue, limits and flags of `struct osa_worker_pool`, and the values of its two semaphores.
pub record Pool : Type 0 where
  pub head : Ptr
  pub tail : Ptr
  pub num_workers : ℕ
  pub queue_size : ℕ
  pub shutdown : Bool
  pub stats : Stats
  pub work_sem : ℕ
  pub complete_sem : ℕ

-- The pool, the jobs, and the globals of osa_worker.c.
pub record Store : Type 0 where
  pub pool : Pool
  pub jobs : Ptr → Job
  pub id_counter : ℕ
  pub pool_initialized : Bool
