-- ===== src/WorkerExample.antt =====
-- examples/linux/hsm_worker.c: a state machine that hands its work to the worker pool.
--
-- The machine and the pool's store are one state. A handler is one step on it: no worker runs between
-- the pool calls of a handler. `self` is the address of the example, which is also that of its HSM;
-- `heavy` and `done` are the addresses of the job function and of its callback. The log is left out.
pub mod Handlers
pub mod Given
pub mod Start
pub mod Finish
pub mod Delegate
pub mod Unknown
pub mod Life
pub mod Cycle
mod Tests
use Prim.Native.String.{String}
use open_hsm.Base.{
  ℕ, zero, suc, ◌+◌, ◌*◌, ◌%◌, Bool, true, false, not, Option, none, some, List, [], ◌∷◌, ◌==◌,
  if◌then◌else◌, ℤ, pos, negsuc, minus, eqb_ℤ, Ptr, null, u32,
}
use open_hsm.Queue.{Wake, Outcome}
use open_hsm.Hsm.{Event, Embeds, event_of}
use open_hsm.OsaHsm.{
  OsaHsm, EmbedsHsm, embeds, Layout, sig_str, active_init, active_start, event_post, to_int,
}
use open_hsm.Worker.{Store}

-- `enum worker_pool_example_signals`
abbrev pub sig_work_start : ℤ
sig_work_start = pos 4

abbrev pub sig_work_complete : ℤ
sig_work_complete = pos 5

abbrev pub sig_work_cancel : ℤ
sig_work_cancel = pos 6

abbrev pub sig_work_progress : ℤ
sig_work_progress = pos 7

abbrev pub sig_work_error : ℤ
sig_work_error = pos 8

-- `struct worker_pool_example`, and the store of the pool that it points to.
pub record Example : Type 0 where
  pub super : OsaHsm
  pub worker_pool : Ptr
  pub current_job : Ptr
  pub job_count : ℕ
  pub completed_count : ℕ
  pub error_count : ℕ
  pub operation_progress : ℤ
  pub operation_result : ℤ
  pub store : Store

abbrev pub example_hsm : EmbedsHsm Example
example_hsm = record { hsm = λ x. x.super; with_hsm = λ h x. record x { super = h } }

abbrev pub example_active : Embeds Example
example_active = embeds example_hsm

-- `get_sig_name`
unfoldable pub sig_name : ℤ → Option String
unfolding sig_str
sig_name signal =
    if eqb_ℤ signal sig_work_start
    then some "work_start"
    else if eqb_ℤ signal sig_work_complete
    then some "work_complete"
    else if eqb_ℤ signal sig_work_cancel
    then some "work_cancel"
    else if eqb_ℤ signal sig_work_progress
    then some "work_progress"
    else if eqb_ℤ signal sig_work_error
    then some "work_error"
    else sig_str signal

-- The loop of `simulate_heavy_computation`, its `i` and the progress: `looks` is what it finds each time
-- that it looks whether its job is cancelled. Whether it gets through, and the progress it leaves.
unfoldable pub work : (looks : List Bool) → (i : ℕ) → ℤ → Bool × ℤ
work [] i progress = (true, progress)
work (is_cancelled ∷ looks) i progress =
    let rest = work looks (suc i) (pos ((i + 1) * 20)) in
    if is_cancelled then (false, progress) else rest

-- `simulate_heavy_computation`: its result, and the progress. `looks` has five entries.
unfoldable pub heavy_computation : (looks : List Bool) → Example → ℤ × ℤ
unfolding work
heavy_computation looks x =
    let (through, progress) = work looks 0 x.operation_progress in
    if not through
    then (minus 1, progress)
    else if x.job_count % 7 == 0
    then (minus 1, progress)
    else (to_int (u32 (x.job_count * 10)), progress)

-- `job_completion_callback`
unfoldable pub completion_callback : ℤ → Example → Example
completion_callback result x = record x { operation_result = result }

-- `example_create`: `created` is what the creation of the thread returns.
unfoldable pub example_create :
    (worker_pool idle : Ptr) → (name : List ℕ) → (created : ℤ × Ptr) → Example → ℤ × Example
unfolding active_init active_start
example_create worker_pool idle name created x =
    let named = record (x.super) { name = some name } in
    let (ret, h) = active_init named idle in
    if not (eqb_ℤ ret (pos 0))
    then (ret, record x { super = h; worker_pool = worker_pool })
    else (let (c, started) = active_start (some h) (pos 20) created in
        elim started [
          | none ↦ (c, record x { super = h; worker_pool = worker_pool })
          | some h' ↦ (c, record x { super = h'; worker_pool = worker_pool })
        ])

-- `example_post_event`
unfoldable pub example_post_event : Layout → Example → ℤ → List Wake → Outcome (ℤ × Option OsaHsm)
unfolding event_post
example_post_event lay x signal ws = event_post lay (some (x.super)) (some (event_of signal)) 0 ws
