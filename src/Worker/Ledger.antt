-- ===== src/Worker/Ledger.antt =====
-- The statistics of a pool add up: each submitted job is queued, running, or counted as completed,
-- failed or cancelled, all modulo 2 ^ 32.
use open_hsm.Base.{ℕ, ◌≡◌, inl, inr, arith, ◌+◌, Ptr, ℤ, is_neg, Bool-cases, u32, some}
use open_hsm.Hsm.{Event}
use open_hsm.Worker.{Store}
use open_hsm.Worker.Ops.{
  assign_id, prepare, link_last, count_submit, submit, unlink, mark_cancelled, cancel,
}
use open_hsm.Worker.Thread.{
  dequeue, take_job, settle, run_callback, notify, signal_complete, finish_job,
}

abbrev pub Balanced : Store → Type 0
Balanced s =
    s.pool.stats.total_submitted
    ≡ u32 (
        s.pool.stats.total_completed + s.pool.stats.total_errors + s.pool.stats.total_cancelled
        + s.pool.stats.queue_depth + s.pool.stats.active_workers)

stats-linked :
    (job : Ptr) (s : Store)
    → (link_last job (prepare job (assign_id job s))).pool.stats ≡ s.pool.stats
unfolding link_last prepare assign_id
stats-linked job s = ground arith

Balanced-count_submit : (s : Store) → Balanced s → Balanced (count_submit s)
unfolding count_submit
Balanced-count_submit s b = omega arith

-- If the counters add up before a submission, they add up after it, refused or not.
pub submit-Balanced : (pool job : Ptr) (s : Store) → Balanced s → Balanced (submit pool job s).1
unfolding submit
submit-Balanced pool job s b = ground (
  arith,
  Balanced-count_submit (link_last job (prepare job (assign_id job s))),
  stats-linked job s,
)

mark_cancelled-Balanced :
    (job : Ptr) (s : Store) → Balanced s → Balanced (mark_cancelled job (unlink job s))
unfolding mark_cancelled unlink
mark_cancelled-Balanced job s b = omega arith

-- If the counters add up before a cancellation that comes to an end, they add up after it, whether
-- the job was found or not.
pub cancel-Balanced :
    (pool : Ptr) (id : ℕ) (s : Store) {c : ℤ} {s' : Store}
    → Balanced s
    → cancel pool id s ≡ some (c, s')
    → Balanced s'
unfolding cancel
cancel-Balanced pool id s b e = ground (arith, λ (z : Ptr). mark_cancelled-Balanced z s b)

dequeue-Balanced : (job : Ptr) (s : Store) → Balanced s → Balanced (dequeue job s)
unfolding dequeue
dequeue-Balanced job s b = omega arith

-- If the counters add up before a worker looks at the queue, they add up after it, whether it took a
-- job or not.
pub take_job-Balanced : (s : Store) → Balanced s → Balanced (take_job s).1
unfolding take_job
take_job-Balanced s b = ground (arith, dequeue-Balanced s.pool.head s b)

pub settle-Balanced : (job : Ptr) (s : Store) → Balanced s → Balanced (settle job s)
unfolding settle
settle-Balanced job s b = elim (Bool-cases (is_neg (s.jobs job).result)) [
  | inl bad ↦ simp bad (omega arith)
  | inr good ↦ simp good (omega arith)
]

module _ {W : Type 0} (call_back : (cb job : Ptr) → ℤ → (ctx : Ptr) → Store × W → Store × W)
    (post : Ptr → Event → W → W) (job_size : ℕ)
    (quiet : (cb job : Ptr) (r : ℤ) (ctx : Ptr) (s : Store) (w : W)
      → (call_back cb job r ctx (s, w)).0.pool.stats ≡ s.pool.stats) where
  stats-run_callback :
      (job : Ptr) (s : Store) (w : W)
      → (run_callback call_back post job_size job (s, w)).0.pool.stats ≡ s.pool.stats
  unfolding run_callback
  stats-run_callback job s w =
      ground (
        arith,
        quiet (s.jobs job).complete_cb job (s.jobs job).result (s.jobs job).complete_ctx s w,
      )

  store-notify : (job : Ptr) (s : Store) (w : W) → (notify call_back post job_size job (s, w)).0 ≡ s
  unfolding notify
  store-notify job s w = ground arith

  -- If the counters add up before a job ends, they add up after, if completion callbacks leave
  -- the statistics alone.
  pub finish_job-Balanced :
      (job : Ptr) (s : Store) (w : W)
      → Balanced s
      → Balanced (finish_job call_back post job_size job (s, w)).0
  unfolding finish_job signal_complete
  finish_job-Balanced job s w b =
      let (s', w') = run_callback call_back post job_size job (settle job s, w) in
      rw (store-notify job s' w', stats-run_callback job (settle job s) w) (settle-Balanced job s b)
