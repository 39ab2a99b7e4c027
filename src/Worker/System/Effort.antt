-- ===== src/Worker/System/Effort.antt =====
-- How much the workers have left to do: each of their steps lowers it by one.
use open_hsm.Base.{
  total, total-update, ℕ, zero, suc, ◌+◌, ◌*◌, ◌<◌, ◌≡◌, inl, inr, refl, ap, subst, ◌∙◌, Bool, true,
  false, length, ℤ, Ptr, update, arith, Bool-cases, List-cases,
}
use open_hsm.Hsm.{Event}
use open_hsm.Worker.{Store}
use open_hsm.Worker.Invariant.{IsQueue}
use open_hsm.Worker.Thread.{Taken, got, take_job}
use open_hsm.Worker.Thread.Take.{take_job-cons, take_job-nil}
use open_hsm.Worker.Frame.{Quiet, finish_job-SameQueue}
use open_hsm.Worker.System.Threads.{Pc, waiting, awake, working, ran, gone}
use open_hsm.Worker.System.Defs.{
  System, Inv, Step, submits, cancels, allocs, frees, shuts, posts, wakes, takes, runs, finishes,
  pc_after, queued_after,
}
use open_hsm.Worker.System.Workers.{flags-take_job, flags-store_result, take_job-shut}

-- The steps that a thread has before it waits again.
abbrev pub weight : Pc → ℕ
weight waiting = 0
weight awake = 1
weight (working j) = 2
weight (ran j) = 1
weight gone = 0

abbrev pub work_left : {W : Type 0} → ℕ → System W → ℕ
work_left n s = 2 * s.store.pool.work_sem + total weight n s.pc + 2 * length s.queued

module _ {W : Type 0} (call_back : (cb job : Ptr) → ℤ → (ctx : Ptr) → Store × W → Store × W)
    (post : Ptr → Event → W → W) (job_size : ℕ) (n : ℕ) where
  -- Whether a worker takes the step.
  unfoldable pub of_worker : {s t : System W} → Step call_back post job_size n s t → Bool
  of_worker (submits job nz out free) = false
  of_worker (cancels id u) = false
  of_worker (allocs on) = false
  of_worker (frees job out free) = false
  of_worker shuts = false
  of_worker posts = false
  of_worker (wakes i lt at posted) = true
  of_worker (takes i lt at) = true
  of_worker (runs i job ret lt at) = true
  of_worker (finishes i job lt at) = true

  -- A step that a worker can take from `s`.
  abbrev pub Move : System W → Type 0
  Move s = (t : System W) × (st : Step call_back post job_size n s t) × (of_worker st ≡ true)

  -- `k` steps of workers, and no others.
  pub data Works (s : System W) : ℕ → System W → Type 0 where
    no_step : Works s zero s
    and_step :
        {k : ℕ} {t u : System W}
        → Works s k t
        → (st : Step call_back post job_size n t u) → of_worker st ≡ true
        → Works s (suc k) u

module _ {W : Type 0} (n : ℕ) (s : System W) (inv : Inv n s) (i : ℕ) (lt : i < n) where
  open s use {store, world, pc, queued}

  abbrev after_take : Taken × Store → System W
  after_take r = record s {
    store = r.1;
    pc = update pc i (pc_after r.0);
    queued = queued_after r.0 queued;
  }

  -- What the first critical section takes off the queue comes into the hands of the worker.
  abbrev in_hand : Taken → ℕ
  in_hand r = weight (pc_after r) + 2 * length (queued_after r queued)

  in_hand-take_job : in_hand (take_job store).0 ≡ 2 * length queued
  in_hand-take_job = elim (Bool-cases store.pool.shutdown) [
    | inl off ↦ ap (λ (r : Taken × Store). in_hand r.0) (take_job-shut store off) ∙ omega arith
    | inr on ↦ elim (List-cases queued) [
      | inl e ↦
          ap (λ (r : Taken × Store). in_hand r.0)
            (take_job-nil store on (subst (IsQueue store) e inv.queue))
          ∙ omega arith
      | inr (x, xs, e) ↦
          let (t, _, _, _, _) = take_job-cons store on x xs (subst (IsQueue store) e inv.queue) in
          let left : queued_after (got x) queued ≡ xs = ap (queued_after (got x)) e in
          ap in_hand t ∙ omega (arith, ap length left, ap length e)
    ]
  ]

  work_left-takes : pc i ≡ awake → suc (work_left n (after_take (take_job store))) ≡ work_left n s
  work_left-takes at = omega (
    arith,
    in_hand-take_job,
    flags-take_job store,
    total-update weight n pc i (pc_after (take_job store).0) lt,
    ap weight at,
  )

module _ {W : Type 0} (call_back : (cb job : Ptr) → ℤ → (ctx : Ptr) → Store × W → Store × W)
    (post : Ptr → Event → W → W) (job_size : ℕ) (n : ℕ) (quiet : Quiet call_back) where
  -- A step of a worker lowers what is left by one.
  pub work_left-Step :
      {s t : System W} (st : Step call_back post job_size n s t)
      → of_worker call_back post job_size n st ≡ true
      → Inv n s
      → suc (work_left n t) ≡ work_left n s
  unfolding of_worker
  work_left-Step (submits job nz out free) e inv = ground (arith, e)
  work_left-Step (cancels id u) e inv = ground (arith, e)
  work_left-Step (allocs on) e inv = ground (arith, e)
  work_left-Step (frees job out free) e inv = ground (arith, e)
  work_left-Step shuts e inv = ground (arith, e)
  work_left-Step posts e inv = ground (arith, e)
  work_left-Step {s} (wakes i lt at posted) e inv =
      omega (arith, posted, total-update weight n s.pc i awake lt, ap weight at)
  work_left-Step {s} (takes i lt at) e inv = work_left-takes n s inv i lt at
  work_left-Step {s} (runs i job ret lt at) e inv = omega (
    arith,
    flags-store_result job ret s.store,
    total-update weight n s.pc i (ran job) lt,
    ap weight at,
  )
  work_left-Step {s} (finishes i job lt at) e inv = omega (
    arith,
    (finish_job-SameQueue call_back post job_size quiet job s.store s.world).2,
    total-update weight n s.pc i waiting lt,
    ap weight at,
  )

  -- And it leaves the shutdown flag as it is.
  pub shutdown-Step :
      {s t : System W} (st : Step call_back post job_size n s t)
      → of_worker call_back post job_size n st ≡ true
      → t.store.pool.shutdown ≡ s.store.pool.shutdown
  unfolding of_worker
  shutdown-Step (submits job nz out free) e = ground (arith, e)
  shutdown-Step (cancels id u) e = ground (arith, e)
  shutdown-Step (allocs on) e = ground (arith, e)
  shutdown-Step (frees job out free) e = ground (arith, e)
  shutdown-Step shuts e = ground (arith, e)
  shutdown-Step posts e = ground (arith, e)
  shutdown-Step (wakes i lt at posted) e = refl
  shutdown-Step {s} (takes i lt at) e = (flags-take_job s.store).0
  shutdown-Step {s} (runs i job ret lt at) e = (flags-store_result job ret s.store).0
  shutdown-Step {s} (finishes i job lt at) e =
      (finish_job-SameQueue call_back post job_size quiet job s.store s.world).1
