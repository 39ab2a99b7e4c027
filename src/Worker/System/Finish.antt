-- ===== src/Worker/System/Finish.antt =====
-- The workers of a running pool get to the end of its queue, in whatever order they take their steps.
use open_hsm.Base.{
  total, total-pos, le-total, ℕ, ◌+◌, ◌<◌, ◌≡◌, ◌⊎◌, inl, inr, refl, ap, ◌∙◌, true, false, ◌==◌,
  List, [], ◌∷◌, length, ℤ, pos, Ptr, null, arith, Bool-cases,
}
use open_hsm.Hsm.{Event}
use open_hsm.Worker.{Store}
use open_hsm.Worker.Invariant.{IsQueue}
use open_hsm.Worker.Cancel.{first_with, Unlinkable, cancel_lem, shutdown-withdrawn}
use open_hsm.Worker.Thread.{take_job}
use open_hsm.Worker.Frame.{Quiet, finish_job-SameQueue}
use open_hsm.Worker.System.Threads.{Pc, waiting, awake, working, ran, gone, awake-total}
use open_hsm.Worker.System.Defs.{
  System, Inv, Step, submits, cancels, allocs, frees, shuts, posts, wakes, takes, runs, finishes,
  Reach, here, later, pc_after, the_pool, after_cancel,
}
use open_hsm.Worker.System.Clients.{
  shutdown-submit, pool-job_alloc, pool-job_free, after_cancel-some,
}
use open_hsm.Worker.System.Workers.{flags-take_job, flags-store_result}
use open_hsm.Worker.System.Safety.{idle_system, Reach-Inv}
use open_hsm.Worker.System.Effort.{
  weight, work_left, of_worker, Move, Works, no_step, and_step, work_left-Step, shutdown-Step,
}

-- A worker has left its loop only where the pool is shut down.
pub record Stays {W : Type 0} (s : System W) : Type 0 where
  pub off : (i : ℕ) → s.pc i ≡ gone → s.store.pool.shutdown ≡ true

-- All workers wait, no job is queued, and the semaphore has no token left.
pub record AtRest {W : Type 0} (n : ℕ) (s : System W) : Type 0 where
  pub waits : (i : ℕ) → i < n → s.pc i ≡ waiting
  pub no_job : s.queued ≡ []
  pub no_token : s.store.pool.work_sem ≡ 0

nil_if_zero : (xs : List Ptr) → length xs ≡ 0 → xs ≡ []
nil_if_zero [] e = refl
nil_if_zero (x ∷ xs) e = absurd (omega (arith, e))

gone-take_job : (s : Store) → pc_after (take_job s).0 ≡ gone → s.pool.shutdown ≡ true
unfolding take_job
gone-take_job s e = ground (arith, e)

module _ {W : Type 0} (n : ℕ) (s : System W) (inv : Inv n s) where
  shutdown-after_cancel :
      (id : ℕ)
      → (first_with s.store.jobs s.queued id ≡ null)
        ⊎ Unlinkable s.store (first_with s.store.jobs s.queued id)
      → (after_cancel id s.store).pool.shutdown ≡ s.store.pool.shutdown
  shutdown-after_cancel id u =
      elim (cancel_lem s.store s.queued inv.queue the_pool id (omega arith) u) [
        | inl (missing, e) ↦ ap (λ (t : Store). t.pool.shutdown) (after_cancel-some n s inv id e)
        | inr (found, e, _, q) ↦
            ap (λ (t : Store). t.pool.shutdown) (after_cancel-some n s inv id e)
            ∙ shutdown-withdrawn (first_with s.store.jobs s.queued id) s.store
      ]

module _ {W : Type 0} (call_back : (cb job : Ptr) → ℤ → (ctx : Ptr) → Store × W → Store × W)
    (post : Ptr → Event → W → W) (job_size : ℕ) (n : ℕ) (quiet : Quiet call_back) where
  Step-Stays : {s t : System W} → Step call_back post job_size n s t → Inv n s → Stays s → Stays t
  Step-Stays {s} (submits job nz out free) inv h = record {
    off = λ k e. shutdown-submit job s.store ∙ h.off k e;
  }
  Step-Stays {s} (cancels id u) inv h = record {
    off = λ k e. shutdown-after_cancel n s inv id u ∙ h.off k e;
  }
  Step-Stays {s} (allocs on) inv h = record { off = rw (pool-job_alloc s.store on) h.off }
  Step-Stays {s} (frees job out free) inv h = record { off = rw (pool-job_free job s.store) h.off }
  Step-Stays shuts inv h = record { off = λ k e. refl }
  Step-Stays posts inv h = record { off = h.off }
  Step-Stays (wakes i lt at posted) inv h = record { off = λ k e. ground (arith, h.off k, e) }
  Step-Stays {s} (takes i lt at) inv h = record {
    off = λ k e. ground (arith, h.off k, e, gone-take_job s.store, flags-take_job s.store);
  }
  Step-Stays {s} (runs i job ret lt at) inv h = record {
    off = λ k e. ground (arith, h.off k, e, flags-store_result job ret s.store);
  }
  Step-Stays {s} (finishes i job lt at) inv h = record {
    off = λ k e. ground (
      arith,
      h.off k,
      e,
      (finish_job-SameQueue call_back post job_size quiet job s.store s.world).1,
    );
  }

  module _ (s : System W) where
    step_at :
        (i : ℕ) (p : Pc) → i < n → s.pc i ≡ p → 0 < weight p → Move call_back post job_size n s
    unfolding of_worker
    step_at i awake lt at h = (_, takes i lt at, refl)
    step_at i (working j) lt at h = (_, runs i j (pos 0) lt at, refl)
    step_at i (ran j) lt at h = (_, finishes i j lt at, refl)
    step_at i waiting lt at h = absurd (omega (arith, h))
    step_at i gone lt at h = absurd (omega (arith, h))

    module _ (inv : Inv n s) (h : Stays s) (on : s.store.pool.shutdown ≡ false) where
      -- A worker with nothing to do waits.
      waits : (p : Pc) (i : ℕ) → s.pc i ≡ p → weight p ≡ 0 → p ≡ waiting
      waits waiting i at e = refl
      waits gone i at e = ground (arith, h.off i at, on)
      waits awake i at e = absurd (omega (arith, e))
      waits (working j) i at e = absurd (omega (arith, e))
      waits (ran j) i at e = absurd (omega (arith, e))

      waits_if_zero : total weight n s.pc ≡ 0 → (i : ℕ) → i < n → s.pc i ≡ waiting
      waits_if_zero none_busy i lt =
          waits (s.pc i) i refl (omega (arith, none_busy, le-total weight n s.pc i lt))

      -- Where all workers wait and a job is queued, the semaphore is posted.
      posted_if_zero : total weight n s.pc ≡ 0 → 0 < length s.queued → 0 < s.store.pool.work_sem
      posted_if_zero none_busy there = elim (Bool-cases (s.store.pool.work_sem == 0)) [
        | inr posted ↦ ground arith
        | inl none_posted ↦
            let (i, lt, at) = awake-total n s.pc (ground (arith, inv.tokens, on)) in
            absurd (omega (arith, none_busy, le-total weight n s.pc i lt, ap weight at))
      ]

      -- While there is work left, some worker can take a step.
      next_step : 0 < n → 0 < work_left n s → Move call_back post job_size n s
      unfolding of_worker
      next_step some_worker left = elim (Bool-cases (total weight n s.pc == 0)) [
        | inr busy ↦
            let (i, lt, w) = total-pos weight n s.pc (ground arith) in step_at i (s.pc i) lt refl w
        | inl none_busy ↦
            let zero_weight : total weight n s.pc ≡ 0 = ground arith in
            (
              _,
              wakes 0 some_worker (waits_if_zero zero_weight 0 some_worker)
                  (ground (arith, left, zero_weight, posted_if_zero zero_weight)),
              refl,
            )
      ]

  Works-Reach :
      {s t u : System W} {k : ℕ}
      → Reach call_back post job_size n s t
      → Works call_back post job_size n t k u
      → Reach call_back post job_size n s u
  Works-Reach r no_step = r
  Works-Reach r (and_step ws st e) = later (Works-Reach r ws) st

  module _ (s : Store) (w : W) (q : IsQueue s []) where
    Reach-Stays : {t : System W} → Reach call_back post job_size n (idle_system s w) t → Stays t
    Reach-Stays here = record { off = λ i e. cc }
    Reach-Stays (later r st) =
        Step-Stays st (Reach-Inv call_back post job_size n quiet s w q r) (Reach-Stays r)

    -- The work left and the flag, after `k` steps of workers.
    work_left-Works :
        {t u : System W} {k : ℕ}
        → Reach call_back post job_size n (idle_system s w) t
        → Works call_back post job_size n t k u
        → (k + work_left n u ≡ work_left n t) × (u.store.pool.shutdown ≡ t.store.pool.shutdown)
    work_left-Works r no_step = (omega arith, refl)
    work_left-Works r (and_step ws st e) =
        let (sum, flag) = work_left-Works r ws in
        let inv = Reach-Inv call_back post job_size n quiet s w q (Works-Reach r ws) in
        (
          omega (arith, sum, work_left-Step call_back post job_size n quiet st e inv),
          shutdown-Step call_back post job_size n quiet st e ∙ flag,
        )

    -- Let clients cancel no first job of the queue whose `prev` is not NULL, allocate as if in one step,
    -- and submit and free only jobs that are neither queued nor held, and let completion callbacks write
    -- to no other job and not to the pool. From a state that the system then reaches from an idle one,
    -- with at least one worker and the pool not shut down, let the workers take `k` steps in any order,
    -- and the clients none. Either `k` is less than `work_left`, and a worker can take a further step;
    -- or it is `work_left`, and all workers wait, the queue is empty and the semaphore is at zero. So,
    -- under these conditions, no schedule of the workers runs for ever or stops short of the last job.
    pub workers_finish :
        {t u : System W} {k : ℕ}
        → Reach call_back post job_size n (idle_system s w) t
        → 0 < n
        → t.store.pool.shutdown ≡ false
        → Works call_back post job_size n t k u
        → ((k < work_left n t) × Move call_back post job_size n u)
          ⊎ ((k ≡ work_left n t) × AtRest n u)
    workers_finish {t} {u} {k} r some_worker on ws =
        let (sum, flag) = work_left-Works r ws in
        let there = Works-Reach r ws in
        let inv = Reach-Inv call_back post job_size n quiet s w q there in
        let stays = Reach-Stays there in
        elim (Bool-cases (work_left n u == 0)) [
          | inr some_left ↦
              inl
                (ground (arith, sum), next_step u inv stays (flag ∙ on) some_worker (ground arith))
          | inl none_left ↦
              let zero_left : work_left n u ≡ 0 = ground arith in
              inr (
                omega (arith, sum, zero_left),
                record {
                  waits = waits_if_zero u inv stays (flag ∙ on) (omega (arith, zero_left));
                  no_job = nil_if_zero u.queued (omega (arith, zero_left));
                  no_token = omega (arith, zero_left);
                },
              )
        ]
