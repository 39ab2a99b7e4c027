-- ===== src/Worker/System/Accounts.antt =====
-- The statistics add up in every state that the system reaches.
use open_hsm.Base.{ℕ, ◌≡◌, refl, Option, none, some, ℤ, Ptr, ap}
use open_hsm.Hsm.{Event}
use open_hsm.Worker.{Store}
use open_hsm.Worker.Ops.{cancel}
use open_hsm.Worker.Thread.{store_result}
use open_hsm.Worker.Frame.{Quiet}
use open_hsm.Worker.Ledger.{
  Balanced, submit-Balanced, cancel-Balanced, take_job-Balanced, finish_job-Balanced,
}
use open_hsm.Worker.System.Defs.{
  System, the_pool, after_cancel, Step, submits, cancels, allocs, frees, shuts, posts, wakes, takes,
  runs, finishes, Reach, here, later,
}
use open_hsm.Worker.System.Clients.{pool-job_alloc, pool-job_free}

stats-store_result :
    (job : Ptr) (ret : ℤ) (s : Store) → (store_result job ret s).pool.stats ≡ s.pool.stats
unfolding store_result
stats-store_result job ret s = refl

-- A cancellation that does not come to an end leaves the store of `after_cancel` as it was.
after_cancel-Balanced : (id : ℕ) (s : Store) → Balanced s → Balanced (after_cancel id s)
after_cancel-Balanced id s b = go (cancel the_pool id s) refl
  where
    go :
        (r : Option (ℤ × Store))
        → cancel the_pool id s ≡ r
        → Balanced (elim r [ none ↦ s | some (c, t) ↦ t ])
    go none e = b
    go (some (c, t)) e = cancel-Balanced the_pool id s b e

module _ {W : Type 0} (call_back : (cb job : Ptr) → ℤ → (ctx : Ptr) → Store × W → Store × W)
    (post : Ptr → Event → W → W) (job_size : ℕ) (n : ℕ) (quiet : Quiet call_back) where
  Step-Balanced :
      {s t : System W} → Step call_back post job_size n s t → Balanced s.store → Balanced t.store
  Step-Balanced {s} (submits job nz out free) b = submit-Balanced the_pool job s.store b
  Step-Balanced {s} (cancels id u) b = after_cancel-Balanced id s.store b
  Step-Balanced {s} (allocs on) b = rw (pool-job_alloc s.store on) b
  Step-Balanced {s} (frees job out free) b = rw (pool-job_free job s.store) b
  Step-Balanced shuts b = b
  Step-Balanced posts b = b
  Step-Balanced (wakes i lt at posted) b = b
  Step-Balanced {s} (takes i lt at) b = take_job-Balanced s.store b
  Step-Balanced {s} (runs i job ret lt at) b = rw (stats-store_result job ret s.store) b
  Step-Balanced {s} (finishes i job lt at) b =
      finish_job-Balanced call_back post job_size
        (λ cb j r ctx t w. ap (λ p. p.stats) (quiet.pool_same cb j r ctx t w)) job s.store s.world b

  -- Let clients cancel no first job of the queue whose `prev` is not NULL, allocate as if in one step,
  -- and submit and free only jobs that are neither queued nor held, and let completion callbacks write
  -- to no other job and not to the pool. If the counters of the statistics add up in a state, they add up
  -- in every state that the system then reaches from it, in whatever order the steps are taken: the submitted jobs are
  -- the completed, the failed, the cancelled, the queued and the running ones, modulo 2 ^ 32.
  pub Reach-Balanced :
      {s t : System W} → Reach call_back post job_size n s t → Balanced s.store → Balanced t.store
  Reach-Balanced here b = b
  Reach-Balanced (later r st) b = Step-Balanced st (Reach-Balanced r b)
