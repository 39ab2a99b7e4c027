-- ===== src/Worker/Loop/Order.antt =====
-- What one job does, to the world and to the pool, when a worker runs it.
use open_hsm.Base.{
  ℕ, ◌≡◌, ◌≢◌, refl, ap, ◌∙◌, true, false, ◌==◌, if◌then◌else◌, List, [], ◌∷◌, ℤ, Ptr, null, arith,
  is_neg,
}
use open_hsm.Hsm.{Event}
use open_hsm.Worker.{Job, Pool, Store, completed, error}
use open_hsm.Worker.Members.{has}
use open_hsm.Worker.Invariant.{IsQueue}
use open_hsm.Worker.Frame.{Quiet, finish_job-IsQueue, finish_job-SameQueue}
use open_hsm.Worker.Thread.{store_result, finish_job}
use open_hsm.Worker.Loop.{call_back, call_function, execute, run_job}

module _ {W : Type 0} (func : (f ctx : Ptr) → W → ℤ × W)
    (calls : (cb job : Ptr) → ℤ → (ctx : Ptr) → W → W) (post : Ptr → Event → W → W)
    (job_size : ℕ) where
  -- The end of the job `j` at address `a`, with the result `ret`: its callback, and the event for its
  -- HSM.
  unfoldable pub told : Ptr → Job → ℤ → W → W
  told a j ret w =
      let w' = (if j.complete_cb == null then w else calls j.complete_cb a ret j.complete_ctx w) in
      if j.target_hsm == null
      then w'
      else post j.target_hsm (record { signal = j.completion_signal; payload = a; size = job_size })
          w'

  -- What a job does to the world: its function, then its end.
  unfoldable pub effect : Ptr → Job → W → W
  effect a j w = let (ret, w') = call_function func calls post job_size j w in told a j ret w'

  -- What the jobs of a list do, one after the other.
  unfoldable pub in_order : (Ptr → Job) → List Ptr → W → W
  in_order jobs [] w = w
  in_order jobs (x ∷ xs) w = in_order jobs xs (effect x (jobs x) w)

  pub in_order-same :
      (jobs jobs' : Ptr → Job) (xs : List Ptr) (w : W)
      → ((a : Ptr) → has a xs ≡ true → jobs' a ≡ jobs a)
      → in_order jobs' xs w ≡ in_order jobs xs w
  unfolding in_order
  in_order-same jobs jobs' [] w same = refl
  in_order-same jobs jobs' (x ∷ xs) w same =
      rw
        (
          same x (ground arith),
          in_order-same jobs jobs' xs (effect x (jobs x) w) (λ a i. same a (ground arith)),
        )
        refl

  quiet : Quiet (call_back func calls post job_size)
  quiet = record {
    pool_same = λ cb job r ctx s w. refl;
    jobs_same = λ cb job r ctx s w a ne. record { next = refl; prev = refl; state = refl };
  }

  abbrev pub ran : Ptr → Store → W → Store × W
  ran x s w = run_job func calls post job_size x (s, w)

  abbrev finished : Ptr → Store × W → Store × W
  finished x t = finish_job (call_back func calls post job_size) post job_size x t

  world-finish_job :
      (x : Ptr) (s : Store) (w : W) → (finished x (s, w)).1 ≡ told x (s.jobs x) (s.jobs x).result w
  unfolding finish_job told
  world-finish_job x s w = ground arith

  jobs-finish_job :
      (x a : Ptr) (s : Store) (w : W) → a ≢ x → (finished x (s, w)).0.jobs a ≡ s.jobs a
  unfolding finish_job
  jobs-finish_job x a s w ne = ground arith

  state-finish_job :
      (x : Ptr) (s : Store) (w : W)
      → ((finished x (s, w)).0.jobs x).state
        ≡ (if is_neg (s.jobs x).result then error else completed)
  unfolding finish_job
  state-finish_job x s w = ground arith

  told-store_result :
      (x : Ptr) (s : Store) (r r' : ℤ) (w : W)
      → told x ((store_result x r s).jobs x) r' w ≡ told x (s.jobs x) r' w
  unfolding told store_result
  told-store_result x s r r' w = ground arith

  result-store_result :
      (x : Ptr) (s : Store) (w : W)
      → ((store_result x (call_function func calls post job_size (s.jobs x) w).0 s).jobs x).result
        ≡ (call_function func calls post job_size (s.jobs x) w).0
  unfolding store_result call_function
  result-store_result x s w = ground arith

  jobs-store_result :
      (x a : Ptr) (s : Store) (r : ℤ) → a ≢ x → (store_result x r s).jobs a ≡ s.jobs a
  unfolding store_result
  jobs-store_result x a s r ne = ground arith

  pool-store_result : (x : Ptr) (s : Store) (r : ℤ) → (store_result x r s).pool ≡ s.pool
  unfolding store_result
  pool-store_result x s r = refl

  abbrev pub returned : Ptr → Store → W → ℤ × W
  returned x s w = call_function func calls post job_size (s.jobs x) w

  abbrev stored : Ptr → Store → W → Store
  stored x s w = store_result x (returned x s w).0 s

  -- The job `x`, which is on no queue, is run: what it does to the world, and what it leaves of the
  -- store.
  pub run_job_lem :
      (x : Ptr) (s : Store) (w : W) (xs : List Ptr)
      → IsQueue s xs
      → has x xs ≡ false
      → ((ran x s w).1 ≡ effect x (s.jobs x) w)
        × IsQueue (ran x s w).0 xs
        × ((ran x s w).0.pool.shutdown ≡ s.pool.shutdown)
        × ((ran x s w).0.pool.work_sem ≡ s.pool.work_sem)
        × ((a : Ptr) → a ≢ x → (ran x s w).0.jobs a ≡ s.jobs a)
        × (((ran x s w).0.jobs x).state ≡ (if is_neg (returned x s w).0 then error else completed))
  unfolding run_job execute effect
  run_job_lem x s w xs q out =
      let (_, w') = returned x s w in
      let (_, shut, sem) =
        finish_job-SameQueue (call_back func calls post job_size) post job_size quiet x
          (stored x s w) w' in
      (
        world-finish_job x (stored x s w) w'
            ∙ told-store_result x s (returned x s w).0 ((stored x s w).jobs x).result w'
            ∙ ap (λ (r : ℤ). told x (s.jobs x) r w') (result-store_result x s w),
        finish_job-IsQueue (call_back func calls post job_size) post job_size quiet x s w'
            (returned x s w).0 xs q out,
        shut ∙ ap (λ (p : Pool). p.shutdown) (pool-store_result x s (returned x s w).0),
        sem ∙ ap (λ (p : Pool). p.work_sem) (pool-store_result x s (returned x s w).0),
        λ a ne.
            jobs-finish_job x a (stored x s w) w' ne
            ∙ jobs-store_result x a s (returned x s w).0 ne,
        state-finish_job x (stored x s w) w'
            ∙ ap (λ (r : ℤ). if is_neg r then error else completed) (result-store_result x s w),
      )
