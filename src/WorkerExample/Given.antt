-- ===== src/WorkerExample/Given.antt =====
-- The job that the example gives to the pool, and the machine that has given it.
use open_hsm.Base.{
  ◌<◌, ◌≡◌, ◌≢◌, ◌⊎◌, false, List, [], ◌∷◌, ◌++◌, length, ◌==◌, pos, Ptr, null, arith, modify,
}
use open_hsm.Worker.{Store, Job}
use open_hsm.Worker.Members.{has}
use open_hsm.Worker.Invariant.{IsQueue}
use open_hsm.Worker.Frame.{IsQueue-elsewhere}
use open_hsm.Worker.Slots.{get_next_job_id, job_init}
use open_hsm.Worker.Slots.Alloc.{free_count}
use open_hsm.Worker.Ops.{submit, submit_to_hsm}
use open_hsm.WorkerExample.{Example, sig_work_complete}
use open_hsm.WorkerExample.Handlers.{state_idle, state_processing, give_job}

-- The fields of a job that the example sets.
pub record IsFilled (self heavy done : Ptr) (j : Job) : Type 0 where
  pub function : j.job_func ≡ heavy
  pub callback : j.complete_cb ≡ done
  pub target : j.target_hsm ≡ self
  pub signal : j.completion_signal ≡ sig_work_complete

module _ (self heavy done : Ptr) where
  -- The job as the handler submits it.
  unfoldable pub filled : Ptr → Store → Store
  filled job s =
      let t = job_init job heavy self done self s in
      record t {
        jobs =
            modify t.jobs job
              (λ j. record j { target_hsm = self; completion_signal = sig_work_complete });
      }

  pub filled-IsQueue :
      (job : Ptr) (s : Store) (xs : List Ptr)
      → IsQueue s xs
      → job ≢ null
      → has job xs ≡ false
      → IsQueue (filled job s) xs
  unfolding filled job_init get_next_job_id
  filled-IsQueue job s xs q nz out =
      IsQueue-elsewhere s (filled job s) xs job q out (ground arith) (λ a ne. ground arith)

  pub give_job_eq :
      (pool job : Ptr) (s : Store)
      → job ≢ null
      → give_job self heavy done pool job s ≡ submit pool job (filled job s)
  unfolding give_job filled submit_to_hsm
  give_job_eq pool job s nz = let there : (job == null) ≡ false = ground arith in simp there

  -- A submission leaves these fields as they are.
  pub submit-filled :
      (pool job : Ptr) (s : Store)
      → job ≢ null
      → IsFilled self heavy done ((submit pool job (filled job s)).1.jobs job)
        × ((submit pool job (filled job s)).1.pool.shutdown ≡ s.pool.shutdown)
  unfolding submit filled job_init get_next_job_id
  submit-filled pool job s nz = (
    record {
      function = ground arith;
      callback = ground arith;
      target = ground arith;
      signal = ground arith;
    },
    ground arith,
  )

-- `y` is `x` once it has given a job to the pool, behind the jobs `xs`.
pub record Started (self heavy done : Ptr) (x : Example) (xs : List Ptr) (y : Example)
    : Type 0 where
  pub at :
      y.super.super
      ≡ record { error = pos 0; current = state_processing; history = x.super.super.current }
  pub job : y.current_job ≢ null
  pub queued : IsQueue y.store (xs ++ y.current_job ∷ [])
  pub fields : IsFilled self heavy done (y.store.jobs y.current_job)
  pub inbox : y.super.msg_q ≡ x.super.msg_q
  pub running : y.store.pool.shutdown ≡ x.store.pool.shutdown
  pub good : y.completed_count ≡ x.completed_count
  pub bad : y.error_count ≡ x.error_count

-- How an attempt to start the work of `x` may end in `y`, with the jobs `xs` in the queue: the machine
-- is in `processing` and its job is the last of the queue, or there is no job or no room for it, and
-- the machine is in `idle`.
abbrev pub Attempt : (self heavy done : Ptr) → Example → List Ptr → Example → Type 0
Attempt self heavy done x xs y =
    ((0 < free_count x.store)
      × (length xs < x.store.pool.queue_size)
      × Started self heavy done x xs y)
    ⊎ (((free_count x.store ≡ 0) ⊎ (length xs ≡ x.store.pool.queue_size))
        × (y.super.super
            ≡ record { error = pos 0; current = state_idle; history = x.super.super.current })
        × IsQueue y.store xs
        × (y.completed_count ≡ x.completed_count)
        × (y.error_count ≡ x.error_count))
