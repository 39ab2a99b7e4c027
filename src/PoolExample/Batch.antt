-- ===== src/PoolExample/Batch.antt =====
-- The loop that submits, on a pool that has room for its jobs.
use mathlib.Core.List.{append_assoc, append-nil}
use open_hsm.Base.{
  ℕ, zero, suc, ◌+◌, ◌<◌, ◌≤◌, ◌≡◌, ◌≢◌, inl, inr, refl, ap, ap₂, ◌∙◌, true, false, Option, some,
  List, [], ◌∷◌, ◌++◌, length, length-append, ◌==◌, ℤ, pos, Ptr, null, arith, replicate, update,
  Bool-cases,
}
use open_hsm.Worker.{Job, Pool, Store}
use open_hsm.Worker.Members.{has, has-append}
use open_hsm.Worker.Invariant.{IsQueue}
use open_hsm.Worker.Frame.{IsQueue-elsewhere}
use open_hsm.Worker.Slots.{get_next_job_id, job_init}
use open_hsm.Worker.Ops.{submit}
use open_hsm.Worker.Submit.{submit_lem}
use open_hsm.Worker.Loop.{Stop, asleep, call_function}
use open_hsm.Worker.Loop.Order.{effect, in_order, told}
use open_hsm.Worker.Loop.Fifo.{Ran, worker_loop_lem}
use open_hsm.PoolExample.{Program, test_job_func, print_result, no_hsm, submit_jobs, run_jobs}

-- The addresses of `n` job items from number `i` on.
unfoldable pub addresses : (items : Ptr) → (n i : ℕ) → List Ptr
addresses items zero i = []
addresses items (suc n) i = (items + i) ∷ addresses items n (suc i)

-- The job runs a function and tells no HSM.
pub record Counts (j : Job) : Type 0 where
  pub function : j.job_func ≢ null
  pub silent : j.target_hsm ≡ null

length-addresses : (items : Ptr) (n i : ℕ) → length (addresses items n i) ≡ n
unfolding addresses
length-addresses items zero i = refl
length-addresses items (suc n) i = ap suc (length-addresses items n (suc i))

job_count-effect :
    (job_size : ℕ) (x : Ptr) (j : Job) (w : Program)
    → Counts j
    → (effect test_job_func print_result no_hsm job_size x j w).job_count ≡ w.job_count + 1
unfolding effect told call_function test_job_func
job_count-effect job_size x j w c = ground (arith, c.function, c.silent)

job_count-in_order :
    (job_size : ℕ) (jobs : Ptr → Job) (xs : List Ptr) (w : Program)
    → ((a : Ptr) → has a xs ≡ true → Counts (jobs a))
    → (in_order test_job_func print_result no_hsm job_size jobs xs w).job_count
      ≡ w.job_count + length xs
unfolding in_order
job_count-in_order job_size jobs [] w counts = omega arith
job_count-in_order job_size jobs (x ∷ xs) w counts = omega (
  arith,
  job_count-in_order job_size jobs xs
      (effect test_job_func print_result no_hsm job_size x (jobs x) w)
      (λ a h. counts a (ground (arith, h))),
  job_count-effect job_size x (jobs x) w (counts x (ground arith)),
)

module _ (items numbers job_func done pool : Ptr) (nz : items ≢ null) (fn : job_func ≢ null)
    (pn : pool ≢ null) where
  abbrev ready : ℕ → Store → Store
  ready i s = job_init (items + i) job_func (numbers + i) done null s

  ready-IsQueue :
      (i : ℕ) (s : Store) (xs : List Ptr)
      → IsQueue s xs
      → has (items + i) xs ≡ false
      → IsQueue (ready i s) xs
  unfolding job_init get_next_job_id
  ready-IsQueue i s xs q out =
      IsQueue-elsewhere s (ready i s) xs (items + i) q out (ground (arith, nz))
        (λ a ne. ground (arith, nz))

  pool-ready : (i : ℕ) (s : Store) → (ready i s).pool ≡ s.pool
  unfolding job_init get_next_job_id
  pool-ready i s = ground (arith, nz)

  new-Counts :
      (i : ℕ) (s : Store) → Counts ((submit pool (items + i) (ready i s)).1.jobs (items + i))
  unfolding submit job_init get_next_job_id
  new-Counts i s = record { function = ground (arith, nz, fn); silent = ground (arith, nz) }

  old-Counts :
      (i : ℕ) (s : Store) (a : Ptr)
      → a ≢ items + i
      → Counts (s.jobs a)
      → Counts ((submit pool (items + i) (ready i s)).1.jobs a)
  unfolding submit job_init get_next_job_id
  old-Counts i s a ne c = record {
    function = ground (arith, ne, c.function);
    silent = ground (arith, ne, c.silent);
  }

  shutdown-submit :
      (i : ℕ) (s : Store)
      → ((submit pool (items + i) (ready i s)).1.pool.shutdown ≡ s.pool.shutdown)
        × ((submit pool (items + i) (ready i s)).1.pool.queue_size ≡ s.pool.queue_size)
  unfolding submit job_init get_next_job_id
  shutdown-submit i s = ground (arith, nz)

  abbrev submitted : (n i : ℕ) → Store × Program → List ℤ × (Store × Program)
  submitted n i x = submit_jobs items numbers job_func done pool n i x

  -- What is left when the jobs from number `i` on are submitted behind the jobs `xs`.
  pub record Submitted (n i : ℕ) (s : Store) (w : Program) (xs : List Ptr) : Type 0 where
    accepted : (submitted n i (s, w)).0 ≡ replicate n (pos 0)
    queued : IsQueue (submitted n i (s, w)).1.0 (xs ++ addresses items n i)
    counts :
        (a : Ptr)
        → has a (xs ++ addresses items n i) ≡ true
        → Counts ((submitted n i (s, w)).1.0.jobs a)
    running : (submitted n i (s, w)).1.0.pool.shutdown ≡ s.pool.shutdown
    tokens : (submitted n i (s, w)).1.0.pool.work_sem ≡ s.pool.work_sem + n
    uncounted : (submitted n i (s, w)).1.1.job_count ≡ w.job_count

  pub submit_jobs_lem :
      (n i : ℕ) (s : Store) (w : Program) (xs : List Ptr)
      → IsQueue s xs
      → ((k : ℕ) → i ≤ k → has (items + k) xs ≡ false)
      → ((a : Ptr) → has a xs ≡ true → Counts (s.jobs a))
      → length xs + n ≤ s.pool.queue_size
      → Submitted n i s w xs
  unfolding submit_jobs addresses
  submit_jobs_lem zero i s w xs q fresh counts room = record {
    accepted = refl;
    queued = rw (append-nil xs) q;
    counts = rw (append-nil xs) counts;
    running = refl;
    tokens = omega arith;
    uncounted = refl;
  }
  submit_jobs_lem (suc n) i s w xs q fresh counts room =
      let j = items + i in
      let out = fresh i (omega arith) in
      let q' = ready-IsQueue i s xs q out in
      elim (submit_lem (ready i s) xs j q' (omega (arith, nz)) out pool pn) [
        | inl (full, _) ↦
            absurd (omega (arith, full, room, ap (λ (p : Pool). p.queue_size) (pool-ready i s)))
        | inr (_, ok, q'', sem) ↦
            let (shut, size) = shutdown-submit i s in
            let t = (submit pool j (ready i s)).1 in
            let rest =
              submit_jobs_lem n (suc i) t (record w { ids = update w.ids (numbers + i) (i + 1) })
                (xs ++ j ∷ []) q''
                (λ k le.
                  ground
                    (arith, has-append (items + k) xs (j ∷ []), fresh k (omega (arith, le)), le))
                (λ a h. elim (Bool-cases (a == j)) [
                  | inl here ↦ let is_j : a ≡ j = ground (arith, here) in rw is_j (new-Counts i s)
                  | inr there ↦
                      old-Counts i s a (ground (arith, there))
                        (counts a (ground (arith, h, there, has-append a xs (j ∷ []))))
                ])
                (omega (arith, size, room, length-append xs (j ∷ []))) in
            let regroup = append_assoc xs (j ∷ []) (addresses items n (suc i)) in
            record {
              accepted = ap₂ (λ (c : ℤ) (cs : List ℤ). c ∷ cs) ok rest.accepted;
              queued = rw (← regroup) rest.queued;
              counts = rw (← regroup) rest.counts;
              running = rest.running ∙ shut;
              tokens =
                  omega (arith, rest.tokens, sem, ap (λ (p : Pool). p.work_sem) (pool-ready i s));
              uncounted = rest.uncounted;
            }
      ]

  -- On a running pool with an empty valid queue that has room for `n` jobs, where the addresses of the
  -- jobs, of their function and of the pool are not NULL: the loop that
  -- submits `n` jobs gets 0 for each, and a worker that then runs them, with fuel above the tokens of
  -- its semaphore, comes to sleep with the queue empty, each of the jobs over, no other job touched
  -- since the submissions, and `job_count` up by `n`.
  pub run_jobs-job_count :
      (job_size f n : ℕ) (s : Store) (w : Program)
      → IsQueue s []
      → s.pool.shutdown ≡ false
      → n ≤ s.pool.queue_size
      → s.pool.work_sem + n < f
      → (t : Store) × (v : Program) × (run_jobs items numbers job_func done pool job_size f n (s, w)
          ≡ (replicate n (pos 0), some (asleep, t, v)))
        × IsQueue t []
        × Ran (addresses items n 0) (submitted n 0 (s, w)).1.0 t
        × (v.job_count ≡ w.job_count + n)
  unfolding run_jobs
  run_jobs-job_count job_size f n s w q on room fuel =
      let batch =
        submit_jobs_lem n 0 s w [] q (λ k le. refl) (λ a h. ground arith) (omega (arith, room)) in
      let (t, loops, q', over) =
        worker_loop_lem test_job_func print_result no_hsm job_size f (submitted n 0 (s, w)).1.0
          (submitted n 0 (s, w)).1.1 (addresses items n 0) batch.queued (batch.running ∙ on)
          (omega (arith, length-addresses items n 0, batch.tokens))
          (omega (arith, batch.tokens, fuel)) in
      (
        t,
        in_order test_job_func print_result no_hsm job_size (submitted n 0 (s, w)).1.0.jobs
            (addresses items n 0) (submitted n 0 (s, w)).1.1,
        ap₂ (λ (cs : List ℤ) (o : Option (Stop × Store × Program)). (cs, o)) batch.accepted loops,
        q',
        over,
        omega (
          arith,
          job_count-in_order job_size (submitted n 0 (s, w)).1.0.jobs (addresses items n 0)
              (submitted n 0 (s, w)).1.1 batch.counts,
          length-addresses items n 0,
          batch.uncounted,
        ),
      )
