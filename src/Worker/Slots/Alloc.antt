-- ===== src/Worker/Slots/Alloc.antt =====
-- What `job_pool_alloc` and `job_pool_free` do to the 32 slots of `g_job_pool`.
use open_hsm.Base.{
  ℕ, zero, suc, ◌+◌, ◌-◌, ◌<◌, ◌≤◌, ◌≡◌, ◌≢◌, ◌⊎◌, inl, inr, refl, ◌∙◌, true, false, ◌==◌,
  if◌then◌else◌, Ptr, null, update, inc32, arith, Bool-cases,
}
use open_hsm.Worker.{pending, completed, Job, zero_job, Store}
use open_hsm.Worker.Slots.{
  idle_job, job_pool_size, g_job_pool, reusable, claim, scan, reset_slots, init_job_pool, job_alloc,
  job_free, get_next_job_id,
}

-- How many of the `n` slots from `p` on can be handed out.
unfoldable pub free_slots : ℕ → Ptr → (Ptr → Job) → ℕ
free_slots zero p jobs = 0
free_slots (suc n) p jobs = (if reusable (jobs p).state then 1 else 0) + free_slots n (p + 1) jobs

free_slots-update_out :
    (n : ℕ) (from : Ptr) (jobs : Ptr → Job) (p : Ptr) (j : Job)
    → p < from
    → free_slots n from (update jobs p j) ≡ free_slots n from jobs
unfolding free_slots
free_slots-update_out zero from jobs p j h = refl
free_slots-update_out (suc n) from jobs p j h =
    ground (arith, free_slots-update_out n (from + 1) jobs p j (omega arith))

-- Writing to a slot within the range changes the count by that slot alone.
pub free_slots-update :
    (n : ℕ) (from : Ptr) (jobs : Ptr → Job) (p : Ptr) (j : Job)
    → from ≤ p
    → p < from + n
    → free_slots n from (update jobs p j) + (if reusable (jobs p).state then 1 else 0)
      ≡ free_slots n from jobs + (if reusable j.state then 1 else 0)
unfolding free_slots
free_slots-update zero from jobs p j lo hi = absurd (omega arith)
free_slots-update (suc n) from jobs p j lo hi = elim (Bool-cases (from == p)) [
  | inl here ↦ ground (arith, free_slots-update_out n (from + 1) jobs p j)
  | inr on ↦ ground (arith, free_slots-update n (from + 1) jobs p j)
]

scan-first :
    (n : ℕ) (from : Ptr) (s : Store)
    → null < from
    → ((free_slots n from s.jobs ≡ 0) × (scan n from s ≡ (null, s)))
      ⊎ ((p : Ptr) × (scan n from s ≡ (p, claim p s))
          × (from ≤ p)
          × (p < from + n)
          × (reusable (s.jobs p).state ≡ true))
unfolding scan free_slots
scan-first zero from s h = inl (refl, refl)
scan-first (suc n) from s h = elim (Bool-cases (reusable (s.jobs from).state)) [
  | inl free ↦ inr (from, simp free, omega arith, omega arith, free)
  | inr used ↦ elim (scan-first n (from + 1) s (omega arith)) [
    | inl (none_left, e) ↦ inl (simp (used, none_left), simp (used, e))
    | inr (p, e, lo, hi, free) ↦ inr (p, simp (used, e), omega arith, omega arith, free)
  ]
]

abbrev pub free_count : Store → ℕ
free_count s = free_slots job_pool_size g_job_pool s.jobs

reset_slots-before :
    (n : ℕ) (from : Ptr) (jobs : Ptr → Job) (p : Ptr)
    → p < from
    → reset_slots n from jobs p ≡ jobs p
unfolding reset_slots
reset_slots-before zero from jobs p h = refl
reset_slots-before (suc n) from jobs p h =
    ground (arith, reset_slots-before n (from + 1) (update jobs from idle_job) p)

free_slots-reset_slots :
    (n : ℕ) (from : Ptr) (jobs : Ptr → Job) → free_slots n from (reset_slots n from jobs) ≡ n
unfolding free_slots reset_slots
free_slots-reset_slots zero from jobs = refl
free_slots-reset_slots (suc n) from jobs = ground (
  arith,
  reset_slots-before n (from + 1) (update jobs from idle_job) from,
  free_slots-reset_slots n (from + 1) (update jobs from idle_job),
)

-- The store in which the search of `job_pool_alloc` runs.
abbrev pub ready : Store → Store
ready s = if s.pool_initialized then s else init_job_pool s

-- The first use of the pool finds all of its slots free.
pub free_count-ready : (s : Store) → s.pool_initialized ≡ false → free_count (ready s) ≡ 32
unfolding init_job_pool
free_count-ready s off = simp off (free_slots-reset_slots job_pool_size g_job_pool s.jobs)

initialized-claim : (p : Ptr) (s : Store) → (claim p s).pool_initialized ≡ s.pool_initialized
unfolding claim get_next_job_id
initialized-claim p s = refl

pub jobs-claim : (p : Ptr) (s : Store) (a : Ptr) → a ≢ p → (claim p s).jobs a ≡ s.jobs a
unfolding claim get_next_job_id
jobs-claim p s a ne = ground arith

claim_self :
    (p : Ptr) (s : Store)
    → (claim p s).jobs p ≡ record zero_job { id = (claim p s).id_counter; state = pending }
unfolding claim get_next_job_id
claim_self p s = ground arith

free_slots-claim :
    (n : ℕ) (from p : Ptr) (s : Store)
    → from ≤ p
    → p < from + n
    → reusable (s.jobs p).state ≡ true
    → free_slots n from (claim p s).jobs + 1 ≡ free_slots n from s.jobs
unfolding claim get_next_job_id
free_slots-claim n from p s lo hi free = ground (
  arith,
  free_slots-update n from s.jobs p (record zero_job { id = inc32 s.id_counter; state = pending }),
)

-- `job_pool_alloc` returns NULL, and changes nothing more than setting up the pool, exactly when no
-- slot is completed or cancelled. Otherwise it returns the address of such a slot of the pool; that
-- slot is pending with all else but its id zero, every other slot is as it was, and one slot fewer
-- is free.
pub job_alloc_lem :
    (s : Store)
    → ((free_count (ready s) ≡ 0) × (job_alloc s ≡ (null, ready s)))
      ⊎ ((p : Ptr) × (job_alloc s ≡ (p, claim p (ready s)))
          × (g_job_pool ≤ p)
          × (p < g_job_pool + job_pool_size)
          × (reusable ((ready s).jobs p).state ≡ true)
          × ((claim p (ready s)).jobs p
              ≡ record zero_job { id = (claim p (ready s)).id_counter; state = pending })
          × ((a : Ptr) → a ≢ p → (claim p (ready s)).jobs a ≡ (ready s).jobs a)
          × (free_count (claim p (ready s)) + 1 ≡ free_count (ready s)))
unfolding job_alloc
job_alloc_lem s = elim (scan-first job_pool_size g_job_pool (ready s) (omega arith)) [
  | inl (none_left, e) ↦ inl (none_left, e)
  | inr (p, e, lo, hi, free) ↦ inr (
    p,
    e,
    lo,
    hi,
    free,
    claim_self p (ready s),
    jobs-claim p (ready s),
    free_slots-claim job_pool_size g_job_pool p (ready s) lo hi free,
  )
]

-- Giving a slot of the pool back makes one more slot free, unless it was free already.
pub job_free_lem :
    (job : Ptr) (s : Store)
    → g_job_pool ≤ job
    → job < g_job_pool + job_pool_size
    → free_count (job_free job s) + (if reusable (s.jobs job).state then 1 else 0)
      ≡ free_count s + 1
unfolding job_free
job_free_lem job s lo hi = ground (
  arith,
  free_slots-update job_pool_size g_job_pool s.jobs job (record (s.jobs job) { state = completed }),
)

-- The store after `k` allocations.
pub alloc_times : ℕ → Store → Store
alloc_times zero s = s
alloc_times (suc k) s = alloc_times k (job_alloc s).1

free_count-job_alloc :
    (s : Store)
    → s.pool_initialized ≡ true
    → (free_count (job_alloc s).1 ≡ free_count s - 1) × ((job_alloc s).1.pool_initialized ≡ true)
free_count-job_alloc s on =
    let same : ready s ≡ s = simp on in
    elim (job_alloc_lem s) [
      | inl (none_left, e) ↦ rw (e, same) ((let z = rw same at none_left in omega arith), on)
      | inr (p, e, _, _, _, _, _, fewer) ↦
          rw (e, same) ((let z = rw same at fewer in omega arith), initialized-claim p s ∙ on)
    ]

-- After `k` allocations in a row on a pool that is set up, `k` slots fewer are free, or none where no
-- more than `k` were.
pub free_count-alloc_times :
    (k : ℕ) (s : Store)
    → s.pool_initialized ≡ true
    → free_count (alloc_times k s) ≡ free_count s - k
unfolding alloc_times
free_count-alloc_times zero s on = omega arith
free_count-alloc_times (suc k) s on =
    let step = free_count-job_alloc s on in
    omega (arith, step.0, free_count-alloc_times k (job_alloc s).1 step.1)
