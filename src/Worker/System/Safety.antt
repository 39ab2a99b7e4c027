-- ===== src/Worker/System/Safety.antt =====
-- What holds in every state that the system reaches.
use open_hsm.Base.{
  ℕ, ◌<◌, ◌≡◌, ◌≢◌, ◌⊎◌, inl, inr, ap, true, false, ◌==◌, some, [], length, ℤ, Ptr, null, arith,
  Bool-cases,
}
use open_hsm.Hsm.{Event}
use open_hsm.Worker.{Store}
use open_hsm.Worker.Members.{has}
use open_hsm.Worker.Invariant.{IsQueue}
use open_hsm.Worker.Slots.{job_alloc}
use open_hsm.Worker.Slots.Alloc.{ready, job_alloc_lem}
use open_hsm.Worker.Frame.{Quiet}
use open_hsm.Worker.System.Threads.{waiting, awake, job_of, awake-total}
use open_hsm.Worker.System.Defs.{
  System, Inv, Step, submits, cancels, allocs, frees, shuts, posts, wakes, takes, runs, finishes,
  Reach, here, later,
}
use open_hsm.Worker.System.Clients.{
  submits-Inv, cancels-Inv, allocs-Inv, frees-Inv, shuts-Inv, posts-Inv, unqueued,
}
use open_hsm.Worker.System.Workers.{wakes-Inv, takes-Inv, runs-Inv, finishes-Inv}

-- All workers wait, and no job is queued.
abbrev pub idle_system : {W : Type 0} → Store → W → System W
idle_system s w = record { store = s; world = w; pc = λ i. waiting; queued = [] }

module _ {W : Type 0} (call_back : (cb job : Ptr) → ℤ → (ctx : Ptr) → Store × W → Store × W)
    (post : Ptr → Event → W → W) (job_size : ℕ) (n : ℕ) (quiet : Quiet call_back) where
  pub Step-Inv : {s t : System W} → Step call_back post job_size n s t → Inv n s → Inv n t
  Step-Inv {s} (submits job nz out free) inv = submits-Inv n s inv job nz out free
  Step-Inv {s} (cancels id u) inv = cancels-Inv n s inv id u
  Step-Inv {s} (allocs on) inv = allocs-Inv n s inv on
  Step-Inv {s} (frees job out free) inv = frees-Inv n s inv job out free
  Step-Inv {s} shuts inv = shuts-Inv n s inv
  Step-Inv {s} posts inv = posts-Inv n s inv
  Step-Inv {s} (wakes i lt at posted) inv = wakes-Inv n s inv i lt at posted
  Step-Inv {s} (takes i lt at) inv = takes-Inv n s inv i lt at
  Step-Inv {s} (runs i job ret lt at) inv = runs-Inv n s inv i lt job ret at
  Step-Inv {s} (finishes i job lt at) inv =
      finishes-Inv n s inv i lt call_back post job_size quiet job at

  idle_system-Inv : (s : Store) (w : W) → IsQueue s [] → Inv n (idle_system s w)
  idle_system-Inv s w q = record {
    queue = q;
    apart = λ i j e. cc;
    exclusive = λ i k j e f. cc;
    held = λ i j e. cc;
    tokens = inr (omega arith);
  }

  module _ (s : Store) (w : W) (q : IsQueue s []) where
    pub Reach-Inv : {t : System W} → Reach call_back post job_size n (idle_system s w) t → Inv n t
    Reach-Inv here = idle_system-Inv s w q
    Reach-Inv (later r st) = Step-Inv st (Reach-Inv r)

    -- Let clients cancel no first job of the queue whose `prev` is not NULL, allocate as if in one step,
    -- and submit and free only jobs that are neither queued nor held, and let completion callbacks write
    -- to no other job and not to the pool. However their calls, the shutdown and the critical sections
    -- of `n` workers interleave from an idle system on: if the workers `i` and `k` hold the job `j`, they are the same worker, the job
    -- is not queued, and the queue is valid.
    pub exclusive_jobs :
        {t : System W}
        → Reach call_back post job_size n (idle_system s w) t
        → (i k : ℕ) (j : Ptr) → job_of (t.pc i) ≡ some j
        → job_of (t.pc k) ≡ some j
        → (i ≡ k) × (has j t.queued ≡ false) × IsQueue t.store t.queued
    exclusive_jobs r i k j e f =
        let inv = Reach-Inv r in (inv.exclusive i k j e f, inv.apart i j e, inv.queue)

    -- Let clients cancel no first job of the queue whose `prev` is not NULL, allocate as if in one step,
    -- and submit and free only jobs that are neither queued nor held, and let completion callbacks write
    -- to no other job and not to the pool. No wakeup is lost: in every state that the system then reaches
    -- from an idle one, if a job is queued and the pool is
    -- not shut down, a worker is awake and about to look at the queue, or the work semaphore is
    -- posted, so that a worker that waits for it can go on.
    pub no_lost_wakeup :
        {t : System W}
        → Reach call_back post job_size n (idle_system s w) t
        → t.store.pool.shutdown ≡ false
        → 0 < length t.queued
        → ((i : ℕ) × (i < n) × (t.pc i ≡ awake)) ⊎ (0 < t.store.pool.work_sem)
    no_lost_wakeup {t} r on some_queued = elim (Bool-cases (t.store.pool.work_sem == 0)) [
      | inr posted ↦ inr (ground arith)
      | inl none_posted ↦ inl (awake-total n t.pc (ground (arith, (Reach-Inv r).tokens)))
    ]

    -- Let clients cancel no first job of the queue whose `prev` is not NULL, allocate as if in one step,
    -- and submit and free only jobs that are neither queued nor held, and let completion callbacks write
    -- to no other job and not to the pool. In every state that the system then reaches from an idle one,
    -- once the slot pool is set up, `job_pool_alloc` returns
    -- NULL or a job that is neither queued nor held by a worker.
    pub job_alloc-unqueued :
        {t : System W}
        → Reach call_back post job_size n (idle_system s w) t
        → t.store.pool_initialized ≡ true
        → ((job_alloc t.store).0 ≡ null)
          ⊎ ((has (job_alloc t.store).0 t.queued ≡ false)
              × ((i : ℕ) → job_of (t.pc i) ≢ some (job_alloc t.store).0))
    job_alloc-unqueued {t} r on =
        let same : ready t.store ≡ t.store = simp on in
        elim (job_alloc_lem t.store) [
          | inl (_, e) ↦ inl (ap (λ (r : Ptr × Store). r.0) e)
          | inr (p, e, _, _, free, _, _, _) ↦
              inr (rw e (unqueued n t (Reach-Inv r) p (rw same at free)))
        ]
