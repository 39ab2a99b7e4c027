-- ===== src/Worker/System/Defs.antt =====
-- The system, its steps and its invariant.
use open_hsm.Base.{
  total, ℕ, ◌+◌, ◌-◌, ◌<◌, ◌≤◌, ◌≡◌, ◌≢◌, ◌⊎◌, true, false, ◌==◌, leb, if◌then◌else◌, none, some,
  List, [], ◌∷◌, ◌++◌, length, ℤ, Ptr, null, update,
}
use open_hsm.Hsm.{Event}
use open_hsm.Worker.{running, Store}
use open_hsm.Worker.Members.{has, erase}
use open_hsm.Worker.Invariant.{IsQueue}
use open_hsm.Worker.Ops.{submit, cancel}
use open_hsm.Worker.Slots.{job_alloc, job_free}
use open_hsm.Worker.Cancel.{first_with, Unlinkable}
use open_hsm.Worker.Thread.{Taken, leave, nothing, got, take_job, store_result, finish_job}
use open_hsm.Worker.System.Threads.{Pc, waiting, awake, working, ran, gone, is_awake, job_of}

pub record System (W : Type 0) : Type 0 where
  pub store : Store
  pub world : W
  pub pc : ℕ → Pc
  pub queued : List Ptr

-- The address of the pool.
abbrev pub the_pool : Ptr
the_pool = 1

-- The store after a call of `osa_worker_pool_cancel`.
abbrev pub after_cancel : ℕ → Store → Store
after_cancel id s = elim (cancel the_pool id s) [ none ↦ s | some (c, s') ↦ s' ]

abbrev pub with_work_sem : ℕ → Store → Store
with_work_sem n s = record s { pool = record (s.pool) { work_sem = n } }

abbrev pub shut : Store → Store
shut s = record s { pool = record (s.pool) { shutdown = true } }

-- What a worker goes on to, and the queue it leaves.
abbrev pub pc_after : Taken → Pc
pc_after leave = gone
pc_after nothing = waiting
pc_after (got j) = working j

abbrev pub queued_after : Taken → List Ptr → List Ptr
queued_after (got j) (x ∷ xs) = xs
queued_after _ xs = xs

module _ {W : Type 0} (call_back : (cb job : Ptr) → ℤ → (ctx : Ptr) → Store × W → Store × W)
    (post : Ptr → Event → W → W) (job_size : ℕ) (n : ℕ) where
  pub data Step (s : System W) : System W → Type 0 where
    -- A client submits a job that is neither queued nor held by a worker.
    submits :
        (job : Ptr)
        → job ≢ null
        → has job s.queued ≡ false
        → ((i : ℕ) → job_of (s.pc i) ≢ some job)
        → Step s (record s {
          store = (submit the_pool job s.store).1;
          queued =
              if leb s.store.pool.queue_size s.store.pool.stats.queue_depth
              then s.queued
              else s.queued ++ job ∷ [];
        })
    -- A client cancels. Left out is the cancellation of the first job of the queue while its `prev` is
    -- not NULL, which Worker.Stale is about.
    cancels :
        (id : ℕ)
        → (first_with s.store.jobs s.queued id ≡ null)
          ⊎ Unlinkable s.store (first_with s.store.jobs s.queued id)
        → Step s (record s {
          store = after_cancel id s.store;
          queued =
              if first_with s.store.jobs s.queued id == null
              then s.queued
              else erase (first_with s.store.jobs s.queued id) s.queued;
        })
    -- A client allocates a job, the first use of the pool aside. `job_pool_alloc` takes no lock: this
    -- step stands for a call during which no other thread allocates or writes to a slot.
    allocs : s.store.pool_initialized ≡ true → Step s (record s { store = (job_alloc s.store).1 })
    -- A client gives back a job that is neither queued nor held by a worker.
    frees :
        (job : Ptr)
        → has job s.queued ≡ false
        → ((i : ℕ) → job_of (s.pc i) ≢ some job)
        → Step s (record s { store = job_free job s.store })
    -- `osa_worker_pool_stop` sets the flag, and posts.
    shuts : Step s (record s { store = shut s.store })
    posts : Step s (record s { store = with_work_sem (s.store.pool.work_sem + 1) s.store })
    -- A worker's `osa_sem_wait` returns.
    wakes :
        (i : ℕ)
        → i < n
        → s.pc i ≡ waiting
        → 0 < s.store.pool.work_sem
        → Step s (record s {
          store = with_work_sem (s.store.pool.work_sem - 1) s.store;
          pc = update s.pc i awake;
        })
    takes :
        (i : ℕ)
        → i < n
        → s.pc i ≡ awake
        → Step s (record s {
          store = (take_job s.store).1;
          pc = update s.pc i (pc_after (take_job s.store).0);
          queued = queued_after (take_job s.store).0 s.queued;
        })
    runs :
        (i : ℕ) (job : Ptr) (ret : ℤ)
        → i < n
        → s.pc i ≡ working job
        → Step s (record s { store = store_result job ret s.store; pc = update s.pc i (ran job) })
    finishes :
        (i : ℕ) (job : Ptr)
        → i < n
        → s.pc i ≡ ran job
        → Step s (record s {
          store = (finish_job call_back post job_size job (s.store, s.world)).0;
          world = (finish_job call_back post job_size job (s.store, s.world)).1;
          pc = update s.pc i waiting;
        })

  pub data Reach (s : System W) : System W → Type 0 where
    here : Reach s s
    later : {t u : System W} → Reach s t → Step t u → Reach s u

-- The queue is valid; the jobs of workers run, they are different, and none is queued; and until the
-- pool is shut down there are posts or woken workers for every queued job.
pub record Inv {W : Type 0} (n : ℕ) (s : System W) : Type 0 where
  pub queue : IsQueue s.store s.queued
  pub apart : (i : ℕ) (j : Ptr) → job_of (s.pc i) ≡ some j → has j s.queued ≡ false
  pub exclusive : (i k : ℕ) (j : Ptr) → job_of (s.pc i) ≡ some j → job_of (s.pc k) ≡ some j → i ≡ k
  pub held : (i : ℕ) (j : Ptr) → job_of (s.pc i) ≡ some j → (s.store.jobs j).state ≡ running
  pub tokens :
      (s.store.pool.shutdown ≡ true)
      ⊎ (length s.queued ≤ s.store.pool.work_sem + total is_awake n s.pc)
