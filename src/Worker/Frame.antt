-- ===== src/Worker/Frame.antt =====
-- What leaves the queue of a pool valid: writes to other jobs, and to other fields of the pool.
use open_hsm.Base.{
  ℕ, ◌≡◌, ◌≢◌, inl, inr, refl, ◌∙◌, true, false, ◌==◌, List, [], ◌∷◌, ℤ, Ptr, null, arith,
  Bool-cases,
}
use open_hsm.Hsm.{Event}
use open_hsm.Worker.{Job, Pool, Store}
use open_hsm.Worker.Members.{has}
use open_hsm.Worker.Chain.{IsLinked, Chain-frame}
use open_hsm.Worker.Invariant.{IsQueue}
use open_hsm.Worker.Thread.{settle, store_result, run_callback, notify, signal_complete, finish_job}

-- The two jobs have the same links and state.
pub record SameJob (a b : Job) : Type 0 where
  pub next : b.next ≡ a.next
  pub prev : b.prev ≡ a.prev
  pub state : b.state ≡ a.state

SameJob-refl : (a : Job) → SameJob a a
SameJob-refl a = record { next = refl; prev = refl; state = refl }

SameJob-trans : {a b c : Job} → SameJob a b → SameJob b c → SameJob a c
SameJob-trans p q = record {
  next = q.next ∙ p.next;
  prev = q.prev ∙ p.prev;
  state = q.state ∙ p.state;
}

-- The pool's queue, limit and counters of the queue are the same.
pub record SameQueue (p q : Pool) : Type 0 where
  pub head : q.head ≡ p.head
  pub tail : q.tail ≡ p.tail
  pub queue_size : q.queue_size ≡ p.queue_size
  pub depth : q.stats.queue_depth ≡ p.stats.queue_depth

pub IsQueue-frame :
    (s s' : Store) (xs : List Ptr)
    → IsQueue s xs
    → SameQueue s.pool s'.pool
    → ((a : Ptr) → has a xs ≡ true → SameJob (s.jobs a) (s'.jobs a))
    → IsQueue s' xs
IsQueue-frame s s' xs q same jobs = record {
  linked = rw (same.head, same.tail) (linked xs q.linked jobs);
  distinct = q.distinct;
  depth = same.depth ∙ q.depth;
  bounded = rw same.queue_size q.bounded;
  small = rw same.queue_size q.small;
  waiting = λ a i. (jobs a i).state ∙ q.waiting a i;
}
  where
    linked :
        (xs : List Ptr)
        → IsLinked s.jobs s.pool.head s.pool.tail xs
        → ((a : Ptr) → has a xs ≡ true → SameJob (s.jobs a) (s'.jobs a))
        → IsLinked s'.jobs s.pool.head s.pool.tail xs
    linked [] l jobs = l
    linked (x ∷ xs) l jobs = (
      l.0,
      l.1,
      Chain-frame s.jobs s'.jobs x xs s.pool.tail l.2 (jobs x (ground arith)).next
          (λ a i. ((jobs a (ground arith)).next, (jobs a (ground arith)).prev)),
    )

-- A write to a job that is not queued leaves the queue valid.
pub IsQueue-elsewhere :
    (s s' : Store) (xs : List Ptr) (job : Ptr)
    → IsQueue s xs
    → has job xs ≡ false
    → s'.pool ≡ s.pool
    → ((a : Ptr) → a ≢ job → s'.jobs a ≡ s.jobs a)
    → IsQueue s' xs
IsQueue-elsewhere s s' xs job q out same jobs =
    IsQueue-frame s s' xs q
      (record { head = rw same; tail = rw same; queue_size = rw same; depth = rw same })
      (λ a i.
        let e : s'.jobs a ≡ s.jobs a = jobs a (ground arith) in
        record { next = rw e; prev = rw e; state = rw e })

-- A completion callback writes to its own job at most, and not to the pool. The callback runs while
-- the worker holds the pool's mutex, so that a call of the pool's functions from it would not return.
pub record Quiet {W : Type 0} (call_back : (cb job : Ptr) → ℤ → (ctx : Ptr) → Store × W → Store × W)
    : Type 0 where
  pub pool_same :
      (cb job : Ptr) (r : ℤ) (ctx : Ptr) (s : Store) (w : W)
      → (call_back cb job r ctx (s, w)).0.pool ≡ s.pool
  pub jobs_same :
      (cb job : Ptr) (r : ℤ) (ctx : Ptr) (s : Store) (w : W) (a : Ptr)
      → a ≢ job
      → SameJob (s.jobs a) ((call_back cb job r ctx (s, w)).0.jobs a)

pub store_result-SameJob :
    (job : Ptr) (ret : ℤ) (s : Store) (a : Ptr)
    → SameJob (s.jobs a) ((store_result job ret s).jobs a)
unfolding store_result
store_result-SameJob job ret s a = ground arith

pub store_result-SameQueue :
    (job : Ptr) (ret : ℤ) (s : Store) → SameQueue s.pool (store_result job ret s).pool
unfolding store_result
store_result-SameQueue job ret s = record {
  head = refl;
  tail = refl;
  queue_size = refl;
  depth = refl;
}

module _ {W : Type 0} (call_back : (cb job : Ptr) → ℤ → (ctx : Ptr) → Store × W → Store × W)
    (post : Ptr → Event → W → W) (job_size : ℕ) (quiet : Quiet call_back) (job : Ptr) where
  settle-SameJob : (s : Store) (a : Ptr) → a ≢ job → SameJob (s.jobs a) ((settle job s).jobs a)
  unfolding settle
  settle-SameJob s a ne = ground arith

  run_callback-SameJob :
      (s : Store) (w : W) (a : Ptr)
      → a ≢ job
      → SameJob (s.jobs a) ((run_callback call_back post job_size job (s, w)).0.jobs a)
  unfolding run_callback
  run_callback-SameJob s w a ne = elim (Bool-cases ((s.jobs job).complete_cb == null)) [
    | inl no_callback ↦ simp no_callback (SameJob-refl (s.jobs a))
    | inr callback ↦ simp callback (quiet.jobs_same _ job _ _ s w a ne)
  ]

  pool-run_callback :
      (s : Store) (w : W) → (run_callback call_back post job_size job (s, w)).0.pool ≡ s.pool
  unfolding run_callback
  pool-run_callback s w = elim (Bool-cases ((s.jobs job).complete_cb == null)) [
    | inl no_callback ↦ simp no_callback
    | inr callback ↦ simp callback (quiet.pool_same _ job _ _ s w)
  ]

  store-notify : (s : Store) (w : W) → (notify call_back post job_size job (s, w)).0 ≡ s
  unfolding notify
  store-notify s w = ground arith

  pub finish_job-SameJob :
      (s : Store) (w : W) (a : Ptr)
      → a ≢ job
      → SameJob (s.jobs a) ((finish_job call_back post job_size job (s, w)).0.jobs a)
  unfolding finish_job signal_complete
  finish_job-SameJob s w a ne =
      let (s', w') = run_callback call_back post job_size job (settle job s, w) in
      rw (store-notify s' w')
        (SameJob-trans (settle-SameJob s a ne) (run_callback-SameJob (settle job s) w a ne))

  pub finish_job-SameQueue :
      (s : Store) (w : W)
      → SameQueue s.pool (finish_job call_back post job_size job (s, w)).0.pool
        × ((finish_job call_back post job_size job (s, w)).0.pool.shutdown ≡ s.pool.shutdown)
        × ((finish_job call_back post job_size job (s, w)).0.pool.work_sem ≡ s.pool.work_sem)
  unfolding finish_job signal_complete settle
  finish_job-SameQueue s w =
      let (s', w') = run_callback call_back post job_size job (settle job s, w) in
      rw (store-notify s' w', pool-run_callback (settle job s) w) (ground arith)

  -- A worker that has run its job, which is on no valid queue, leaves the queue as it was: when it
  -- stores what the function returned and ends the job, the same jobs wait in the same order, and
  -- the queue is valid, if completion callbacks write to no other job and not to the pool.
  pub finish_job-IsQueue :
      (s : Store) (w : W) (ret : ℤ) (xs : List Ptr)
      → IsQueue s xs
      → has job xs ≡ false
      → IsQueue (finish_job call_back post job_size job (store_result job ret s, w)).0 xs
  finish_job-IsQueue s w ret xs q out =
      let stored : IsQueue (store_result job ret s) xs =
        IsQueue-frame s (store_result job ret s) xs q (store_result-SameQueue job ret s)
          (λ a _. store_result-SameJob job ret s a) in
      IsQueue-frame (store_result job ret s)
        (finish_job call_back post job_size job (store_result job ret s, w)).0 xs stored
        (finish_job-SameQueue (store_result job ret s) w).0
        (λ a i. finish_job-SameJob (store_result job ret s) w a (ground arith))
