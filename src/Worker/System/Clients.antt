-- ===== src/Worker/System/Clients.antt =====
-- The steps of the clients keep the invariant: submitting, cancelling, allocating, stopping.
use open_hsm.Base.{
  total, ℕ, ◌+◌, ◌≤◌, ◌≡◌, ◌≢◌, ◌⊎◌, inl, inr, refl, ap, sym, subst, ◌∙◌, Bool, true, false, ◌==◌,
  leb, if◌then◌else◌, Option, none, some, List, [], ◌∷◌, ◌++◌, length, length-append, ℤ, Ptr, null,
  arith, Bool-cases,
}
use open_hsm.Worker.{Job, Store}
use open_hsm.Worker.Members.{has, has-append, erase, not-has-erase, length-erase}
use open_hsm.Worker.Invariant.{IsQueue}
use open_hsm.Worker.Ops.{submit, cancel, assign_id, prepare, link_last, count_submit}
use open_hsm.Worker.Submit.{submit_lem}
use open_hsm.Worker.Cancel.{
  first_with, Unlinkable, withdrawn, cancel_lem, shutdown-withdrawn, work_sem-withdrawn,
  has-first_with, state-withdrawn,
}
use open_hsm.Worker.Slots.{claim, reusable, job_alloc, job_free, get_next_job_id}
use open_hsm.Worker.Slots.Alloc.{ready, jobs-claim, job_alloc_lem}
use open_hsm.Worker.Frame.{SameJob, IsQueue-frame, IsQueue-elsewhere}
use open_hsm.Worker.System.Threads.{job_of, is_awake}
use open_hsm.Worker.System.Defs.{System, the_pool, after_cancel, with_work_sem, shut, Inv}

pub shutdown-submit :
    (job : Ptr) (s : Store) → (submit the_pool job s).1.pool.shutdown ≡ s.pool.shutdown
unfolding submit assign_id prepare link_last count_submit
shutdown-submit job s = ground arith

state-submit :
    (job : Ptr) (s : Store) (a : Ptr)
    → a ≢ job
    → ((submit the_pool job s).1.jobs a).state ≡ (s.jobs a).state
unfolding submit assign_id prepare link_last count_submit
state-submit job s a ne = ground arith

pub pool-job_free : (job : Ptr) (s : Store) → (job_free job s).pool ≡ s.pool
unfolding job_free
pool-job_free job s = ground arith

jobs-job_free : (job : Ptr) (s : Store) (a : Ptr) → a ≢ job → (job_free job s).jobs a ≡ s.jobs a
unfolding job_free
jobs-job_free job s a ne = ground (arith, ne)

pool-claim : (p : Ptr) (s : Store) → (claim p s).pool ≡ s.pool
unfolding claim get_next_job_id
pool-claim p s = refl

pub pool-job_alloc : (s : Store) → s.pool_initialized ≡ true → (job_alloc s).1.pool ≡ s.pool
pool-job_alloc s on =
    let same : ready s ≡ s = simp on in
    elim (job_alloc_lem s) [
      | inl (_, e) ↦ rw (e, same) refl
      | inr (p, e, _, _, _, _, _, _) ↦ rw (e, same) (pool-claim p s)
    ]

claim-SameJob : (p : Ptr) (s : Store) (a : Ptr) → a ≢ p → SameJob (s.jobs a) ((claim p s).jobs a)
claim-SameJob p s a ne = record {
  next = rw (jobs-claim p s a ne);
  prev = rw (jobs-claim p s a ne);
  state = rw (jobs-claim p s a ne);
}

module _ {W : Type 0} (n : ℕ) (s : System W) (inv : Inv n s) where
  open s use {store, world, pc, queued}

  -- Only the queue and its store change.
  client-Inv :
      (store' : Store) (queued' : List Ptr)
      → IsQueue store' queued'
      → ((i : ℕ) (j : Ptr) → job_of (pc i) ≡ some j → has j queued' ≡ false)
      → ((i : ℕ) (j : Ptr) → job_of (pc i) ≡ some j → (store'.jobs j).state ≡ (store.jobs j).state)
      → (store'.pool.shutdown ≡ true)
        ⊎ (length queued' ≤ store'.pool.work_sem + total is_awake n pc)
      → Inv n (record s { store = store'; queued = queued' })
  client-Inv store' queued' q a r t = record {
    queue = q;
    apart = a;
    exclusive = inv.exclusive;
    held = λ i j e. r i j e ∙ inv.held i j e;
    tokens = t;
  }

  pub submits-Inv :
      (job : Ptr)
      → job ≢ null
      → has job queued ≡ false
      → ((i : ℕ) → job_of (pc i) ≢ some job)
      → Inv n (record s {
        store = (submit the_pool job store).1;
        queued =
            if leb store.pool.queue_size store.pool.stats.queue_depth
            then queued
            else queued ++ job ∷ [];
      })
  submits-Inv job nz out free =
      elim (submit_lem store queued job inv.queue nz out the_pool (omega arith)) [
        | inl (no_room, e) ↦
            let full : leb store.pool.queue_size store.pool.stats.queue_depth ≡ true =
              ground (arith, inv.queue.depth) in
            simp (e, full) inv
        | inr (room, _, q, sem) ↦
            let open_ : leb store.pool.queue_size store.pool.stats.queue_depth ≡ false =
              ground (arith, inv.queue.depth) in
            simp open_ (
              client-Inv (submit the_pool job store).1 (queued ++ job ∷ []) q
                (λ i j e. ground (arith, has-append j queued (job ∷ []), inv.apart i j e, free i))
                (λ i j e. state-submit job store j (λ same. free i (e ∙ ap some same)))
                (ground (
                  arith,
                  inv.tokens,
                  sem,
                  length-append queued (job ∷ []),
                  shutdown-submit job store,
                )))
      ]

  -- The invariant does not see how the store and the queue are written.
  moved :
      {store' store'' : Store} {queued' queued'' : List Ptr}
      → store'' ≡ store'
      → queued'' ≡ queued'
      → Inv n (record s { store = store'; queued = queued' })
      → Inv n (record s { store = store''; queued = queued'' })
  moved a b = subst (Inv n) (λ i. record s { store = sym a i; queued = sym b i })

  pub after_cancel-some :
      (id : ℕ) {c : ℤ} {store' : Store}
      → cancel the_pool id store ≡ some (c, store')
      → after_cancel id store ≡ store'
  after_cancel-some id e =
      ap (λ (r : Option (ℤ × Store)). elim r [ none ↦ store | some (c, t) ↦ t ]) e

  cancelled-Inv :
      (z : Ptr)
      → has z queued ≡ true
      → IsQueue (withdrawn z store) (erase z queued)
      → Inv n (record s { store = withdrawn z store; queued = erase z queued })
  cancelled-Inv z here q =
      client-Inv (withdrawn z store) (erase z queued) q
        (λ i j f. not-has-erase j z queued (inv.apart i j f))
        (λ i j f. ground (arith, state-withdrawn z store j, inv.apart i j f))
        (ground (
          arith,
          inv.tokens,
          shutdown-withdrawn z store,
          work_sem-withdrawn z store,
          length-erase z queued here,
        ))

  pub cancels-Inv :
      (id : ℕ)
      → (first_with store.jobs queued id ≡ null)
        ⊎ Unlinkable store (first_with store.jobs queued id)
      → Inv n (record s {
        store = after_cancel id store;
        queued =
            if first_with store.jobs queued id == null
            then queued
            else erase (first_with store.jobs queued id) queued;
      })
  cancels-Inv id u = elim (cancel_lem store queued inv.queue the_pool id (omega arith) u) [
    | inl (missing, e) ↦ moved (after_cancel-some id e) (ground arith) inv
    | inr (found, e, _, q) ↦ moved (after_cancel-some id e) (ground arith) (
        cancelled-Inv (first_with store.jobs queued id) (has-first_with store.jobs queued id found)
          q)
  ]

  pub frees-Inv :
      (job : Ptr)
      → has job queued ≡ false
      → ((i : ℕ) → job_of (pc i) ≢ some job)
      → Inv n (record s { store = job_free job store })
  frees-Inv job out free =
      client-Inv (job_free job store) queued
        (IsQueue-elsewhere store (job_free job store) queued job inv.queue out
          (pool-job_free job store) (jobs-job_free job store))
        inv.apart
        (λ i j e.
          ap (λ (k : Job). k.state) (jobs-job_free job store j (λ same. free i (e ∙ ap some same))))
        (rw (pool-job_free job store) inv.tokens)

  -- Only the flag and the work semaphore change.
  flags-Inv :
      (off : Bool) (sem : ℕ)
      → (off ≡ true) ⊎ (length queued ≤ sem + total is_awake n pc)
      → Inv n (record s {
        store = record store { pool = record (store.pool) { shutdown = off; work_sem = sem } };
      })
  flags-Inv off sem t = record {
    queue = record {
      linked = inv.queue.linked;
      distinct = inv.queue.distinct;
      depth = inv.queue.depth;
      bounded = inv.queue.bounded;
      small = inv.queue.small;
      waiting = inv.queue.waiting;
    };
    apart = inv.apart;
    exclusive = inv.exclusive;
    held = inv.held;
    tokens = t;
  }

  pub shuts-Inv : Inv n (record s { store = shut store })
  shuts-Inv = flags-Inv true store.pool.work_sem (inl refl)

  pub posts-Inv : Inv n (record s { store = with_work_sem (store.pool.work_sem + 1) store })
  posts-Inv = flags-Inv store.pool.shutdown (store.pool.work_sem + 1) (ground (arith, inv.tokens))

  -- A slot that can be handed out is neither queued nor held.
  pub unqueued :
      (p : Ptr)
      → reusable (store.jobs p).state ≡ true
      → (has p queued ≡ false) × ((i : ℕ) → job_of (pc i) ≢ some p)
  unqueued p free = (
    elim (Bool-cases (has p queued)) [
      | inl in_queue ↦ ground (arith, inv.queue.waiting p in_queue)
      | inr out ↦ out
    ],
    λ i e. ground (arith, inv.held i p e),
  )

  claimed-Inv :
      (p : Ptr) → reusable (store.jobs p).state ≡ true → Inv n (record s { store = claim p store })
  claimed-Inv p free =
      let (out, unheld) = unqueued p free in
      let pool_same = pool-claim p store in
      client-Inv (claim p store) queued
        (IsQueue-frame store (claim p store) queued inv.queue
          (record {
            head = rw pool_same;
            tail = rw pool_same;
            queue_size = rw pool_same;
            depth = rw pool_same;
          })
          (λ a i. claim-SameJob p store a (ground arith)))
        inv.apart (λ i j e. (claim-SameJob p store j (λ same. unheld i (e ∙ ap some same))).state)
        (rw pool_same inv.tokens)

  pub allocs-Inv : store.pool_initialized ≡ true → Inv n (record s { store = (job_alloc store).1 })
  allocs-Inv on =
      let same : ready store ≡ store = simp on in
      elim (job_alloc_lem store) [
        | inl (_, e) ↦ moved (ap (λ (r : Ptr × Store). r.1) e ∙ same) refl inv
        | inr (p, e, _, _, free, _, _, _) ↦
            moved (ap (λ (r : Ptr × Store). r.1) e ∙ ap (claim p) same) refl
              (claimed-Inv p (rw same at free))
      ]
