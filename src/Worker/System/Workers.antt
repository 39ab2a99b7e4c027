-- ===== src/Worker/System/Workers.antt =====
-- The steps of a worker keep the invariant: it wakes, takes a job, runs it and ends it.
use open_hsm.Base.{
  total, total-update, ℕ, ◌+◌, ◌-◌, ◌<◌, ◌≤◌, ◌≡◌, ◌≢◌, ◌⊎◌, inl, inr, refl, ap, sym, subst, ◌∙◌,
  true, false, none, some, List, ◌∷◌, length, ℤ, Ptr, update, arith, Bool-cases, List-cases,
}
use open_hsm.Hsm.{Event}
use open_hsm.Worker.{Store}
use open_hsm.Worker.Members.{has}
use open_hsm.Worker.Invariant.{IsQueue}
use open_hsm.Worker.Thread.{Taken, leave, got, dequeue, take_job, store_result, finish_job}
use open_hsm.Worker.Thread.Take.{take_job-cons, take_job-nil, state-dequeue}
use open_hsm.Worker.Frame.{
  Quiet, IsQueue-frame, store_result-SameJob, store_result-SameQueue, finish_job-SameJob,
  finish_job-SameQueue,
}
use open_hsm.Worker.System.Threads.{Pc, waiting, awake, working, ran, gone, is_awake, job_of}
use open_hsm.Worker.System.Defs.{System, with_work_sem, pc_after, queued_after, Inv}

pub flags-take_job :
    (s : Store)
    → ((take_job s).1.pool.shutdown ≡ s.pool.shutdown)
      × ((take_job s).1.pool.work_sem ≡ s.pool.work_sem)
unfolding take_job dequeue
flags-take_job s = ground arith

pub take_job-shut : (s : Store) → s.pool.shutdown ≡ true → take_job s ≡ (leave, s)
unfolding take_job
take_job-shut s e = rw e

pub take_job-got : (s : Store) (x : Ptr) → (take_job s).0 ≡ got x → (take_job s).1 ≡ dequeue x s
unfolding take_job
take_job-got s x e = ground arith

pub flags-store_result :
    (job : Ptr) (ret : ℤ) (s : Store)
    → ((store_result job ret s).pool.shutdown ≡ s.pool.shutdown)
      × ((store_result job ret s).pool.work_sem ≡ s.pool.work_sem)
unfolding store_result
flags-store_result job ret s = (refl, refl)

module _ {W : Type 0} (n : ℕ) (s : System W) (inv : Inv n s) (i : ℕ) (lt : i < n) where
  open s use {store, world, pc, queued}

  -- Thread `i` goes on to `p` with no job in its hands.
  idle-Inv :
      (p : Pc) (store' : Store) (world' : W)
      → job_of p ≡ none
      → IsQueue store' queued
      → ((k : ℕ) (j : Ptr)
          → k ≢ i
          → job_of (pc k) ≡ some j
          → (store'.jobs j).state ≡ (store.jobs j).state)
      → (store'.pool.shutdown ≡ true)
        ⊎ (length queued ≤ store'.pool.work_sem + total is_awake n (update pc i p))
      → Inv n (record s { store = store'; world = world'; pc = update pc i p })
  idle-Inv p store' world' none_held q r t = record {
    queue = q;
    apart = λ k j e. ground (arith, inv.apart k j);
    exclusive = λ k l j e f. ground (arith, inv.exclusive k l j);
    held = λ k j e. ground (arith, r k j, inv.held k j);
    tokens = t;
  }

  pub wakes-Inv :
      pc i ≡ waiting
      → 0 < store.pool.work_sem
      → Inv n (record s {
        store = with_work_sem (store.pool.work_sem - 1) store;
        pc = update pc i awake;
      })
  wakes-Inv at posted =
      idle-Inv awake (with_work_sem (store.pool.work_sem - 1) store) world refl
        (record {
          linked = inv.queue.linked;
          distinct = inv.queue.distinct;
          depth = inv.queue.depth;
          bounded = inv.queue.bounded;
          small = inv.queue.small;
          waiting = inv.queue.waiting;
        })
        (λ k j ne e. refl)
        (ground (arith, inv.tokens, total-update is_awake n pc i awake lt, ap is_awake at))

  pub runs-Inv :
      (job : Ptr) (ret : ℤ)
      → pc i ≡ working job
      → Inv n (record s { store = store_result job ret store; pc = update pc i (ran job) })
  runs-Inv job ret at = record {
    queue =
        IsQueue-frame store (store_result job ret store) queued inv.queue
          (store_result-SameQueue job ret store) (λ a _. store_result-SameJob job ret store a);
    apart = λ k j e. ground (arith, inv.apart k j, inv.apart i j, ap job_of at);
    exclusive = λ k l j e f.
        ground (arith, inv.exclusive k l j, inv.exclusive i l j, inv.exclusive k i j, ap job_of at);
    held = λ k j e.
        (store_result-SameJob job ret store j).state
        ∙ ground (arith, inv.held k j, inv.held i j, ap job_of at);
    tokens = ground (
      arith,
      inv.tokens,
      flags-store_result job ret store,
      total-update is_awake n pc i (ran job) lt,
      ap is_awake at,
    );
  }

  -- Thread `i` goes on with what the first critical section gives it.
  abbrev after_take : Taken × Store → System W
  after_take r = record s {
    store = r.1;
    pc = update pc i (pc_after r.0);
    queued = queued_after r.0 queued;
  }

  got-Inv :
      (x : Ptr) (xs : List Ptr)
      → pc i ≡ awake
      → queued ≡ x ∷ xs
      → IsQueue (dequeue x store) xs
      → ((dequeue x store).pool.shutdown ≡ store.pool.shutdown)
        × ((dequeue x store).pool.work_sem ≡ store.pool.work_sem)
      → Inv n (record s { store = dequeue x store; pc = update pc i (working x); queued = xs })
  got-Inv x xs at e q flags =
      let first : has x xs ≡ false = (subst (IsQueue store) e inv.queue).distinct.0 in
      let fresh : (k : ℕ) (j : Ptr) → job_of (pc k) ≡ some j → has j (x ∷ xs) ≡ false =
        λ k j h. subst (λ (l : List Ptr). has j l ≡ false) e (inv.apart k j h) in
      record {
        queue = q;
        apart = λ k j h. ground (arith, first, fresh k j);
        exclusive = λ k l j h g. ground (arith, inv.exclusive k l j, fresh k j, fresh l j);
        held = λ k j h. ground (arith, state-dequeue store x j, inv.held k j, fresh k j);
        tokens = ground (
          arith,
          inv.tokens,
          flags,
          ap length e,
          total-update is_awake n pc i (working x) lt,
          ap is_awake at,
        );
      }

  takes_first :
      (x : Ptr) (xs : List Ptr)
      → pc i ≡ awake
      → queued ≡ x ∷ xs
      → store.pool.shutdown ≡ false
      → Inv n (after_take (take_job store))
  takes_first x xs at e on =
      let (t, q, _, _, _) = take_job-cons store on x xs (subst (IsQueue store) e inv.queue) in
      let u = take_job-got store x t in
      let left : queued_after (take_job store).0 queued ≡ xs =
        ap (λ (r : Taken). queued_after r queued) t ∙ ap (queued_after (got x)) e in
      subst (Inv n)
        (λ d. record s {
          store = sym u d;
          pc = update pc i (pc_after (sym t d));
          queued = sym left d;
        })
        (got-Inv x xs at e (rw u at q) (rw u at (flags-take_job store)))

  pub takes-Inv : pc i ≡ awake → Inv n (after_take (take_job store))
  takes-Inv at = elim (Bool-cases store.pool.shutdown) [
    | inl off ↦
        subst (λ (r : Taken × Store). Inv n (after_take r)) (sym (take_job-shut store off))
          (idle-Inv gone store world refl inv.queue (λ k j ne h. refl) (inl off))
    | inr on ↦ elim (List-cases queued) [
      | inl e ↦
          subst (λ (r : Taken × Store). Inv n (after_take r))
            (sym (take_job-nil store on (subst (IsQueue store) e inv.queue)))
            (idle-Inv waiting store world refl inv.queue (λ k j ne h. refl)
              (inr (omega (arith, ap length e))))
      | inr (x, xs, e) ↦ takes_first x xs at e on
    ]
  ]

  module _ (call_back : (cb job : Ptr) → ℤ → (ctx : Ptr) → Store × W → Store × W)
      (post : Ptr → Event → W → W) (job_size : ℕ) (quiet : Quiet call_back) where
    pub finishes-Inv :
        (job : Ptr)
        → pc i ≡ ran job
        → Inv n (record s {
          store = (finish_job call_back post job_size job (store, world)).0;
          world = (finish_job call_back post job_size job (store, world)).1;
          pc = update pc i waiting;
        })
    finishes-Inv job at =
        let mine : job_of (pc i) ≡ some job = ap job_of at in
        let (same, off, sem) = finish_job-SameQueue call_back post job_size quiet job store world in
        let others = finish_job-SameJob call_back post job_size quiet job store world in
        idle-Inv waiting (finish_job call_back post job_size job (store, world)).0
          (finish_job call_back post job_size job (store, world)).1 refl
          (IsQueue-frame store (finish_job call_back post job_size job (store, world)).0 queued
            inv.queue same (λ a here. others a (ground (arith, inv.apart i job mine))))
          (λ k j ne h. (others j (λ e. ne (inv.exclusive k i job (h ∙ ap some e) mine))).state)
          (ground
            (arith, inv.tokens, off, sem, total-update is_awake n pc i waiting lt, ap is_awake at))
