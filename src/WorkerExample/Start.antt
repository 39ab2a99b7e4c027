-- ===== src/WorkerExample/Start.antt =====
-- The example starts its work: from `idle`, SIG_WORK_START brings a job to the pool or leads back.
use open_hsm.Base.{
  ℕ, suc, ◌<◌, ◌≡◌, ◌≢◌, inl, inr, refl, ap, ◌∙◌, true, false, some, List, [], ◌∷◌, ◌++◌, length,
  ◌==◌, ℤ, pos, minus, Ptr, null, inc32, arith, Bool-cases,
}
use open_hsm.Hsm.{invoke, state_init, state_transit, state_error}
use open_hsm.Worker.{Store}
use open_hsm.Worker.Members.{has}
use open_hsm.Worker.Invariant.{IsQueue}
use open_hsm.Worker.Frame.{IsQueue-elsewhere}
use open_hsm.Worker.Slots.{claim, reusable, get_next_job_id, job_alloc, job_init, job_free}
use open_hsm.Worker.Slots.Alloc.{free_count, ready, job_alloc_lem, jobs-claim}
use open_hsm.Worker.Ops.{submit}
use open_hsm.Worker.Submit.{submit_lem}
use open_hsm.WorkerExample.{Example}
use open_hsm.WorkerExample.Given.{filled, filled-IsQueue, give_job_eq, submit-filled, Attempt}
use open_hsm.WorkerExample.Handlers.{
  state_idle, state_processing, move_to, idle_handler, processing_handler, give_job, enter_working,
  handler_at, chart,
}

-- The machine in state `s`, which it entered without an error.
abbrev pub settled : Ptr → Example → Example
settled s x = record x {
  super = record (x.super) {
    super = record { error = pos 0; current = s; history = x.super.super.current };
  };
}

abbrev pub at_rest : Example → Example
at_rest x = record (settled state_idle x) { operation_progress = pos 0; operation_result = pos 0 }

eqb-ne : (a b : Ptr) → a ≢ b → (a == b) ≡ false
eqb-ne a b ne = ground arith

module _ (self heavy done : Ptr) where
  move_to-idle :
      (f : ℕ) (x : Example)
      → move_to (invoke (chart self heavy done) (suc f)) state_idle x ≡ some (pos 0, at_rest x)
  unfolding move_to invoke handler_at idle_handler state_transit state_init state_error
  move_to-idle f x = refl

  move_to-processing :
      (f : ℕ) (x : Example)
      → move_to (invoke (chart self heavy done) (suc f)) state_processing x
        ≡ some (pos 0, settled state_processing x)
  unfolding move_to invoke handler_at processing_handler state_transit state_init state_error
  move_to-processing f x = refl

  abbrev counted : Example → Example
  counted x = record x { job_count = inc32 x.job_count }

  module _ (f : ℕ) (x : Example) where
    enter_working-no_slot :
        {s : Store}
        → job_alloc x.store ≡ (null, s)
        → enter_working self heavy done (invoke (chart self heavy done) (suc f)) x
          ≡ some (pos 0, at_rest (record (counted x) { store = s }))
    unfolding enter_working
    enter_working-no_slot {s} e = simp e (move_to-idle f (record (counted x) { store = s }))

    enter_working-refused :
        {p : Ptr} {s t : Store}
        → job_alloc x.store ≡ (p, s)
        → p ≢ null
        → give_job self heavy done x.worker_pool p s ≡ (minus 1, t)
        → enter_working self heavy done (invoke (chart self heavy done) (suc f)) x
          ≡ some (pos 0, at_rest (record (counted x) { store = job_free p t; current_job = null }))
    unfolding enter_working
    enter_working-refused {p} {t} e nz g =
        let there : (p == null) ≡ false = eqb-ne p null nz in
        simp (e, there, g)
          (move_to-idle f (record (counted x) { store = job_free p t; current_job = null }))

    enter_working-accepted :
        {p : Ptr} {s t : Store}
        → job_alloc x.store ≡ (p, s)
        → p ≢ null
        → give_job self heavy done x.worker_pool p s ≡ (pos 0, t)
        → enter_working self heavy done (invoke (chart self heavy done) (suc f)) x
          ≡ some
              (pos 0, settled state_processing (record (counted x) { store = t; current_job = p }))
    unfolding enter_working
    enter_working-accepted {p} {t} e nz g =
        let there : (p == null) ≡ false = eqb-ne p null nz in
        simp (e, there, g)
          (move_to-processing f (record (counted x) { store = t; current_job = p }))

module _ (self heavy done : Ptr) (f : ℕ) (x : Example) (xs : List Ptr) (q : IsQueue x.store xs)
    (set_up : x.store.pool_initialized ≡ true) (pool : x.worker_pool ≢ null) where
  abbrev Ends : Type 0
  Ends =
      (y : Example) × (enter_working self heavy done (invoke (chart self heavy done) (suc f)) x
        ≡ some (pos 0, y))
      × Attempt self heavy done x xs y

  same : ready x.store ≡ x.store
  same = simp set_up

  refused :
      (p : Ptr)
      → job_alloc x.store ≡ (p, claim p x.store)
      → p ≢ null
      → has p xs ≡ false
      → length xs ≡ x.store.pool.queue_size
      → submit x.worker_pool p (filled self heavy done p (claim p x.store))
        ≡ (minus 1, filled self heavy done p (claim p x.store))
      → IsQueue (filled self heavy done p (claim p x.store)) xs
      → Ends
  unfolding job_free
  refused p e nz out no_room s q' = (
    _,
    enter_working-refused self heavy done f x e nz
        (give_job_eq self heavy done x.worker_pool p (claim p x.store) nz ∙ s),
    inr (
      inr no_room,
      refl,
      IsQueue-elsewhere (filled self heavy done p (claim p x.store))
          (job_free p (filled self heavy done p (claim p x.store))) xs p q' out (ground arith)
          (λ a ne. ground arith),
      refl,
      refl,
    ),
  )

  shutdown-claim : (p : Ptr) → (claim p x.store).pool.shutdown ≡ x.store.pool.shutdown
  unfolding claim get_next_job_id
  shutdown-claim p = refl

  accepted :
      (p : Ptr)
      → job_alloc x.store ≡ (p, claim p x.store)
      → p ≢ null
      → 0 < free_count x.store
      → length xs < x.store.pool.queue_size
      → (submit x.worker_pool p (filled self heavy done p (claim p x.store))).0 ≡ pos 0
      → IsQueue
          (submit x.worker_pool p (filled self heavy done p (claim p x.store))).1
          (xs ++ p ∷ [])
      → Ends
  accepted p e nz free room s q' = (
    _,
    enter_working-accepted self heavy done f x e nz (
        give_job_eq self heavy done x.worker_pool p (claim p x.store) nz
        ∙ ap
            (λ (c : ℤ).
              (c, (submit x.worker_pool p (filled self heavy done p (claim p x.store))).1))
            s),
    inl (
      free,
      room,
      record {
        at = refl;
        job = nz;
        queued = q';
        fields = (submit-filled self heavy done x.worker_pool p (claim p x.store) nz).0;
        inbox = refl;
        running =
            (submit-filled self heavy done x.worker_pool p (claim p x.store) nz).1
            ∙ shutdown-claim p;
        good = refl;
        bad = refl;
      },
    ),
  )

  claim-IsQueue : (p : Ptr) → has p xs ≡ false → IsQueue (claim p x.store) xs
  unfolding claim get_next_job_id
  claim-IsQueue p out =
      IsQueue-elsewhere x.store (claim p x.store) xs p q out refl (jobs-claim p x.store)

  queue_size-filled :
      (p : Ptr)
      → (filled self heavy done p (claim p x.store)).pool.queue_size ≡ x.store.pool.queue_size
  unfolding filled job_init claim get_next_job_id
  queue_size-filled p = ground arith

  out_of_queue : (p : Ptr) → reusable (x.store.jobs p).state ≡ true → has p xs ≡ false
  out_of_queue p free = elim (Bool-cases (has p xs)) [
    | inl here ↦ ground (arith, q.waiting p here)
    | inr out ↦ out
  ]

  with_slot :
      (p : Ptr)
      → job_alloc x.store ≡ (p, claim p x.store)
      → p ≢ null
      → 0 < free_count x.store
      → reusable (x.store.jobs p).state ≡ true
      → Ends
  with_slot p e nz some_free free =
      let out = out_of_queue p free in
      let q' = filled-IsQueue self heavy done p (claim p x.store) xs (claim-IsQueue p out) nz out in
      elim (submit_lem (filled self heavy done p (claim p x.store)) xs p q' nz out x.worker_pool
        pool) [
          | inl (no_room, s) ↦ refused p e nz out (no_room ∙ queue_size-filled p) s q'
          | inr (room, s, q'', _) ↦
              accepted p e nz some_free (rw (queue_size-filled p) at room) s q''
        ]

  -- The ENTRY handler of `working`.
  pub enter_working_lem : Ends
  enter_working_lem = elim (job_alloc_lem x.store) [
    | inl (none_free, e) ↦ (
      _,
      enter_working-no_slot self heavy done f x e,
      inr (inl (rw same at none_free), refl, rw same q, refl, refl),
    )
    | inr (p, e, lo, _, free, _, _, fewer) ↦
        let fewer' = rw same at fewer in
        with_slot p (rw same at e) (omega (arith, lo)) (omega (arith, fewer')) (rw same at free)
  ]
