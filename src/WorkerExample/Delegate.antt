-- ===== src/WorkerExample/Delegate.antt =====
-- What `processing` hands on to `working`: the end of a job, and its cancellation.
use open_hsm.Base.{
  ℕ, suc, ◌≡◌, ◌≢◌, inl, inr, refl, ap, ◌∙◌, false, Option, none, some, List, ◌==◌, if◌then◌else◌,
  ℤ, pos, is_neg, Ptr, null, inc32, arith, Bool-cases,
}
use open_hsm.Hsm.{Event, Call, event_of, invoke, state_super}
use open_hsm.OsaHsm.{OsaHsm}
use open_hsm.Hsm.Super.{state_super-parent}
use open_hsm.Worker.{cancelled}
use open_hsm.Worker.Invariant.{IsQueue}
use open_hsm.Worker.Slots.{job_free}
use open_hsm.Worker.Ops.{cancel}
use open_hsm.Worker.Cancel.{first_with, withdrawn, cancel_found, state-withdrawn, has-first_with}
use open_hsm.Worker.Stale.{Withdrawal, withdrawn-Withdrawal}
use open_hsm.WorkerExample.{Example, example_active, sig_work_complete, sig_work_cancel}
use open_hsm.WorkerExample.Handlers.{
  state_idle, state_working, state_processing, parents, hand_on, idle_handler, processing_handler,
  working_handler, complete_work, cancel_work, handler_at, chart,
}
use open_hsm.WorkerExample.Start.{at_rest}
use open_hsm.WorkerExample.Finish.{move_to-some}

module _ (self heavy done : Ptr) (f : ℕ) (x : Example)
    (at : x.super.super.current ≡ state_processing) where
  -- What the parent returns becomes the error code, and 0 is returned.
  state_super-some :
      (call : Call Example) (e : Event) {r : ℤ} {y : Example}
      → call state_working e x ≡ some (r, y)
      → state_super example_active call parents e x
        ≡ some (
          tt,
          record y { super = record (y.super) { super = record (y.super.super) { error = r } } },
        )
  state_super-some call e h =
      state_super-parent example_active (chart self heavy done) call e x (rw at (omega arith))
      ∙ ap
          (λ (m : Option (ℤ × Example)). elim m [
            | none ↦ none
            | some (c, z) ↦
                some (
                  tt,
                  example_active.with_active (record (example_active.active z) { error = c }) z,
                )
          ])
          (ap (λ (c : Ptr). call (parents c) e x) at ∙ h)

  hand_on-some :
      (call : Call Example) (e : Event) {r : ℤ} {y : Example}
      → call state_working e x ≡ some (r, y)
      → hand_on call e x
        ≡ some (
          pos 0,
          record y { super = record (y.super) { super = record (y.super.super) { error = r } } },
        )
  unfolding hand_on
  hand_on-some call e h =
      ap
        (λ (m : Option (Unit {0} × Example)). elim m [
          | none ↦ none
          | some (a, z) ↦ some (pos 0, z)
        ])
        (state_super-some call e h)

  abbrev freed : Ptr → Example
  freed p =
      if is_neg (x.store.jobs p).result
      then record x {
        error_count = inc32 x.error_count;
        store = job_free p x.store;
        current_job = null;
      }
      else record x {
        completed_count = inc32 x.completed_count;
        store = job_free p x.store;
        current_job = null;
      }

  freed_lem :
      (p : Ptr)
      → ((freed p).super ≡ x.super)
        × ((freed p).store ≡ job_free p x.store)
        × ((freed p).current_job ≡ null)
        × ((freed p).completed_count ≡ (
            if is_neg (x.store.jobs p).result then x.completed_count else inc32 x.completed_count))
        × ((freed p).error_count
            ≡ (if is_neg (x.store.jobs p).result then inc32 x.error_count else x.error_count))
  freed_lem p = elim (Bool-cases (is_neg (x.store.jobs p).result)) [
    | inl bad ↦ simp bad (refl, refl, refl, refl, refl)
    | inr good ↦ simp good (refl, refl, refl, refl, refl)
  ]

  complete_working :
      (p : Ptr) (size : ℕ)
      → p ≢ null
      → invoke
          (chart self heavy done)
          (suc (suc f))
          state_working
          (record { signal = sig_work_complete; payload = p; size = size })
          x
        ≡ some (pos 0, at_rest (freed p))
  unfolding invoke handler_at working_handler complete_work idle_handler
  complete_working p size nz =
      let there : (p == null) ≡ false = ground arith in
      rw there (move_to-some (invoke (chart self heavy done) (suc f)) state_idle (freed p) refl)

  -- SIG_WORK_COMPLETE with a job in `processing` reaches the parent, and ends without an error: the
  -- machine is in `idle` with no job, the job's slot is given back, and one counter has gone up, that
  -- of the errors if the job's result is negative, else that of the completed jobs.
  pub work_complete :
      (p : Ptr) (size : ℕ)
      → p ≢ null
      → (y : Example) × (invoke
            (chart self heavy done)
            (suc (suc (suc f)))
            state_processing
            (record { signal = sig_work_complete; payload = p; size = size })
            x
          ≡ some (pos 0, y))
        × (y.super.super
            ≡ record { error = pos 0; current = state_idle; history = state_processing })
        × (y.super.msg_q ≡ x.super.msg_q)
        × (y.current_job ≡ null)
        × (y.store ≡ job_free p x.store)
        × (y.completed_count ≡ (
            if is_neg (x.store.jobs p).result then x.completed_count else inc32 x.completed_count))
        × (y.error_count
            ≡ (if is_neg (x.store.jobs p).result then inc32 x.error_count else x.error_count))
  unfolding invoke handler_at processing_handler
  work_complete p size nz =
      let (super, store, job, completed, errors) = freed_lem p in
      (
        _,
        hand_on-some (invoke (chart self heavy done) (suc (suc f)))
            (record { signal = sig_work_complete; payload = p; size = size })
            (complete_working p size nz),
        ap
              (λ (h : OsaHsm). record {
                error = pos 0;
                current = state_idle;
                history = h.super.current;
              })
              super
            ∙ ap (λ (c : Ptr). record { error = pos 0; current = state_idle; history = c }) at,
        ap (λ (h : OsaHsm). h.msg_q) super,
        job,
        store,
        completed,
        errors,
      )

  cancel_working :
      (xs : List Ptr)
      → IsQueue x.store xs
      → x.worker_pool ≢ null
      → x.current_job ≢ null
      → first_with x.store.jobs xs (x.store.jobs x.current_job).id ≡ x.current_job
      → invoke (chart self heavy done) (suc (suc f)) state_working (event_of sig_work_cancel) x
        ≡ some (pos 0, record x { store = withdrawn x.current_job x.store })
  unfolding invoke handler_at working_handler cancel_work
  cancel_working xs q pool nz mine =
      let there : (x.current_job == null) ≡ false = ground arith in
      let c : cancel x.worker_pool (x.store.jobs x.current_job).id x.store
          ≡ some (pos 0, withdrawn x.current_job x.store) =
        cancel_found x.store xs q x.worker_pool (x.store.jobs x.current_job).id pool (rw mine nz)
        ∙ ap (λ (z : Ptr). some (pos 0, withdrawn z x.store)) mine in
      simp (there, c)

  -- SIG_WORK_CANCEL in `processing`, when the machine's job is on the valid queue and its id is the
  -- first of this number, marks the job as cancelled; the machine stays in `processing` with it. The
  -- queue is valid without the job, unless this was the first job and its `prev` was not NULL: then
  -- the head pointer still leads to it.
  pub work_cancel :
      (xs : List Ptr)
      → IsQueue x.store xs
      → x.worker_pool ≢ null
      → x.current_job ≢ null
      → first_with x.store.jobs xs (x.store.jobs x.current_job).id ≡ x.current_job
      → (y : Example) × (invoke
            (chart self heavy done)
            (suc (suc (suc f)))
            state_processing
            (event_of sig_work_cancel)
            x
          ≡ some (pos 0, y))
        × (y.super.super.current ≡ state_processing)
        × (y.current_job ≡ x.current_job)
        × (y.store ≡ withdrawn x.current_job x.store)
        × ((y.store.jobs y.current_job).state ≡ cancelled)
        × Withdrawal x.store xs x.current_job
  unfolding invoke handler_at processing_handler
  work_cancel xs q pool nz mine = (
    _,
    hand_on-some (invoke (chart self heavy done) (suc (suc f))) (event_of sig_work_cancel)
        (cancel_working xs q pool nz mine),
    at,
    refl,
    refl,
    ground (arith, state-withdrawn x.current_job x.store x.current_job),
    withdrawn-Withdrawal x.store xs x.current_job q
        (rw mine at (has-first_with x.store.jobs xs (x.store.jobs x.current_job).id (rw mine nz))),
  )
