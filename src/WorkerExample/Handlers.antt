-- ===== src/WorkerExample/Handlers.antt =====
-- The three states of examples/linux/hsm_worker.c and their handlers.
use open_hsm.Base.{
  ℕ, Bool, not, none, some, List, [], ◌∷◌, ◌==◌, if◌then◌else◌, ℤ, pos, eqb_ℤ, is_neg, Ptr, null,
  inc32,
}
use open_hsm.Hsm.{
  Event, Cmd, Call, Chart, sig_entry, sig_period, ◌>>◌, pure, state_transit, state_super,
  state_error,
}
use open_hsm.Worker.{Store}
use open_hsm.Worker.Slots.{job_alloc, job_init, job_free}
use open_hsm.Worker.Ops.{submit_to_hsm, cancel}
use open_hsm.WorkerExample.{
  Example, example_active, sig_work_start, sig_work_complete, sig_work_cancel, sig_work_progress,
  sig_work_error,
}

-- The addresses of the states.
abbrev pub state_idle : Ptr
state_idle = 1

abbrev pub state_working : Ptr
state_working = 2

abbrev pub state_processing : Ptr
state_processing = 3

-- The `parent` fields.
abbrev pub parents : Ptr → Ptr
parents s = if s == state_processing then state_working else null

abbrev pub on : Event → ℤ → Bool
on e signal = eqb_ℤ e.signal signal

-- `STATE_TRANSIT(s); ret = STATE_ERROR();`
unfoldable pub move_to : Call Example → Ptr → Cmd Example ℤ
move_to call s = do state_transit example_active call s; state_error example_active call

-- `STATE_SUPER(event);` and the return of 0
unfoldable pub hand_on : Call Example → Event → Cmd Example ℤ
hand_on call e = state_super example_active call parents e >> pure (pos 0)

-- `state_idle_handler`
unfoldable pub idle_handler : Call Example → Event → Cmd Example ℤ
idle_handler call e x =
    if on e sig_entry
    then some (pos 0, record x { operation_progress = pos 0; operation_result = pos 0 })
    else if on e sig_work_start
    then move_to call state_working x
    else some (pos 0, x)

module _ (self heavy done : Ptr) where
  -- `osa_worker_job_init` and `osa_worker_pool_submit_to_hsm`, as the handler calls them.
  unfoldable pub give_job : Ptr → Ptr → Store → ℤ × Store
  give_job pool job s =
      submit_to_hsm pool job self sig_work_complete (job_init job heavy self done self s)

  -- The ENTRY case of `state_working_handler`.
  unfoldable pub enter_working : Call Example → Cmd Example ℤ
  enter_working call x =
      let counted = record x { job_count = inc32 x.job_count } in
      let (job, s) = job_alloc x.store in
      if job == null
      then move_to call state_idle (record counted { store = s })
      else (let (ret, t) = give_job x.worker_pool job s in
          if not (eqb_ℤ ret (pos 0))
          then move_to call state_idle
              (record counted { store = job_free job t; current_job = null })
          else move_to call state_processing (record counted { store = t; current_job = job }))

  -- The case SIG_WORK_COMPLETE.
  unfoldable pub complete_work : Call Example → Event → Cmd Example ℤ
  complete_work call e x = move_to call state_idle (
      if e.payload == null
      then x
      else if is_neg (x.store.jobs e.payload).result
      then record x {
        error_count = inc32 x.error_count;
        store = job_free e.payload x.store;
        current_job = null;
      }
      else record x {
        completed_count = inc32 x.completed_count;
        store = job_free e.payload x.store;
        current_job = null;
      })

  -- The case SIG_WORK_CANCEL; `none` also where the search of the pool's queue has no end.
  unfoldable pub cancel_work : Cmd Example ℤ
  cancel_work x =
      if x.current_job == null
      then some (pos 0, x)
      else elim (cancel x.worker_pool (x.store.jobs x.current_job).id x.store) [
        | none ↦ none
        | some (c, s) ↦ some (pos 0, record x { store = s })
      ]

  -- `state_working_handler`
  unfoldable pub working_handler : Call Example → Event → Cmd Example ℤ
  working_handler call e x =
      if on e sig_entry
      then enter_working call x
      else if on e sig_work_complete
      then complete_work call e x
      else if on e sig_work_cancel
      then cancel_work x
      else if on e sig_work_start
      then some (pos 0, x)
      else hand_on call e x

  -- `state_processing_handler`
  unfoldable pub processing_handler : Call Example → Event → Cmd Example ℤ
  processing_handler call e x =
      if on e sig_entry
      then some (pos 0, x)
      else if on e sig_period
      then some (pos 0, x)
      else if on e sig_work_progress
      then some (pos 0, x)
      else if on e sig_work_error
      then move_to call state_working (record x { error_count = inc32 x.error_count })
      else hand_on call e x

  -- The three states. There is no state at another address: nothing comes back from there.
  unfoldable pub handler_at : Ptr → Call Example → Event → Cmd Example ℤ
  handler_at s =
      if s == state_idle
      then idle_handler
      else if s == state_working
      then working_handler
      else if s == state_processing
      then processing_handler
      else λ call e x. none

  abbrev name_at : Ptr → List ℕ
  name_at s =
      if s == state_idle
      then 105 ∷ 100 ∷ 108 ∷ 101 ∷ []
      else if s == state_working
      then 119 ∷ 111 ∷ 114 ∷ 107 ∷ 105 ∷ 110 ∷ 103 ∷ []
      else if s == state_processing
      then 112 ∷ 114 ∷ 111 ∷ 99 ∷ 101 ∷ 115 ∷ 115 ∷ 105 ∷ 110 ∷ 103 ∷ []
      else []

  abbrev pub chart : Chart Example
  chart s = record { handler = handler_at s; parent = parents s; name = name_at s }
