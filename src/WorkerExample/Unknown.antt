-- ===== src/WorkerExample/Unknown.antt =====
-- The signals for which neither `processing` nor `working` has a case.
use open_hsm.Base.{ℕ, ◌≡◌, ap, Bool, false, ◌||◌, Option, none, some, pos, Ptr, arith}
use open_hsm.Hsm.{Event, Call, sig_entry, sig_period, invoke, state_super}
use open_hsm.Hsm.Super.{super_loops}
use open_hsm.WorkerExample.{
  Example, example_active, sig_work_start, sig_work_complete, sig_work_cancel, sig_work_error,
  sig_work_progress,
}
use open_hsm.WorkerExample.Handlers.{
  state_processing, parents, on, hand_on, processing_handler, working_handler, handler_at, chart,
}

-- The signals for which the two handlers have a case.
abbrev pub has_case : Event → Bool
has_case e =
    on e sig_entry
    || on e sig_period
    || on e sig_work_start
    || on e sig_work_complete
    || on e sig_work_cancel
    || on e sig_work_progress
    || on e sig_work_error

hand_on-none :
    (call : Call Example) (e : Event) (x : Example)
    → state_super example_active call parents e x ≡ none
    → hand_on call e x ≡ none
unfolding hand_on
hand_on-none call e x h =
    ap (λ (m : Option (Unit {0} × Example)). elim m [ none ↦ none | some (a, z) ↦ some (pos 0, z) ])
      h

module _ (self heavy done : Ptr) (e : Event) (other : has_case e ≡ false) where
  processing-Delegates :
      (call : Call Example) (x : Example)
      → state_super example_active call parents e x ≡ none
      → processing_handler self heavy done call e x ≡ none
  unfolding processing_handler
  processing-Delegates call x h = ground (arith, hand_on-none call e x h)

  working-Delegates :
      (call : Call Example) (x : Example)
      → state_super example_active call parents e x ≡ none
      → working_handler self heavy done call e x ≡ none
  unfolding working_handler
  working-Delegates call x h = ground (arith, hand_on-none call e x h)

-- An event for whose signal neither `processing` nor `working` has a case, HSM_SIG_EXIT for one, that
-- is dispatched to the machine in `processing` never comes back, whatever the fuel: `working` hands it
-- on to itself.
pub unknown_signal_loops :
    (self heavy done : Ptr) (e : Event) (x : Example)
    → x.super.super.current ≡ state_processing
    → has_case e ≡ false
    → (f : ℕ) → invoke (chart self heavy done) f state_processing e x ≡ none
unfolding handler_at
unknown_signal_loops self heavy done e x at other f =
    super_loops example_active (chart self heavy done) state_processing e x at (omega arith)
      (processing-Delegates self heavy done e other) (working-Delegates self heavy done e other) f
