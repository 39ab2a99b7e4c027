-- ===== src/WorkerExample/Finish.antt =====
-- What the example does with an event, by state and signal.
use open_hsm.Base.{ℕ, suc, ◌≡◌, ◌≢◌, inl, inr, ap, true, some, List, ℤ, pos, Ptr, null, inc32}
use open_hsm.Hsm.{
  Call, event_of, entry_event, invoke, state_init, state_transit, state_error, Active,
}
use open_hsm.Worker.Invariant.{IsQueue}
use open_hsm.WorkerExample.{Example, sig_work_start, sig_work_error}
use open_hsm.WorkerExample.Handlers.{
  state_idle, state_working, state_processing, move_to, idle_handler, processing_handler,
  working_handler, handler_at, chart,
}
use open_hsm.WorkerExample.Start.{enter_working_lem}
use open_hsm.WorkerExample.Given.{Started, Attempt}

-- The machine on its way into state `s`.
abbrev pub bound_for : Ptr → Example → Example
bound_for s x = record x {
  super = record (x.super) {
    super = record (x.super.super) { current = s; history = x.super.super.current };
  };
}

-- The error code of the transition becomes what ENTRY returned.
pub move_to-some :
    (call : Call Example) (s : Ptr) (x : Example) {r : ℤ} {y : Example}
    → call s entry_event (bound_for s x) ≡ some (r, y)
    → move_to call s x
      ≡ some (
        r,
        record y { super = record (y.super) { super = record (y.super.super) { error = r } } },
      )
unfolding move_to state_transit state_init state_error
move_to-some call s x e = rw e

module _ (self heavy done : Ptr) (f : ℕ) (x : Example) (xs : List Ptr) (q : IsQueue x.store xs)
    (set_up : x.store.pool_initialized ≡ true) (pool : x.worker_pool ≢ null) where
  entered :
      {y : Example}
      → Started self heavy done (bound_for state_working x) xs y
      → Started self heavy done (bound_for state_working x) xs (record y {
        super = record (y.super) { super = record (y.super.super) { error = pos 0 } };
      })
  entered s = record {
    at = ap (λ (b : Active). record b { error = pos 0 }) s.at;
    job = s.job;
    queued = s.queued;
    fields = s.fields;
    inbox = s.inbox;
    running = s.running;
    good = s.good;
    bad = s.bad;
  }

  move_to-working :
      (y : Example) × (move_to (invoke (chart self heavy done) (suc (suc f))) state_working x
        ≡ some (pos 0, y))
      × Attempt self heavy done (bound_for state_working x) xs y
  unfolding invoke handler_at working_handler
  move_to-working =
      let (y, e, a) =
        enter_working_lem self heavy done f (bound_for state_working x) xs q set_up pool in
      (
        _,
        move_to-some (invoke (chart self heavy done) (suc (suc f))) state_working x e,
        elim a [
          | inl (free, room, s) ↦ inl (free, room, entered s)
          | inr (why, at, q', good, bad) ↦
              inr (why, ap (λ (b : Active). record b { error = pos 0 }) at, q', good, bad)
        ],
      )

  -- SIG_WORK_START in `idle`, on a valid queue of a pool whose slots are set up, ends without an
  -- error. If a slot is free and the queue has room, the machine is then in `processing`, and its
  -- job is the last of the valid queue, with the function, the callback, the HSM and the signal of
  -- the example; else it is in `idle` again, with the same jobs in the queue.
  pub start_work :
      (y : Example) × (invoke
          (chart self heavy done)
          (suc (suc (suc f)))
          state_idle
          (event_of sig_work_start)
          x
        ≡ some (pos 0, y))
      × Attempt self heavy done (bound_for state_working x) xs y
  unfolding invoke handler_at idle_handler
  start_work = move_to-working

module _ (self heavy done : Ptr) (f : ℕ) (x : Example) where
  abbrev failing : Example
  failing = record x { error_count = inc32 x.error_count }

  -- SIG_WORK_ERROR in `processing`, on a valid queue of a pool whose slots are set up, counts an
  -- error and then tries to start another job: where a slot is free and the queue has room, this is
  -- put behind the jobs of the queue, none of which is taken out or freed; else the machine is in
  -- `idle`, with the same jobs in the queue.
  pub work_error :
      (xs : List Ptr)
      → IsQueue x.store xs
      → x.store.pool_initialized ≡ true
      → x.worker_pool ≢ null
      → (y : Example) × (invoke
            (chart self heavy done)
            (suc (suc (suc f)))
            state_processing
            (event_of sig_work_error)
            x
          ≡ some (pos 0, y))
        × Attempt self heavy done (bound_for state_working failing) xs y
  unfolding invoke handler_at processing_handler
  work_error xs q set_up pool = move_to-working self heavy done f failing xs q set_up pool
