-- ===== src/WorkerExample/Cycle.antt =====
-- The example from SIG_WORK_START to the end of the job: two rounds of the machine and one of a worker.
use open_hsm.Base.{
  ℕ, Option, suc, ◌<◌, ◌≡◌, ◌≢◌, ap, ◌∙◌, false, true, some, List, [], ◌∷◌, arith, ℤ, pos, is_neg,
  Ptr, null, inc32, if◌then◌else◌, inl, inr,
}
use open_hsm.Queue.{Wake}
use open_hsm.Hsm.{Active, event_of, invoke, ◌>>◌, pure}
use open_hsm.OsaHsm.{Layout, Next, continues, run_round}
use open_hsm.OsaHsm.Post.{Inbox}
use open_hsm.OsaHsm.Dispatch.{received, run_round_lem}
use open_hsm.Worker.Invariant.{IsQueue}
use open_hsm.Worker.Slots.Alloc.{free_count}
use open_hsm.WorkerExample.{Example, example_hsm, sig_work_start}
use open_hsm.WorkerExample.Handlers.{state_idle, state_working, state_processing, chart}
use open_hsm.WorkerExample.Given.{Started}
use open_hsm.WorkerExample.Finish.{bound_for, start_work}
use open_hsm.WorkerExample.Life.{worked, job_life, then_continues}

-- The machine `z` has ended a job that returned `ret`: it is in `idle` with no job and no event, the
-- queue is empty, and one of its two counters, which were `good` and `bad`, is up.
pub record Ended (lay : Layout) (cap good bad : ℕ) (ret : ℤ) (z : Example) : Type 0 where
  pub at :
      z.super.super ≡ record { error = pos 0; current = state_idle; history = state_processing }
  pub no_job : z.current_job ≡ null
  pub inbox : Inbox lay cap z.super.msg_q []
  pub empty : IsQueue z.store []
  pub successes : z.completed_count ≡ (if is_neg ret then good else inc32 good)
  pub failures : z.error_count ≡ (if is_neg ret then inc32 bad else bad)

module _ (self heavy done : Ptr) (lay : Layout) (job_size : ℕ) (sn : self ≢ null)
    (hn : heavy ≢ null) (dn : done ≢ null) (cap : ℕ) (room : 0 < cap) (f : ℕ) where
  -- A round of the machine's loop.
  abbrev round : List Wake → Example → Option (Next × Example)
  round ws x = run_round example_hsm lay (chart self heavy done) (suc (suc (suc f))) ws x

  -- The machine when a worker has run its job.
  abbrev after_job : ℤ → Example → Example
  after_job ret y = worked self heavy done lay job_size y.current_job ret y

  -- The second half: the job of `y` is run, and the machine hears of it.
  finishes :
      (x y : Example) (ws : List Wake) (ret : ℤ)
      → Started self heavy done x [] y
      → x.store.pool.shutdown ≡ false
      → Inbox lay cap x.super.msg_q []
      → (z : Example) × (round ws (after_job ret y) ≡ some (continues, z))
        × Ended lay cap x.completed_count x.error_count ret z
  finishes x y ws ret s on inbox =
      let (z, runs, super, no_job, inbox', _, _, good, bad, q) =
        job_life self heavy done lay job_size y y.current_job [] ret s.queued (s.running ∙ on)
          s.fields sn hn dn cap (rw s.inbox inbox) room f ws
          (ap (λ (b : Active). b.current) s.at) in
      (
        z,
        runs,
        record {
          at = super;
          no_job = no_job;
          inbox = inbox';
          empty = q;
          successes = rw (← s.good) good;
          failures = rw (← s.bad) bad;
        },
      )

  module _ (x : Example) (q : IsQueue x.store []) (set_up : x.store.pool_initialized ≡ true)
      (pool : x.worker_pool ≢ null) (on : x.store.pool.shutdown ≡ false)
      (free : 0 < free_count x.store) (space : 0 < x.store.pool.queue_size)
      (inbox : Inbox lay cap x.super.msg_q (event_of sig_work_start ∷ []))
      (idle : x.super.super.current ≡ state_idle) where
    -- The machine with the signal taken out of its queue.
    abbrev told : Example
    told = received example_hsm lay (chart self heavy done) (suc (suc (suc f))) inbox.queue x

    -- The first half: the machine hears of SIG_WORK_START.
    starts :
        (ws : List Wake)
        → (y : Example) × (round ws x ≡ some (continues, y))
          × Started self heavy done (bound_for state_working told) [] y
    starts ws =
        let (runs, _) =
          run_round_lem example_hsm lay (chart self heavy done) (suc (suc (suc f))) cap x
            (event_of sig_work_start) [] ws inbox in
        let (y, enters, attempt) = start_work self heavy done f told [] q set_up pool in
        let done_so : round ws x ≡ some (continues, y) =
          runs
          ∙ ap
              (λ (s : Ptr).
                (invoke (chart self heavy done) (suc (suc (suc f))) s (event_of sig_work_start)
                    >> pure continues)
                  told)
              idle
          ∙ ap then_continues enters in
        elim attempt [
          | inl (_, _, s) ↦ (y, done_so, s)
          | inr (inl none_free, _, _, _, _) ↦ absurd (omega (arith, none_free, free))
          | inr (inr no_room, _, _, _, _) ↦ absurd (omega (arith, no_room, space))
        ]

    -- Let SIG_WORK_START, and no other event, wait in the open queue of a machine in `idle`, and let
    -- the valid queue of its running pool be empty and have room, the slots be set up and one be free,
    -- and the addresses of the machine, of the pool, of the job function and of its callback not be
    -- NULL. The next round of the machine's loop gives the pool a job. When a
    -- worker has then taken the job, run it and ended it with `ret`, the round after that leads the
    -- machine back to `idle` with no job and no event, with the queue empty again, and with one of
    -- its two counters up as `ret` is negative or not.
    pub one_job :
        (ws ws' : List Wake) (ret : ℤ)
        → (y z : Example) × (round ws x ≡ some (continues, y))
          × (y.super.super.current ≡ state_processing)
          × IsQueue y.store (y.current_job ∷ [])
          × (round ws' (after_job ret y) ≡ some (continues, z))
          × Ended lay cap x.completed_count x.error_count ret z
    one_job ws ws' ret =
        let (y, runs, s) = starts ws in
        let (_, inbox') =
          run_round_lem example_hsm lay (chart self heavy done) (suc (suc (suc f))) cap x
            (event_of sig_work_start) [] ws inbox in
        let (z, runs', ended) = finishes (bound_for state_working told) y ws' ret s on inbox' in
        (y, z, runs, ap (λ (b : Active). b.current) s.at, s.queued, runs', ended)
