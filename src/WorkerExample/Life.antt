-- ===== src/WorkerExample/Life.antt =====
-- A job of the example from the pool's queue to its end: a worker runs it, and the machine hears of it.
use open_hsm.Base.{
  ℕ, suc, ◌<◌, ◌≡◌, ◌≢◌, refl, ap, ◌∙◌, false, Option, none, some, List, [], ◌∷◌, ◌==◌,
  if◌then◌else◌, arith, ℤ, pos, is_neg, Ptr, null, inc32,
}
use open_hsm.Queue.{Wake, returned}
use open_hsm.Hsm.{Event, invoke, ◌>>◌, pure}
use open_hsm.OsaHsm.{OsaHsm, Layout, Next, continues, event_post, run_round}
use open_hsm.OsaHsm.Post.{Inbox, posted, event_post-room}
use open_hsm.OsaHsm.Dispatch.{received, run_round_lem}
use open_hsm.Worker.{Store, completed, error}
use open_hsm.Worker.Invariant.{IsQueue}
use open_hsm.Worker.Slots.{job_free}
use open_hsm.Worker.Thread.{got, dequeue, take_job, store_result, finish_job}
use open_hsm.Worker.Thread.Take.{take_job-cons}
use open_hsm.Worker.Thread.Finish.{event_for}
use open_hsm.Worker.Frame.{Quiet, finish_job-IsQueue, IsQueue-elsewhere}
use open_hsm.WorkerExample.{Example, example_hsm, sig_work_complete, completion_callback}
use open_hsm.WorkerExample.Handlers.{state_idle, state_processing, chart}
use open_hsm.WorkerExample.Given.{IsFilled}
use open_hsm.WorkerExample.Delegate.{work_complete}

abbrev pub then_continues : Option (ℤ × Example) → Option (Next × Example)
then_continues o = elim o [ none ↦ none | some (a, y) ↦ some (continues, y) ]

module _ (self heavy done : Ptr) (lay : Layout) (job_size : ℕ) where
  -- The callback that the worker calls, on the machine.
  abbrev pub call_back : (cb job : Ptr) → ℤ → (ctx : Ptr) → Store × Example → Store × Example
  call_back cb job result ctx (s, x) = (s, if cb == done then completion_callback result x else x)

  -- `osa_hsm_active_event_post` to the machine, at timeout 0, where it does not wait.
  unfoldable pub post_event : Ptr → Event → Example → Example
  post_event hsm e x = elim (event_post lay (some (x.super)) (some e) 0 []) [
    | returned (c, some h) ↦ if hsm == self then record x { super = h } else x
    | _ ↦ x
  ]

  -- A worker has taken the job at the head of the queue, whose function has returned `ret`, and has
  -- ended it.
  unfoldable pub worked : Ptr → ℤ → Example → Example
  worked j ret x =
      let (s, y) =
        finish_job call_back post_event job_size j (store_result j ret (take_job x.store).1, x) in
      record y { store = s }

  quiet : Quiet call_back
  quiet = record {
    pool_same = λ cb job r ctx s w. refl;
    jobs_same = λ cb job r ctx s w a ne. record { next = refl; prev = refl; state = refl };
  }

  fields-take_job :
      (s : Store) (j : Ptr)
      → (take_job s).0 ≡ got j
      → IsFilled self heavy done (s.jobs j)
      → IsFilled self heavy done ((take_job s).1.jobs j)
  unfolding take_job dequeue
  fields-take_job s j e f = record {
    function = ground (arith, f.function);
    callback = ground (arith, f.callback);
    target = ground (arith, f.target);
    signal = ground (arith, f.signal);
  }

  -- What the end of a job leaves, in the job and in the machine.
  finish_job-filled :
      (s : Store) (x : Example) (j : Ptr) (ret : ℤ)
      → IsFilled self heavy done (s.jobs j)
      → self ≢ null
      → heavy ≢ null
      → done ≢ null
      → let after = finish_job call_back post_event job_size j (store_result j ret s, x) in
        (after.1
          ≡ post_event self (event_for job_size j sig_work_complete) (completion_callback ret x))
        × ((after.0.jobs j).result ≡ ret)
        × ((after.0.jobs j).state ≡ (if is_neg ret then error else completed))
  unfolding finish_job store_result
  finish_job-filled s x j ret f sn hn dn =
      ground (arith, f.function, f.callback, f.target, f.signal)

  module _ (x : Example) (j : Ptr) (xs : List Ptr) (ret : ℤ) (q : IsQueue x.store (j ∷ xs))
      (on : x.store.pool.shutdown ≡ false) (filled : IsFilled self heavy done (x.store.jobs j))
      (sn : self ≢ null) (hn : heavy ≢ null) (dn : done ≢ null) (cap : ℕ)
      (inbox : Inbox lay cap x.super.msg_q []) (room : 0 < cap) where
    abbrev told : Event
    told = event_for job_size j sig_work_complete

    -- The HSM once the worker has told it of the job.
    abbrev informed : OsaHsm
    informed = posted lay cap x.super [] inbox told 0 []

    -- The store once the job has ended.
    abbrev ended : Store
    ended =
        (finish_job call_back post_event job_size j (store_result j ret (take_job x.store).1, x)).0

    taken : IsQueue (take_job x.store).1 xs × IsFilled self heavy done ((take_job x.store).1.jobs j)
    taken =
        let (e, q', _, _, _) = take_job-cons x.store on j xs q in
        (q', fields-take_job x.store j e filled)

    -- The machine when the worker is done with the job.
    abbrev told_machine : Example
    told_machine = record x { super = informed; operation_result = ret; store = ended }

    posted_lem :
        post_event self told (completion_callback ret x)
        ≡ record x { super = informed; operation_result = ret }
    unfolding post_event completion_callback
    posted_lem =
        let posts : event_post lay (some (x.super)) (some told) 0 []
            ≡ returned (pos 0, some informed) =
          (event_post-room lay cap x.super [] inbox told 0 [] room).0 in
        rw (posts, post_event) (ground arith)

    worked_lem : worked j ret x ≡ told_machine
    unfolding worked
    worked_lem =
        let (e, _, _) = finish_job-filled (take_job x.store).1 x j ret taken.1 sn hn dn in
        ap (λ (y : Example). record y { store = ended }) (e ∙ posted_lem)

    ended-IsQueue : IsQueue ended xs
    ended-IsQueue =
        finish_job-IsQueue call_back post_event job_size quiet j (take_job x.store).1 x ret xs
          taken.0 q.distinct.0

    -- Let a job that the example has filled in be the first in the valid queue of a running pool, let
    -- the machine be in `processing`, and its open queue have room and no event; none of the three
    -- addresses in the job is NULL. A worker takes the job, its function returns `ret`, and the worker
    -- ends it. Then the next round of the machine's loop comes back with
    -- the machine in `idle` with no job and no event, the job's slot given back, the job failed or
    -- completed as `ret` is negative or not, one of the machine's two counters up accordingly, and the
    -- jobs behind it still in the valid queue.
    pub job_life :
        (f : ℕ) (ws : List Wake)
        → x.super.super.current ≡ state_processing
        → (z : Example) × (run_round example_hsm lay
              (chart self heavy done)
              (suc (suc (suc f)))
              ws
              (worked j ret x)
            ≡ some (continues, z))
          × (z.super.super
              ≡ record { error = pos 0; current = state_idle; history = state_processing })
          × (z.current_job ≡ null)
          × Inbox lay cap z.super.msg_q []
          × (z.store ≡ job_free j (worked j ret x).store)
          × (((worked j ret x).store.jobs j).state ≡ (if is_neg ret then error else completed))
          × (z.completed_count
              ≡ (if is_neg ret then x.completed_count else inc32 x.completed_count))
          × (z.error_count ≡ (if is_neg ret then inc32 x.error_count else x.error_count))
          × IsQueue z.store xs
    unfolding job_free
    job_life f ws at =
        let (_, result, state) = finish_job-filled (take_job x.store).1 x j ret taken.1 sn hn dn in
        let b = (event_post-room lay cap x.super [] inbox told 0 [] room).1 in
        let (round, b') =
          run_round_lem example_hsm lay (chart self heavy done) (suc (suc (suc f))) cap told_machine
            told [] ws b in
        let y =
          received example_hsm lay (chart self heavy done) (suc (suc (suc f))) b.queue
            told_machine in
        let (z, runs, super, same, no_job, store, good, bad) =
          work_complete self heavy done f y at j job_size q.linked.1 in
        rw worked_lem (
          z,
          round
              ∙ ap
                  (λ (s : Ptr).
                    (invoke (chart self heavy done) (suc (suc (suc f))) s told >> pure continues) y)
                  at
              ∙ ap then_continues runs,
          super,
          no_job,
          rw same b',
          store,
          state,
          good
              ∙ ap (λ (r : ℤ). if is_neg r then x.completed_count else inc32 x.completed_count)
                  result,
          bad ∙ ap (λ (r : ℤ). if is_neg r then inc32 x.error_count else x.error_count) result,
          rw store (
              IsQueue-elsewhere ended (job_free j ended) xs j ended-IsQueue q.distinct.0
                (ground arith) (λ a ne. ground arith)),
        )
