-- ===== src/Worker/Submit.antt =====
-- `osa_worker_pool_submit` puts a job at the end of the queue.
use open_hsm.Base.{
  ◌≡◌, ◌≢◌, ◌⊎◌, inl, inr, refl, false, ◌||◌, List, [], ◌∷◌, ◌++◌, arith, ◌==◌, leb, leb→le,
  if◌then◌else◌, length, length-append, ◌+◌, ◌<◌, Ptr, null, pos, minus, Bool-cases, inc32,
}
use open_hsm.Worker.{Store, pending}
use open_hsm.Worker.Members.{has, Distinct, Distinct-snoc, has-append}
use open_hsm.Worker.Chain.{IsLinked, Chain-snoc, has-last, last-ne_null}
use open_hsm.Worker.Invariant.{IsQueue}
use open_hsm.Worker.Ops.{assign_id, prepare, link_last, count_submit, submit}

-- The store after a submission that is not refused.
abbrev pub enqueued : Ptr → Store → Store
enqueued job s = count_submit (link_last job (prepare job (assign_id job s)))

pub pool-enqueued :
    (job : Ptr) (s : Store)
    → ((enqueued job s).pool.head ≡ (if s.pool.tail == null then job else s.pool.head))
      × ((enqueued job s).pool.tail ≡ job)
      × ((enqueued job s).pool.queue_size ≡ s.pool.queue_size)
      × ((enqueued job s).pool.stats.queue_depth ≡ inc32 s.pool.stats.queue_depth)
      × ((enqueued job s).pool.work_sem ≡ s.pool.work_sem + 1)
unfolding assign_id prepare link_last count_submit
pool-enqueued job s = ground arith

module _ (job : Ptr) (s : Store) (new : s.pool.tail ≢ job) where
  next-enqueued :
      (a : Ptr)
      → ((enqueued job s).jobs a).next ≡ (
          if a == job
          then null
          else if s.pool.tail == null
          then (s.jobs a).next
          else if a == s.pool.tail
          then job
          else (s.jobs a).next)
  unfolding assign_id prepare link_last count_submit
  next-enqueued a = ground arith

  prev-enqueued :
      (a : Ptr)
      → ((enqueued job s).jobs a).prev ≡ (if a == job then s.pool.tail else (s.jobs a).prev)
  unfolding assign_id prepare link_last count_submit
  prev-enqueued a = ground arith

  state-enqueued :
      (a : Ptr) → ((enqueued job s).jobs a).state ≡ (if a == job then pending else (s.jobs a).state)
  unfolding assign_id prepare link_last count_submit
  state-enqueued a = ground arith

-- The tail is on the queue, or NULL.
tail_fresh :
    (s : Store) (xs : List Ptr) (job : Ptr)
    → IsLinked s.jobs s.pool.head s.pool.tail xs
    → job ≢ null
    → has job xs ≡ false
    → s.pool.tail ≢ job
tail_fresh s [] job l nz out = ground arith
tail_fresh s (x ∷ xs) job l nz out = ground (arith, has-last s.jobs x xs s.pool.tail l.2)

IsLinked-enqueued :
    (s : Store) (xs : List Ptr) (job : Ptr)
    → IsLinked s.jobs s.pool.head s.pool.tail xs
    → Distinct xs
    → job ≢ null
    → has job xs ≡ false
    → s.pool.tail ≢ job
    → IsLinked
        (enqueued job s).jobs
        (enqueued job s).pool.head
        (enqueued job s).pool.tail
        (xs ++ job ∷ [])
IsLinked-enqueued s [] job l d nz out new =
    ground (arith, pool-enqueued job s, next-enqueued job s new job)
IsLinked-enqueued s (x ∷ xs) job l d nz out new =
    let tnz = last-ne_null s.jobs x xs s.pool.tail l.2 l.1 in
    let p = pool-enqueued job s in
    (
      ground (arith, p),
      l.1,
      rw p.1 (
          Chain-snoc s.jobs (enqueued job s).jobs x xs s.pool.tail job l.2 d nz
            (
              ground (arith, next-enqueued job s new s.pool.tail),
              ground (arith, next-enqueued job s new job),
              ground (arith, prev-enqueued job s new job),
            )
            (λ a i ne. ground (arith, next-enqueued job s new a))
            (λ a i. ground (arith, prev-enqueued job s new a))),
    )

module _ (s : Store) (xs : List Ptr) (job : Ptr) (q : IsQueue s xs) (nz : job ≢ null)
    (out : has job xs ≡ false) where
  enqueued-IsQueue : length xs < s.pool.queue_size → IsQueue (enqueued job s) (xs ++ job ∷ [])
  enqueued-IsQueue room =
      let p = pool-enqueued job s in
      let new = tail_fresh s xs job q.linked nz out in
      record {
        linked = IsLinked-enqueued s xs job q.linked q.distinct nz out new;
        distinct = Distinct-snoc xs job q.distinct out;
        depth = omega (arith, p.3, q.depth, q.small, length-append xs (job ∷ []));
        bounded = omega (arith, p.2, length-append xs (job ∷ []));
        small = rw p.2 q.small;
        waiting = λ a i.
            ground (arith, state-enqueued job s new a, q.waiting a, has-append a xs (job ∷ []));
      }

  -- A job that is not on a valid queue is refused, with nothing changed, exactly when the queue
  -- holds `queue_size` jobs. Otherwise it goes to the end of the queue, pending, the queue stays
  -- valid, and the work semaphore is posted once.
  pub submit_lem :
      (pool : Ptr)
      → pool ≢ null
      → ((length xs ≡ s.pool.queue_size) × (submit pool job s ≡ (minus 1, s)))
        ⊎ ((length xs < s.pool.queue_size)
            × ((submit pool job s).0 ≡ pos 0)
            × IsQueue (submit pool job s).1 (xs ++ job ∷ [])
            × ((submit pool job s).1.pool.work_sem ≡ s.pool.work_sem + 1))
  unfolding submit
  submit_lem pool pnz =
      let here : ((pool == null) || (job == null)) ≡ false = ground arith in
      elim (Bool-cases (leb s.pool.queue_size s.pool.stats.queue_depth)) [
        | inl no_room ↦
            inl (omega (arith, q.bounded, q.depth, leb→le no_room), simp (here, no_room))
        | inr room ↦
            let fits : length xs < s.pool.queue_size = ground (arith, q.depth) in
            inr (simp (here, room) (fits, refl, enqueued-IsQueue fits, (pool-enqueued job s).4))
      ]
