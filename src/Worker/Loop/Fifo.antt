-- ===== src/Worker/Loop/Fifo.antt =====
-- A worker that is alone runs the jobs of the queue in their order, and each once.
use open_hsm.Base.{
  ℕ, Bool, zero, suc, ◌-◌, ◌<◌, ◌≤◌, ◌≡◌, ◌≢◌, ◌⊎◌, inl, inr, refl, ap, ◌∙◌, true, false, ◌==◌,
  if◌then◌else◌, some, List, [], ◌∷◌, length, ℤ, Ptr, null, arith, Bool-cases, is_neg,
}
use open_hsm.Hsm.{Event}
use open_hsm.Worker.{Store, JobState, running, completed, error}
use open_hsm.Worker.Members.{has}
use open_hsm.Worker.Invariant.{IsQueue}
use open_hsm.Worker.Thread.{nothing, got, dequeue, take_job}
use open_hsm.Worker.Thread.Take.{take_job-cons, take_job-nil}
use open_hsm.Worker.Loop.{asleep, woken, call_function, worker_loop}
use open_hsm.Worker.Loop.Order.{effect, told, in_order, in_order-same, returned, ran, run_job_lem}

-- The job is over.
abbrev pub IsOver : JobState → Type 0
IsOver st = (st ≡ completed) ⊎ (st ≡ error)

IsOver-if : (b : Bool) → IsOver (if b then error else completed)
IsOver-if true = inr refl
IsOver-if false = inl refl

-- `t` is `s` once the jobs `xs` have been run: each is over, and no other job is touched.
pub record Ran (xs : List Ptr) (s t : Store) : Type 0 where
  pub over : (a : Ptr) → has a xs ≡ true → IsOver (t.jobs a).state
  pub same : (a : Ptr) → has a xs ≡ false → t.jobs a ≡ s.jobs a

woken-IsQueue : (s : Store) (xs : List Ptr) → IsQueue s xs → IsQueue (woken s) xs
woken-IsQueue s xs q = record {
  linked = q.linked;
  distinct = q.distinct;
  depth = q.depth;
  bounded = q.bounded;
  small = q.small;
  waiting = q.waiting;
}

jobs-take_job :
    (s : Store) (x a : Ptr) → (take_job s).0 ≡ got x → a ≢ x → (take_job s).1.jobs a ≡ s.jobs a
unfolding take_job dequeue
jobs-take_job s x a e ne = ground (arith, e)

-- The job that is taken.
taken_job :
    (s : Store) (x : Ptr)
    → (take_job s).0 ≡ got x
    → (take_job s).1.jobs x ≡ record (s.jobs x) { next = null; prev = null; state = running }
unfolding take_job dequeue
taken_job s x e = ground (arith, e)

pool-take_job :
    (s : Store)
    → ((take_job s).1.pool.shutdown ≡ s.pool.shutdown)
      × ((take_job s).1.pool.work_sem ≡ s.pool.work_sem)
unfolding take_job dequeue
pool-take_job s = ground arith

module _ {W : Type 0} (func : (f ctx : Ptr) → W → ℤ × W)
    (calls : (cb job : Ptr) → ℤ → (ctx : Ptr) → W → W) (post : Ptr → Event → W → W)
    (job_size : ℕ) where
  -- What a job does is the same once it is taken.
  effect-take_job :
      (s : Store) (x : Ptr) (w : W)
      → (take_job s).0 ≡ got x
      → effect func calls post job_size x ((take_job s).1.jobs x) w
        ≡ effect func calls post job_size x (s.jobs x) w
  unfolding effect told call_function
  effect-take_job s x w e = rw (taken_job s x e) refl

  -- The turns of the loop, by what the worker finds.
  loop-asleep :
      (f : ℕ) (s : Store) (w : W)
      → s.pool.work_sem ≡ 0
      → worker_loop func calls post job_size (suc f) (s, w) ≡ some (asleep, s, w)
  unfolding worker_loop
  loop-asleep f s w e = simp e

  loop-nothing :
      (f : ℕ) (s : Store) (w : W)
      → s.pool.work_sem ≢ 0
      → take_job (woken s) ≡ (nothing, woken s)
      → worker_loop func calls post job_size (suc f) (s, w)
        ≡ worker_loop func calls post job_size f (woken s, w)
  unfolding worker_loop
  loop-nothing f s w ne e =
      let some_left : (s.pool.work_sem == 0) ≡ false = ground arith in simp (some_left, e)

  loop-got :
      (f : ℕ) (s : Store) (w : W) (x : Ptr)
      → s.pool.work_sem ≢ 0
      → (take_job (woken s)).0 ≡ got x
      → worker_loop func calls post job_size (suc f) (s, w)
        ≡ worker_loop func calls post job_size f
            (ran func calls post job_size x (take_job (woken s)).1 w)
  unfolding worker_loop
  loop-got f s w x ne e =
      let some_left : (s.pool.work_sem == 0) ≡ false = ground arith in simp (some_left, e)

  -- A turn of the loop on a queue that is not empty.
  module _ (s : Store) (w : W) (x : Ptr) (xs : List Ptr) (q : IsQueue s (x ∷ xs))
      (on : s.pool.shutdown ≡ false) where
    abbrev next_state : Store × W
    next_state = ran func calls post job_size x (take_job (woken s)).1 w

    turn :
        ((take_job (woken s)).0 ≡ got x)
        × (next_state.1 ≡ effect func calls post job_size x (s.jobs x) w)
        × IsQueue next_state.0 xs
        × (next_state.0.pool.shutdown ≡ false)
        × (next_state.0.pool.work_sem ≡ s.pool.work_sem - 1)
        × ((a : Ptr) → a ≢ x → next_state.0.jobs a ≡ s.jobs a)
        × IsOver (next_state.0.jobs x).state
    turn =
        let (e, q', _, _, _) = take_job-cons (woken s) on x xs (woken-IsQueue s (x ∷ xs) q) in
        let (shut, sem) = pool-take_job (woken s) in
        let (world, q'', shut', sem', same, state) =
          run_job_lem func calls post job_size x (take_job (woken s)).1 w xs q' q.distinct.0 in
        (
          e,
          world ∙ effect-take_job (woken s) x w e,
          q'',
          shut' ∙ shut ∙ on,
          sem' ∙ sem,
          λ a ne. same a ne ∙ jobs-take_job (woken s) x a e ne,
          rw state
              (IsOver-if (is_neg (returned func calls post job_size x (take_job (woken s)).1 w).0)),
        )

  -- A valid queue `xs` of a running pool whose work semaphore has a token for each of its jobs, and
  -- perhaps more: with fuel above the number of tokens, the loop of the worker comes to sleep, on an
  -- empty valid queue. What it has done is what the jobs do in the order of the queue, each once.
  -- Each of them is completed or failed, and no other job is touched.
  pub worker_loop_lem :
      (f : ℕ) (s : Store) (w : W) (xs : List Ptr)
      → IsQueue s xs
      → s.pool.shutdown ≡ false
      → length xs ≤ s.pool.work_sem
      → s.pool.work_sem < f
      → (s' : Store) × (worker_loop func calls post job_size f (s, w)
          ≡ some (asleep, s', in_order func calls post job_size s.jobs xs w))
        × IsQueue s' []
        × Ran xs s s'
  unfolding in_order
  worker_loop_lem zero s w xs q on tokens fuel = absurd (omega (arith, fuel))
  worker_loop_lem (suc f) s w [] q on tokens fuel = elim (Bool-cases (s.pool.work_sem == 0)) [
    | inl no_token ↦ (
      s,
      loop-asleep f s w (ground (arith, no_token)),
      q,
      record { over = λ a i. ground arith; same = λ a i. refl },
    )
    | inr token ↦
        let left_over : s.pool.work_sem ≢ 0 = ground (arith, token) in
        let (s', runs, q', over) =
          worker_loop_lem f (woken s) w [] (woken-IsQueue s [] q) on (omega arith)
            (omega (arith, fuel, left_over)) in
        (
          s',
          loop-nothing f s w left_over (take_job-nil (woken s) on (woken-IsQueue s [] q)) ∙ runs,
          q',
          record { over = over.over; same = over.same },
        )
  ]
  worker_loop_lem (suc f) s w (x ∷ xs) q on tokens fuel =
      let (e, world, q', on', sem, kept, over) = turn s w x xs q on in
      let (t, w') = next_state s w x xs q on in
      let (s', runs, q'', rest) =
        worker_loop_lem f t w' xs q' on' (omega (arith, sem, tokens))
          (omega (arith, sem, tokens, fuel)) in
      (
        s',
        loop-got f s w x (omega (arith, tokens)) e
            ∙ runs
            ∙ ap (λ (v : W). some (asleep, s', v))
                (in_order-same func calls post job_size s.jobs t.jobs xs w'
                    (λ a i. kept a (ground (arith, i, q.distinct.0)))
                  ∙ ap (in_order func calls post job_size s.jobs xs) world),
        q'',
        record {
          over = λ a i. elim (Bool-cases (a == x)) [
            | inl here ↦
                let is_x : a ≡ x = ground (arith, here) in rw (is_x, rest.same x q.distinct.0) over
            | inr there ↦ rest.over a (ground (arith, i, there))
          ];
          same = λ a out. rest.same a (ground (arith, out)) ∙ kept a (ground (arith, out));
        },
      )
