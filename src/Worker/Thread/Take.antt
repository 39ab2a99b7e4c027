-- ===== src/Worker/Thread/Take.antt =====
-- A worker takes the oldest job.
use open_hsm.Base.{◌≡◌, refl, false, List, [], ◌∷◌, arith, ◌==◌, if◌then◌else◌, Ptr, null}
use open_hsm.Worker.{Store, running}
use open_hsm.Worker.Members.{Distinct}
use open_hsm.Worker.Chain.{IsLinked, Chain-frame}
use open_hsm.Worker.Invariant.{IsQueue}
use open_hsm.Worker.Thread.{nothing, got, dequeue, take_job}

IsLinked-dequeue :
    (s : Store) (x : Ptr) (xs : List Ptr)
    → IsLinked s.jobs s.pool.head s.pool.tail (x ∷ xs)
    → Distinct (x ∷ xs)
    → IsLinked (dequeue x s).jobs (dequeue x s).pool.head (dequeue x s).pool.tail xs
unfolding dequeue
IsLinked-dequeue s x [] l d = ground arith
IsLinked-dequeue s x (y ∷ ys) (hx, xnz, (xy, ynz, back, c)) d =
    let on : ((s.jobs x).next == null) ≡ false = ground arith in
    (
      xy,
      ynz,
      simp on (
          Chain-frame s.jobs (dequeue x s).jobs y ys s.pool.tail c (ground arith)
            (λ a i. (ground arith, ground arith))),
    )

dequeue-IsQueue :
    (s : Store) (x : Ptr) (xs : List Ptr) → IsQueue s (x ∷ xs) → IsQueue (dequeue x s) xs
unfolding dequeue
dequeue-IsQueue s x xs q = record {
  linked = IsLinked-dequeue s x xs q.linked q.distinct;
  distinct = q.distinct.1;
  depth = omega (arith, q.depth, q.small, q.bounded);
  bounded = omega (arith, q.bounded);
  small = q.small;
  waiting = λ a i. ground (arith, q.waiting a);
}

pub state-dequeue :
    (s : Store) (x a : Ptr)
    → ((dequeue x s).jobs a).state ≡ (if a == x then running else (s.jobs a).state)
unfolding dequeue
state-dequeue s x a = ground arith

links-dequeue :
    (s : Store) (x : Ptr)
    → (((dequeue x s).jobs x).next ≡ null) × (((dequeue x s).jobs x).prev ≡ null)
unfolding dequeue
links-dequeue s x = ground arith

module _ (s : Store) (on : s.pool.shutdown ≡ false) where
  -- From a valid queue that is not empty, while the pool is not shut down, a worker takes the job
  -- that was submitted first: the job is running and unlinked, and the queue is valid without it.
  pub take_job-cons :
      (x : Ptr) (xs : List Ptr)
      → IsQueue s (x ∷ xs)
      → ((take_job s).0 ≡ got x)
        × IsQueue (take_job s).1 xs
        × (((take_job s).1.jobs x).state ≡ running)
        × (((take_job s).1.jobs x).next ≡ null)
        × (((take_job s).1.jobs x).prev ≡ null)
  unfolding take_job
  take_job-cons x xs q =
      let e : take_job s ≡ (got x, dequeue x s) = ground (arith, q.linked) in
      rw e (
        refl,
        dequeue-IsQueue s x xs q,
        ground (arith, state-dequeue s x x),
        (links-dequeue s x).0,
        (links-dequeue s x).1,
      )

  -- On an empty queue it goes back to the semaphore, and changes nothing.
  pub take_job-nil : IsQueue s [] → take_job s ≡ (nothing, s)
  unfolding take_job
  take_job-nil q = ground (arith, q.linked)
