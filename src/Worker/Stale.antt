-- ===== src/Worker/Stale.antt =====
-- Cancelling the first job of the queue after a worker has taken its predecessor.
--
-- `osa_worker_pool_thread` moves the head pointer on and leaves the new head's `prev` at the job that
-- it took, and `osa_worker_pool_cancel` reads that pointer as "not the first job".
use open_hsm.Base.{
  ◌≡◌, ◌≢◌, ◌⊎◌, inl, inr, true, ◌==◌, Bool-cases, ◌∙◌, false, List, ◌∷◌, arith, Ptr, null, pos,
  some,
}
use open_hsm.Worker.{Store, cancelled}
use open_hsm.Worker.Members.{has, erase}
use open_hsm.Worker.Invariant.{IsQueue}
use open_hsm.Worker.Ops.{cancel}
use open_hsm.Worker.Cancel.{
  first_with, withdrawn, cancel_found, pool-withdrawn, state-withdrawn, shutdown-withdrawn,
  withdrawn-IsQueue,
}
use open_hsm.Worker.Thread.{got, take_job}

-- How a queued job `z` is withdrawn from the queue `xs`: the valid queue goes on without it, or it was
-- the first job with a predecessor, and the head pointer still leads to it.
abbrev pub Withdrawal : Store → List Ptr → Ptr → Type 0
Withdrawal s xs z =
    IsQueue (withdrawn z s) (erase z xs)
    ⊎ ((s.pool.head ≡ z) × ((s.jobs z).prev ≢ null) × ((withdrawn z s).pool.head ≡ z))

pub withdrawn-Withdrawal :
    (s : Store) (xs : List Ptr) (z : Ptr) → IsQueue s xs → has z xs ≡ true → Withdrawal s xs z
withdrawn-Withdrawal s xs z q here = elim (Bool-cases (z == s.pool.head)) [
  | inr other ↦ inl (withdrawn-IsQueue s xs q z here (inl (ground (arith, other))))
  | inl first ↦ elim (Bool-cases ((s.jobs z).prev == null)) [
    | inl alone ↦ inl (withdrawn-IsQueue s xs q z here (inr (ground (arith, alone))))
    | inr stale ↦ inr (
      ground (arith, first),
      ground (arith, stale),
      ground (arith, pool-withdrawn z s, first, stale),
    )
  ]
]

module _ (s : Store) (x : Ptr) (xs : List Ptr) (q : IsQueue s (x ∷ xs)) (pool : Ptr)
    (pnz : pool ≢ null) where
  -- If the first job of a valid queue has a predecessor, cancelling it by its id returns 0 and marks
  -- it as cancelled, but the head pointer still leads to it; while the pool is not shut down, the
  -- next worker takes the cancelled job and runs it.
  pub cancel-stale_head :
      (s.jobs x).prev ≢ null
      → s.pool.shutdown ≡ false
      → (cancel pool (s.jobs x).id s ≡ some (pos 0, withdrawn x s))
        × (((withdrawn x s).jobs x).state ≡ cancelled)
        × ((withdrawn x s).pool.head ≡ x)
        × ((take_job (withdrawn x s)).0 ≡ got x)
  unfolding take_job
  cancel-stale_head stale on =
      let e : first_with s.jobs (x ∷ xs) (s.jobs x).id ≡ x = ground arith in
      let kept : (withdrawn x s).pool.head ≡ x = ground (arith, pool-withdrawn x s, q.linked) in
      let still : (withdrawn x s).pool.shutdown ≡ false = shutdown-withdrawn x s ∙ on in
      (
        rw e at (cancel_found s (x ∷ xs) q pool (s.jobs x).id pnz (ground (arith, q.linked))),
        ground (arith, state-withdrawn x s x),
        kept,
        ground (arith, kept, still, q.linked),
      )
