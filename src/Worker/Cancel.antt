-- ===== src/Worker/Cancel.antt =====
-- `osa_worker_pool_cancel` takes a pending job out of the queue.
use open_hsm.Base.{
  ℕ, ◌≡◌, ◌≢◌, ◌⊎◌, inl, inr, refl, true, false, List, [], ◌∷◌, arith, ◌==◌, if◌then◌else◌, length,
  suc, zero, ◌<◌, Ptr, null, pos, minus, Bool-cases, dec32, some,
}
use open_hsm.Worker.{Job, Store, cancelled}
use open_hsm.Worker.Members.{
  has, Distinct, erase, Distinct-erase, not-has-erase_self, has-erase_of_ne, length-erase,
}
use open_hsm.Worker.Chain.{
  Chain, IsLinked, Chain-frame, Chain-unlink, tail_after, next-unlink_jobs, prev-unlink_jobs,
  prev-has, mem-ne_null,
}
use open_hsm.Worker.Invariant.{IsQueue}
use open_hsm.Worker.Ops.{search_id, unlink_jobs, unlink, mark_cancelled, cancel}

-- The first job on the list with this id, or NULL.
abbrev pub first_with : (Ptr → Job) → List Ptr → ℕ → Ptr
first_with h [] id = null
first_with h (x ∷ xs) id = if (h x).id == id then x else first_with h xs id

pub has-first_with :
    (h : Ptr → Job) (xs : List Ptr) (id : ℕ)
    → first_with h xs id ≢ null
    → has (first_with h xs id) xs ≡ true
has-first_with h [] id nz = absurd (nz refl)
has-first_with h (x ∷ xs) id nz = ground (arith, has-first_with h xs id)

search_id-Chain :
    (f : ℕ) (h : Ptr → Job) (x : Ptr) (xs : List Ptr) (last : Ptr) (id : ℕ)
    → Chain h x xs last
    → x ≢ null
    → suc (length xs) < f
    → search_id f h x id ≡ some (first_with h (x ∷ xs) id)
unfolding search_id
search_id-Chain zero h x xs last id c nz fuel = absurd (omega arith)
search_id-Chain (suc zero) h x xs last id c nz fuel = absurd (omega arith)
search_id-Chain (suc (suc f)) h x [] last id c nz fuel = ground arith
search_id-Chain (suc (suc f)) h x (y ∷ ys) last id c nz fuel =
    ground (arith, search_id-Chain (suc f) h y ys last id c.3 c.1)

-- On a valid queue the search for an id, with one more than `queue_depth` as fuel, ends, and finds the
-- first job of the queue that has the id, or NULL if none has it.
pub search_id-IsQueue :
    (s : Store) (xs : List Ptr) (id : ℕ)
    → IsQueue s xs
    → search_id (suc s.pool.stats.queue_depth) s.jobs s.pool.head id
      ≡ some (first_with s.jobs xs id)
unfolding search_id
search_id-IsQueue s [] id q = ground (arith, q.linked)
search_id-IsQueue s (x ∷ xs) id q = rw q.linked.0 (
    search_id-Chain (suc s.pool.stats.queue_depth) s.jobs x xs s.pool.tail id q.linked.2 q.linked.1
      (omega (arith, q.depth)))

abbrev pub withdrawn : Ptr → Store → Store
withdrawn z s = mark_cancelled z (unlink z s)

-- The code can unlink `z`: it is not the first job, or the first job has no predecessor.
abbrev pub Unlinkable : Store → Ptr → Type 0
Unlinkable s z = (z ≢ s.pool.head) ⊎ ((s.jobs z).prev ≡ null)

links-withdrawn :
    (z : Ptr) (s : Store) (a : Ptr)
    → (((withdrawn z s).jobs a).next ≡ (unlink_jobs z s.jobs a).next)
      × (((withdrawn z s).jobs a).prev ≡ (unlink_jobs z s.jobs a).prev)
unfolding mark_cancelled unlink
links-withdrawn z s a = ground arith

pub state-withdrawn :
    (z : Ptr) (s : Store) (a : Ptr)
    → ((withdrawn z s).jobs a).state ≡ (if a == z then cancelled else (s.jobs a).state)
unfolding mark_cancelled unlink unlink_jobs
state-withdrawn z s a = ground arith

pub pool-withdrawn :
    (z : Ptr) (s : Store)
    → ((withdrawn z s).pool.head
        ≡ (if (s.jobs z).prev == null then (s.jobs z).next else s.pool.head))
      × ((withdrawn z s).pool.tail ≡ tail_after z s.jobs s.pool.tail)
      × ((withdrawn z s).pool.queue_size ≡ s.pool.queue_size)
      × ((withdrawn z s).pool.stats.queue_depth ≡ dec32 s.pool.stats.queue_depth)
unfolding mark_cancelled unlink
pool-withdrawn z s = ground arith

pub shutdown-withdrawn : (z : Ptr) (s : Store) → (withdrawn z s).pool.shutdown ≡ s.pool.shutdown
unfolding mark_cancelled unlink
shutdown-withdrawn z s = refl

pub work_sem-withdrawn : (z : Ptr) (s : Store) → (withdrawn z s).pool.work_sem ≡ s.pool.work_sem
unfolding mark_cancelled unlink
work_sem-withdrawn z s = refl

-- The first of several jobs is taken out, if it has no predecessor.
IsLinked-withdrawn_first :
    (s : Store) (x y : Ptr) (ys : List Ptr)
    → IsLinked s.jobs s.pool.head s.pool.tail (x ∷ y ∷ ys)
    → Distinct (x ∷ y ∷ ys)
    → (s.jobs x).prev ≡ null
    → IsLinked (withdrawn x s).jobs (withdrawn x s).pool.head (withdrawn x s).pool.tail (y ∷ ys)
IsLinked-withdrawn_first s x y ys (hx, xnz, (xy, ynz, back, c)) d top =
    let p = pool-withdrawn x s in
    let t : (withdrawn x s).pool.tail ≡ s.pool.tail = ground (arith, p) in
    (
      ground (arith, p),
      ynz,
      rw t (
          Chain-frame s.jobs (withdrawn x s).jobs y ys s.pool.tail c
            (ground (arith, links-withdrawn x s y, next-unlink_jobs x s.jobs y))
            (λ a i. (
              ground (arith, links-withdrawn x s a, next-unlink_jobs x s.jobs a),
              ground (arith, links-withdrawn x s a, prev-unlink_jobs x s.jobs a),
            ))),
    )

-- A later job is taken out.
IsLinked-withdrawn_later :
    (s : Store) (x : Ptr) (xs : List Ptr) (z : Ptr)
    → IsLinked s.jobs s.pool.head s.pool.tail (x ∷ xs)
    → Distinct (x ∷ xs)
    → has z xs ≡ true
    → IsLinked
        (withdrawn z s).jobs
        (withdrawn z s).pool.head
        (withdrawn z s).pool.tail
        (x ∷ erase z xs)
IsLinked-withdrawn_later s x xs z (hx, xnz, c) d i =
    let p = pool-withdrawn z s in
    let h = s.jobs in
    let pnz = mem-ne_null h x xs s.pool.tail (h z).prev c xnz (prev-has h x xs s.pool.tail z c i) in
    (
      ground (arith, p),
      xnz,
      rw p.1 (
          Chain-frame (unlink_jobs z h) (withdrawn z s).jobs x (erase z xs)
            (tail_after z h s.pool.tail) (Chain-unlink h x xs s.pool.tail z c d xnz i)
            (links-withdrawn z s x).0 (λ a _. links-withdrawn z s a)),
    )

IsLinked-withdrawn :
    (s : Store) (xs : List Ptr) (z : Ptr)
    → IsLinked s.jobs s.pool.head s.pool.tail xs
    → Distinct xs
    → has z xs ≡ true
    → Unlinkable s z
    → IsLinked (withdrawn z s).jobs (withdrawn z s).pool.head (withdrawn z s).pool.tail (erase z xs)
IsLinked-withdrawn s [] z l d i u = cc
IsLinked-withdrawn s (x ∷ []) z l d i u = ground (arith, pool-withdrawn z s)
IsLinked-withdrawn s (x ∷ y ∷ ys) z l d i u = elim (Bool-cases (z == x)) [
  | inl first ↦
      let same : z ≡ x = ground arith in
      let top : (s.jobs x).prev ≡ null = ground arith in
      simp first (rw same (IsLinked-withdrawn_first s x y ys l d top))
  | inr ne ↦ simp ne (IsLinked-withdrawn_later s x (y ∷ ys) z l d (ground arith))
]

module _ (s : Store) (xs : List Ptr) (q : IsQueue s xs) where
  pub withdrawn-IsQueue :
      (z : Ptr) → has z xs ≡ true → Unlinkable s z → IsQueue (withdrawn z s) (erase z xs)
  withdrawn-IsQueue z i u =
      let p = pool-withdrawn z s in
      let n = length-erase z xs i in
      record {
        linked = IsLinked-withdrawn s xs z q.linked q.distinct i u;
        distinct = Distinct-erase z xs q.distinct;
        depth = omega (arith, p.3, q.depth, q.small, q.bounded, n);
        bounded = omega (arith, p.2, q.bounded, n);
        small = rw p.2 q.small;
        waiting = λ a j. ground (
          arith,
          state-withdrawn z s a,
          not-has-erase_self z xs q.distinct,
          has-erase_of_ne a z xs,
          q.waiting a,
        );
      }

  cancel_missing :
      (pool : Ptr) (id : ℕ)
      → pool ≢ null
      → first_with s.jobs xs id ≡ null
      → cancel pool id s ≡ some (minus 1, s)
  unfolding cancel
  cancel_missing pool id pnz e =
      let there : (pool == null) ≡ false = ground arith in
      simp (there, search_id-IsQueue s xs id q, e)

  pub cancel_found :
      (pool : Ptr) (id : ℕ)
      → pool ≢ null
      → first_with s.jobs xs id ≢ null
      → cancel pool id s ≡ some (pos 0, withdrawn (first_with s.jobs xs id) s)
  unfolding cancel
  cancel_found pool id pnz nz =
      let there : (pool == null) ≡ false = ground arith in
      let found : (first_with s.jobs xs id == null) ≡ false = ground arith in
      simp (there, search_id-IsQueue s xs id q, found)

  -- On a valid queue, the first job with the id is looked up without running out of fuel. If there
  -- is none, -1 is returned and nothing changes. If there is one, and it is not the first job of
  -- the queue or has no predecessor, 0 is returned, the job is cancelled, and the queue stays valid
  -- without it.
  pub cancel_lem :
      (pool : Ptr) (id : ℕ)
      → pool ≢ null
      → (first_with s.jobs xs id ≡ null) ⊎ Unlinkable s (first_with s.jobs xs id)
      → let z = first_with s.jobs xs id in
        ((z ≡ null) × (cancel pool id s ≡ some (minus 1, s)))
        ⊎ ((z ≢ null)
            × (cancel pool id s ≡ some (pos 0, withdrawn z s))
            × (((withdrawn z s).jobs z).state ≡ cancelled)
            × IsQueue (withdrawn z s) (erase z xs))
  cancel_lem pool id pnz u =
      let z = first_with s.jobs xs id in
      elim (Bool-cases (z == null)) [
        | inl missing ↦ inl (ground arith, cancel_missing pool id pnz (ground arith))
        | inr found ↦
            let nz : z ≢ null = ground arith in
            inr (
              nz,
              cancel_found pool id pnz nz,
              ground (arith, state-withdrawn z s z),
              elim u [
                | inl e ↦ absurd (nz e)
                | inr v ↦ withdrawn-IsQueue z (has-first_with s.jobs xs id nz) v
              ],
            )
      ]
