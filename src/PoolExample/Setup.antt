-- ===== src/PoolExample/Setup.antt =====
-- The first part of main in examples/linux/worker_pool.c, up to the running pool.
use open_hsm.Base.{
  ℕ, ◌<◌, ◌≡◌, ◌≢◌, ◌⊎◌, inl, inr, refl, ap, Bool, true, false, not, Option, none, some, List, [],
  ◌∷◌, arith, ℤ, pos, minus, eqb_ℤ, Bool-cases, if◌then◌else◌,
}
use open_hsm.Worker.{Pool}
use open_hsm.Worker.Lifecycle.{Handles, pool_init, pool_start, set_up}
use open_hsm.Worker.Lifecycle.Init.{
  AllLive, NoneLive, Granted, Refused, InitResult, pool_init_lem, zero_code, zero_code-ne,
}
use open_hsm.Worker.Lifecycle.Run.{Makes, Refuses, pool_start_lem}

-- What the program has made and not destroyed: its mutex, its pool, and the workers that run.
pub record Alive : Type 0 where
  pub result_lock : Bool
  pub pool : Option (Pool × Handles)
  pub workers : ℕ

-- "test_pool"
abbrev test_pool : List ℕ
test_pool = 116 ∷ 101 ∷ 115 ∷ 116 ∷ 95 ∷ 112 ∷ 111 ∷ 111 ∷ 108 ∷ []

-- What main does with the started pool, and what it returns if it goes no further.
unfoldable pub started :
    ℤ × Option (Pool × Handles) → (create : ℕ → ℤ) → (completion : ℤ) → ℤ × Alive
started (c, p) create completion =
    if not (eqb_ℤ c (pos 0))
    then (minus 1, record { result_lock = false; pool = p; workers = 0 })
    else (let (r, k, _) = pool_start p create completion in
        if not (eqb_ℤ r (pos 0))
        then (minus 1, record { result_lock = false; pool = p; workers = k })
        else (pos 0, record { result_lock = true; pool = p; workers = k }))

-- `mutex_ret` is the code of osa_mutex_create; the rest is what the pool's functions are given.
unfoldable pub setup :
    (mutex_ret : ℤ)
    → (dup : List ℕ → Option (List ℕ)) → (lock_ret work_ret complete_ret : ℤ) → (room : Bool)
    → (create : ℕ → ℤ) → (completion : ℤ) → ℤ × Alive
unfolding started
setup mutex_ret dup lock_ret work_ret complete_ret room create completion =
    if not (eqb_ℤ mutex_ret (pos 0))
    then (minus 1, record { result_lock = false; pool = none; workers = 0 })
    else started (pool_init true (some test_pool) 2 16 dup lock_ret work_ret complete_ret room)
        create completion

abbrev pub Unmade : Option (Pool × Handles) → Type 0
Unmade none = Unit {0}
Unmade (some (p, h)) = NoneLive h

abbrev pub Made : Option (Pool × Handles) → Type 0
Made none = ⊥
Made (some (p, h)) = AllLive h × (p ≡ set_up 2 16)

-- The ways in which the program comes out of its first part, by what the platform answers.
abbrev pub SetupResult :
    (mutex_ret lock_ret work_ret complete_ret : ℤ)
    → (room : Bool) → (create : ℕ → ℤ) → ℤ × Alive
    → Type 0
SetupResult m l w c room create (code, a) =
    ((code ≡ pos 0)
      × (m ≡ pos 0)
      × Granted l w c room
      × Makes create 2 0
      × (a.result_lock ≡ true)
      × Made a.pool
      × (a.workers ≡ 2))
    ⊎ (((code ≡ minus 1)
          × ((m ≢ pos 0) ⊎ Refused l w c room)
          × (a.result_lock ≡ false)
          × Unmade a.pool
          × (a.workers ≡ 0))
        ⊎ ((code ≡ minus 1)
            × (a.workers < 2)
            × Refuses create a.workers 0
            × (a.result_lock ≡ false)
            × Made a.pool))

-- The pool, where there is one, is the new one for two workers and sixteen jobs.
abbrev pub ForTwo : ℤ × Option (Pool × Handles) → Type 0
ForTwo (c, none) = Unit {0}
ForTwo (c, some (p, h)) = p ≡ set_up 2 16

if-ForTwo :
    (b : Bool) (u v : ℤ × Option (Pool × Handles))
    → ForTwo u
    → ForTwo v
    → ForTwo (if b then u else v)
if-ForTwo true u v a b = a
if-ForTwo false u v a b = b

pub pool_init-ForTwo :
    (dup : List ℕ → Option (List ℕ)) (l w c : ℤ) (room : Bool)
    → ForTwo (pool_init true (some test_pool) 2 16 dup l w c room)
unfolding pool_init set_up
pool_init-ForTwo dup l w c room = if-ForTwo (not (eqb_ℤ l (pos 0))) _ _ refl (
    if-ForTwo (not (eqb_ℤ w (pos 0))) _ _ refl
      (if-ForTwo (not (eqb_ℤ c (pos 0))) _ _ refl (if-ForTwo (not room) _ _ refl refl)))

started_lem :
    (l w c : ℤ) (room : Bool) (o : ℤ × Option (Pool × Handles)) (create : ℕ → ℤ) (completion : ℤ)
    → InitResult true l w c room o
    → ForTwo o
    → SetupResult (pos 0) l w c room create (started o create completion)
unfolding started set_up
started_lem l w c room (code, none) create completion (e, no_pool) two = ground (arith, no_pool)
started_lem l w c room (code, some (p, h)) create completion (inl (e, given, live, _, _, _)) two =
    let workers : p.num_workers ≡ 2 = ap (λ (q : Pool). q.num_workers) two in
    elim (pool_start_lem p h create completion live.3) [
      | inl (made, runs) ↦
          rw (e, runs) (inl (refl, refl, given, (rw workers at made), refl, (live, two), workers))
      | inr (k, lt, refused, runs) ↦
          rw (e, runs) (inr (inr (refl, omega (arith, lt, workers), refused, refl, (live, two))))
    ]
started_lem l w c room (code, some (p, h)) create completion (inr (e, refused, dead)) two =
    rw e (inr (inl (refl, inr refused, refl, dead, refl)))

-- The first part of main comes out in one of three ways. Where osa_mutex_create, the pool's lock,
-- semaphores and array, and both threads are granted: with 0, the mutex, the pool and two workers alive.
-- Where one of the first five is refused: with -1 and nothing of these left. And where a thread is
-- refused: with -1, the mutex destroyed, the workers before the refused one running and the pool
-- alive, which nobody stops.
pub setup_lem :
    (mutex_ret : ℤ) (dup : List ℕ → Option (List ℕ)) (lock_ret work_ret complete_ret : ℤ)
    (room : Bool) (create : ℕ → ℤ) (completion : ℤ)
    → SetupResult mutex_ret lock_ret work_ret complete_ret room create
        (setup mutex_ret dup lock_ret work_ret complete_ret room create completion)
unfolding setup
setup_lem m dup l w c room create completion = elim (Bool-cases (not (eqb_ℤ m (pos 0)))) [
  | inl bad ↦ simp bad (inr (inl (refl, inl (zero_code-ne m bad), refl, tt, refl)))
  | inr good ↦ simp good (
      rw (zero_code m good) (
        started_lem l w c room (pool_init true (some test_pool) 2 16 dup l w c room) create
          completion (pool_init_lem true (some test_pool) 2 16 dup l w c room)
          (pool_init-ForTwo dup l w c room)))
]
