-- ===== src/Worker/System/Threads.antt =====
-- Where a worker thread stands, and what it holds.
use open_hsm.Base.{ℕ, ◌<◌, ◌≡◌, refl, Ptr, arith, total, total-pos, Option, none, some}

-- In `osa_sem_wait`; behind it; in `job_func`; behind that; past the loop.
pub data Pc : Type 0 where
  waiting awake : Pc
  working ran : Ptr → Pc
  gone : Pc

abbrev pub is_awake : Pc → ℕ
is_awake awake = 1
is_awake _ = 0

-- The job that a thread holds.
abbrev pub job_of : Pc → Option Ptr
job_of (working j) = some j
job_of (ran j) = some j
job_of _ = none

is_awake_lem : (p : Pc) → 0 < is_awake p → p ≡ awake
is_awake_lem awake h = refl
is_awake_lem waiting h = absurd (omega (arith, h))
is_awake_lem (working j) h = absurd (omega (arith, h))
is_awake_lem (ran j) h = absurd (omega (arith, h))
is_awake_lem gone h = absurd (omega (arith, h))

pub awake-total :
    (n : ℕ) (pc : ℕ → Pc) → 0 < total is_awake n pc → (i : ℕ) × (i < n) × (pc i ≡ awake)
awake-total n pc p = let (i, lt, w) = total-pos is_awake n pc p in (i, lt, is_awake_lem (pc i) w)
