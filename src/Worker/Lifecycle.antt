-- ===== src/Worker/Lifecycle.antt =====
-- core/osa_worker.c: osa_worker_pool_init, osa_worker_pool_start, osa_worker_pool_stop.
--
-- What the platform's calls return is given as arguments. `Handles` says which of the objects that
-- the pool owns are alive: made, and not destroyed or freed since.
pub mod Init
pub mod Run
use open_hsm.Base.{
  ℕ, zero, suc, ◌+◌, ◌-◌, ◌<◌, ◌≤◌, ◌≡◌, ◌⊎◌, inl, inr, refl, Bool, true, false, not, Option, none,
  some, List, [], ◌∷◌, arith, ltb, ◌==◌, if◌then◌else◌, ℤ, pos, minus, eqb_ℤ, null, Bool-cases,
}
use open_hsm.Worker.{Pool, Store}
use open_hsm.Worker.Thread.{leave, take_job}

abbrev default_workers : ℕ
default_workers = 4

abbrev pub max_workers : ℕ
max_workers = 16

abbrev default_queue_size : ℕ
default_queue_size = 64

pub record Handles : Type 0 where
  pub name : Option (List ℕ)
  pub lock : Bool
  pub work_sem : Bool
  pub complete_sem : Bool
  pub workers : Bool

-- The pool that `osa_worker_pool_init` sets up.
unfoldable pub set_up : (num_workers queue_size : ℕ) → Pool
set_up num_workers queue_size =
    let n = (if num_workers == 0 then default_workers else num_workers) in
    record {
      head = null;
      tail = null;
      num_workers = if ltb max_workers n then max_workers else n;
      queue_size = if queue_size == 0 then default_queue_size else queue_size;
      shutdown = false;
      stats = record {
        total_submitted = 0;
        total_completed = 0;
        total_cancelled = 0;
        total_errors = 0;
        queue_depth = 0;
        active_workers = 0;
      };
      work_sem = 0;
      complete_sem = 0;
    }

abbrev wp : List ℕ
wp = 119 ∷ 112 ∷ []

-- `pool` is whether the pointer is not NULL, `dup` is strdup, the three codes are those of the lock and
-- the two semaphores, and `room` is whether malloc succeeds.
unfoldable pub pool_init :
    (pool : Bool)
    → Option (List ℕ)
    → (num_workers queue_size : ℕ) → (dup : List ℕ → Option (List ℕ))
    → (lock_ret work_ret complete_ret : ℤ) → (room : Bool) → ℤ × Option (Pool × Handles)
unfolding set_up
pool_init false name num_workers queue_size dup lock_ret work_ret complete_ret room =
    (minus 1, none)
pool_init true name num_workers queue_size dup lock_ret work_ret complete_ret room =
    let p = set_up num_workers queue_size in
    let text = dup (elim name [ none ↦ wp | some n ↦ n ]) in
    let nothing : Handles = record {
      name = text;
      lock = false;
      work_sem = false;
      complete_sem = false;
      workers = false;
    } in
    let locked = (record nothing { lock = true }) in
    let work_ready = (record locked { work_sem = true }) in
    let both_ready = (record work_ready { complete_sem = true }) in
    if not (eqb_ℤ lock_ret (pos 0))
    then (minus 1, some (p, nothing))
    else if not (eqb_ℤ work_ret (pos 0))
    then (minus 1, some (p, record locked { lock = false }))
    else if not (eqb_ℤ complete_ret (pos 0))
    then (minus 1, some (p, record work_ready { work_sem = false; lock = false }))
    else if not room
    then (
      minus 1,
      some (p, record both_ready { complete_sem = false; work_sem = false; lock = false }),
    )
    else (pos 0, some (p, record both_ready { workers = true }))

-- The loop of `osa_worker_pool_start` over `n` workers from number `i` on: its code, and how many
-- threads it has started. `create` is what osa_thread_create returns for a worker.
unfoldable pub create_workers : (create : ℕ → ℤ) → (n i : ℕ) → ℤ × ℕ
create_workers create zero i = (pos 0, 0)
create_workers create (suc n) i =
    let (c, k) = create_workers create n (suc i) in
    if not (eqb_ℤ (create i) (pos 0)) then (minus 1, 0) else (c, suc k)

-- The last two parts are the number of workers that run, and whether the completion thread does.
unfoldable pub pool_start :
    Option (Pool × Handles) → (create : ℕ → ℤ) → (completion : ℤ) → ℤ × ℕ × Bool
unfolding create_workers
pool_start none create completion = (minus 1, 0, false)
pool_start (some (p, h)) create completion =
    if not h.workers
    then (minus 1, 0, false)
    else (let (c, k) = create_workers create p.num_workers 0 in
        if eqb_ℤ c (pos 0) then (pos 0, k, eqb_ℤ completion (pos 0)) else (minus 1, k, false))

-- The pool after the shutdown flag and the posts, at which the threads are joined.
unfoldable pub shut_down : Pool → Pool
shut_down p = record p { shutdown = true; work_sem = p.work_sem + p.num_workers }

-- `osa_worker_pool_stop`, once the threads are joined.
unfoldable pub pool_stop : Option (Pool × Handles) → ℤ × Option (Pool × Handles)
unfolding shut_down
pool_stop none = (minus 1, none)
pool_stop (some (p, h)) = (
  pos 0,
  some (
    shut_down p,
    record { name = none; lock = false; work_sem = false; complete_sem = false; workers = false },
  ),
)
