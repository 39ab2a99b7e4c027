-- ===== src/Worker/Lifecycle/Init.antt =====
-- What osa_worker_pool_init leaves alive.
use open_hsm.Base.{
  ℕ, ◌<◌, ◌≤◌, ◌≡◌, ◌≢◌, ◌⊎◌, inl, inr, refl, Bool, true, false, not, Option, none, some, List,
  arith, ℤ, pos, negsuc, ap, minus, eqb_ℤ, Bool-cases,
}
use open_hsm.Worker.{Pool}
use open_hsm.Worker.Lifecycle.{Handles, max_workers, set_up, pool_init}

abbrev pub AllLive : Handles → Type 0
AllLive h = (h.lock ≡ true) × (h.work_sem ≡ true) × (h.complete_sem ≡ true) × (h.workers ≡ true)

abbrev pub NoneLive : Handles → Type 0
NoneLive h =
    (h.lock ≡ false) × (h.work_sem ≡ false) × (h.complete_sem ≡ false) × (h.workers ≡ false)

-- The platform gives everything, and something is refused.
abbrev pub Granted : (lock_ret work_ret complete_ret : ℤ) → (room : Bool) → Type 0
Granted l w c room = (l ≡ pos 0) × (w ≡ pos 0) × (c ≡ pos 0) × (room ≡ true)

abbrev pub Refused : (lock_ret work_ret complete_ret : ℤ) → (room : Bool) → Type 0
Refused l w c room = (l ≢ pos 0) ⊎ ((w ≢ pos 0) ⊎ ((c ≢ pos 0) ⊎ (room ≡ false)))

abbrev pub InitResult :
    (pool : Bool)
    → (lock_ret work_ret complete_ret : ℤ) → (room : Bool) → ℤ × Option (Pool × Handles)
    → Type 0
InitResult pool l w c room (code, none) = (code ≡ minus 1) × (pool ≡ false)
InitResult pool l w c room (code, some (p, h)) =
    ((code ≡ pos 0)
      × Granted l w c room
      × AllLive h
      × (0 < p.num_workers)
      × (p.num_workers ≤ max_workers)
      × (0 < p.queue_size))
    ⊎ ((code ≡ minus 1) × Refused l w c room × NoneLive h)

bounds-set_up :
    (n q : ℕ)
    → (0 < (set_up n q).num_workers)
      × ((set_up n q).num_workers ≤ max_workers)
      × (0 < (set_up n q).queue_size)
unfolding set_up
bounds-set_up n q = ground arith

pub zero_code : (c : ℤ) → not (eqb_ℤ c (pos 0)) ≡ false → c ≡ pos 0
zero_code (pos n) e = ap pos (ground (arith, e))
zero_code (negsuc n) e = ground (arith, e)

pub zero_code-ne : (c : ℤ) → not (eqb_ℤ c (pos 0)) ≡ true → c ≢ pos 0
zero_code-ne (pos n) e = ground (arith, e)
zero_code-ne (negsuc n) e = cc

-- `osa_worker_pool_init` makes no pool, and returns -1, only at a NULL pointer. Else it returns 0 where
-- the lock, both semaphores and the worker array are granted, with all of these alive, between one and
-- 16 workers and room for at least one job; and where one of them is refused it returns -1, and has
-- destroyed all of these that it had made.
pub pool_init_lem :
    (pool : Bool) (name : Option (List ℕ)) (n q : ℕ) (dup : List ℕ → Option (List ℕ))
    (lock_ret work_ret complete_ret : ℤ) (room : Bool)
    → InitResult pool lock_ret work_ret complete_ret room
        (pool_init pool name n q dup lock_ret work_ret complete_ret room)
unfolding pool_init
pool_init_lem false name n q dup l w c room = (refl, refl)
pool_init_lem true name n q dup l w c room = elim (Bool-cases (not (eqb_ℤ l (pos 0)))) [
  | inl e ↦ simp e (inr (refl, inl (zero_code-ne l e), (refl, refl, refl, refl)))
  | inr le ↦ elim (Bool-cases (not (eqb_ℤ w (pos 0)))) [
    | inl e ↦ simp (le, e) (inr (refl, inr (inl (zero_code-ne w e)), (refl, refl, refl, refl)))
    | inr we ↦ elim (Bool-cases (not (eqb_ℤ c (pos 0)))) [
      | inl e ↦
          simp (le, we, e)
            (inr (refl, inr (inr (inl (zero_code-ne c e))), (refl, refl, refl, refl)))
      | inr ce ↦ elim (Bool-cases (not room)) [
        | inl e ↦
            simp (le, we, ce, e)
              (inr (refl, inr (inr (inr (ground (arith, e)))), (refl, refl, refl, refl)))
        | inr re ↦
            simp (le, we, ce, re)
              (inl (
                refl,
                (zero_code l le, zero_code w we, zero_code c ce, ground (arith, re)),
                (refl, refl, refl, refl),
                (bounds-set_up n q).0,
                (bounds-set_up n q).1,
                (bounds-set_up n q).2,
              ))
      ]
    ]
  ]
]
