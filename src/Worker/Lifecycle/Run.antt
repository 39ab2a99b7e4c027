-- ===== src/Worker/Lifecycle/Run.antt =====
-- The threads of a pool: how many are started.
use open_hsm.Base.{
  ℕ, zero, suc, ◌+◌, ◌<◌, ◌≡◌, ◌⊎◌, inl, inr, refl, true, false, some, arith, ℤ, pos, minus, eqb_ℤ,
  Bool-cases,
}
use open_hsm.Worker.{Pool}
use open_hsm.Worker.Lifecycle.{Handles, create_workers, pool_start}

-- The platform makes the `n` threads from number `i` on.
abbrev pub Makes : (create : ℕ → ℤ) → (n i : ℕ) → Type 0
Makes create zero i = Unit
Makes create (suc n) i = (eqb_ℤ (create i) (pos 0) ≡ true) × Makes create n (suc i)

-- It makes the first `k` of them, and refuses the next.
abbrev pub Refuses : (create : ℕ → ℤ) → (k i : ℕ) → Type 0
Refuses create k i = Makes create k i × (eqb_ℤ (create (i + k)) (pos 0) ≡ false)

create_workers_lem :
    (create : ℕ → ℤ) (n i : ℕ)
    → (Makes create n i × (create_workers create n i ≡ (pos 0, n)))
      ⊎ ((k : ℕ) × (k < n) × Refuses create k i × (create_workers create n i ≡ (minus 1, k)))
unfolding create_workers
create_workers_lem create zero i = inl (tt, refl)
create_workers_lem create (suc n) i = elim (Bool-cases (eqb_ℤ (create i) (pos 0))) [
  | inr bad ↦
      let here : i + 0 ≡ i = omega arith in
      inr (0, omega arith, (tt, rw here bad), ground (arith, bad))
  | inl good ↦ elim (create_workers_lem create n (suc i)) [
    | inl (all, e) ↦ inl ((good, all), ground (arith, good, e))
    | inr (k, lt, (made, bad), e) ↦
        let there : i + suc k ≡ suc i + k = omega arith in
        inr (suc k, omega arith, ((good, made), rw there bad), ground (arith, good, e))
  ]
]

-- Starting a pool that has its worker array, where the platform makes a thread for each of its workers,
-- starts them all and returns 0, whether or not the completion thread starts. Where the platform
-- refuses one, it returns -1 and leaves the workers before the first refused one running.
pub pool_start_lem :
    (p : Pool) (h : Handles) (create : ℕ → ℤ) (completion : ℤ)
    → h.workers ≡ true
    → (Makes create p.num_workers 0
        × (pool_start (some (p, h)) create completion
            ≡ (pos 0, p.num_workers, eqb_ℤ completion (pos 0))))
      ⊎ ((k : ℕ) × (k < p.num_workers)
          × Refuses create k 0
          × (pool_start (some (p, h)) create completion ≡ (minus 1, k, false)))
unfolding pool_start
pool_start_lem p h create completion made = elim (create_workers_lem create p.num_workers 0) [
  | inl (all, e) ↦ inl (all, simp (made, e))
  | inr (k, lt, refused, e) ↦ inr (k, lt, refused, simp (made, e))
]
