-- ===== src/Base/Total.antt =====
-- Threads of a family, counted by weights.
use Prim.Native.Nat.{ℕ, zero, suc, ◌+◌, ◌≤◌, ◌<◌}
use mathlib.Core.Path.{◌≡◌, refl}
use mathlib.Core.Logic.{inl, inr}
use native.Mathlib.Omega.{arith}
use open_hsm.Base.Tests.{◌==◌, Bool-cases}
use open_hsm.Base.Update.{update}

module _ {A : Type 0} (w : A → ℕ) where
  -- The weights of the first `n` threads.
  pub total : ℕ → (ℕ → A) → ℕ
  total zero pc = 0
  total (suc n) pc = w (pc n) + total n pc

  total-update_out :
      (n : ℕ) (pc : ℕ → A) (i : ℕ) (p : A) → n ≤ i → total n (update pc i p) ≡ total n pc
  unfolding total
  total-update_out zero pc i p h = refl
  total-update_out (suc n) pc i p h = ground (arith, total-update_out n pc i p (omega arith))

  -- A thread that moves takes its own weight along.
  pub total-update :
      (n : ℕ) (pc : ℕ → A) (i : ℕ) (p : A)
      → i < n
      → total n (update pc i p) + w (pc i) ≡ total n pc + w p
  unfolding total
  total-update zero pc i p h = absurd (omega arith)
  total-update (suc n) pc i p h = elim (Bool-cases (n == i)) [
    | inl here ↦ ground (arith, total-update_out n pc i p)
    | inr on ↦ ground (arith, total-update n pc i p)
  ]

  -- Where there is weight, a thread carries some.
  pub total-pos : (n : ℕ) (pc : ℕ → A) → 0 < total n pc → (i : ℕ) × (i < n) × (0 < w (pc i))
  unfolding total
  total-pos zero pc p = absurd (omega arith)
  total-pos (suc n) pc p = elim (Bool-cases (w (pc n) == 0)) [
    | inr e ↦ (n, omega arith, ground arith)
    | inl e ↦ let (i, lt, at) = total-pos n pc (ground arith) in (i, omega arith, at)
  ]

  -- And the other way round.
  pub le-total : (n : ℕ) (pc : ℕ → A) (i : ℕ) → i < n → w (pc i) ≤ total n pc
  unfolding total
  le-total zero pc i h = absurd (omega arith)
  le-total (suc n) pc i h = elim (Bool-cases (n == i)) [
    | inl here ↦ ground arith
    | inr on ↦ ground (arith, le-total n pc i)
  ]

  pub total-zero : (n : ℕ) (pc : ℕ → A) → ((i : ℕ) → w (pc i) ≡ 0) → total n pc ≡ 0
  unfolding total
  total-zero zero pc h = refl
  total-zero (suc n) pc h = omega (arith, h n, total-zero n pc h)
