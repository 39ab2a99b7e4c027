-- ===== src/Queue/System/Invariant.antt =====
-- What holds of threads that share a queue, and what a signal leaves of it.
use open_hsm.Base.{
  ℕ, ◌+◌, ◌<◌, ◌≤◌, ◌≡◌, ◌⊎◌, inl, inr, refl, ◌++◌, length, arith, update, total, total-update,
  Bool-cases, ◌==◌,
}
use open_hsm.Queue.{blocked}
use open_hsm.Queue.Fifo.{contents}
use open_hsm.Queue.Trace.{IsOpen}
use open_hsm.Queue.System.{
  sent, received, Pc, outside, send_asleep, send_woken, receive_asleep, receive_woken,
  sleeping_senders, woken_senders, sleeping_receivers, woken_receivers, roused, System, Signalled,
  nobody, one,
}

-- A thread in a wait is in a call that has not come back.
abbrev pub Waits : ℕ → Pc → Type 0
Waits size outside = Unit
Waits size (send_asleep c) = (sent c ≡ blocked) × (length c.msg ≡ size)
Waits size (send_woken c) = (sent c ≡ blocked) × (length c.msg ≡ size)
Waits size (receive_asleep c) = received c ≡ blocked
Waits size (receive_woken c) = received c ≡ blocked

-- Unless a signal was lost: while receivers sleep, one is awake for every message, and while senders
-- sleep, one for every free slot.
pub record Inv (size cap n : ℕ) (s : System) : Type 0 where
  pub is_open : IsOpen size cap s.queue
  pub fifo : s.accepted ≡ s.delivered ++ contents s.queue
  pub waits : (i : ℕ) → Waits size (s.pc i)
  pub receivers :
      (0 < s.lost)
      ⊎ ((total sleeping_receivers n s.pc ≡ 0) ⊎ (s.queue.count ≤ total woken_receivers n s.pc))
  pub senders :
      (0 < s.lost)
      ⊎ ((total sleeping_senders n s.pc ≡ 0) ⊎ (cap ≤ s.queue.count + total woken_senders n s.pc))

pub update-Waits :
    (size : ℕ) (pc : ℕ → Pc) (i : ℕ) (p : Pc)
    → ((j : ℕ) → Waits size (pc j))
    → Waits size p
    → (j : ℕ) → Waits size (update pc i p j)
update-Waits size pc i p h w j = elim (Bool-cases (j == i)) [
  | inl here ↦ rw here w
  | inr on ↦ rw on (h j)
]

pub roused-Waits : (size : ℕ) (p : Pc) → Waits size p → Waits size (roused p)
roused-Waits size outside w = w
roused-Waits size (send_asleep c) w = w
roused-Waits size (send_woken c) w = w
roused-Waits size (receive_asleep c) w = w
roused-Waits size (receive_woken c) w = w

-- Whoever is woken goes from one count to the other, and whoever is not keeps his place.
pub roused-weights :
    (p : Pc)
    → (sleeping_receivers (roused p) ≡ 0)
      × (sleeping_senders (roused p) ≡ 0)
      × (woken_receivers (roused p) ≡ woken_receivers p + sleeping_receivers p)
      × (woken_senders (roused p) ≡ woken_senders p + sleeping_senders p)
roused-weights outside = (refl, refl, refl, refl)
roused-weights (send_asleep c) = (refl, refl, refl, refl)
roused-weights (send_woken c) = (refl, refl, refl, refl)
roused-weights (receive_asleep c) = (refl, refl, refl, refl)
roused-weights (receive_woken c) = (refl, refl, refl, refl)

pub exclusive-weights :
    (p : Pc)
    → (0 < sleeping_receivers p → (sleeping_receivers p ≡ 1) × (sleeping_senders p ≡ 0))
      × (0 < sleeping_senders p → (sleeping_senders p ≡ 1) × (sleeping_receivers p ≡ 0))
exclusive-weights outside = (λ h. absurd (omega (arith, h)), λ h. absurd (omega (arith, h)))
exclusive-weights (send_asleep c) = (λ h. absurd (omega (arith, h)), λ h. (refl, refl))
exclusive-weights (send_woken c) = (λ h. absurd (omega (arith, h)), λ h. absurd (omega (arith, h)))
exclusive-weights (receive_asleep c) = (λ h. (refl, refl), λ h. absurd (omega (arith, h)))
exclusive-weights (receive_woken c) =
    (λ h. absurd (omega (arith, h)), λ h. absurd (omega (arith, h)))

module _ (n : ℕ) (pc : ℕ → Pc) (i : ℕ) (lt : i < n) where
  -- All four counts after thread `i` has gone to `p`.
  pub total-moves :
      (p : Pc)
      → (total sleeping_receivers n (update pc i p) + sleeping_receivers (pc i)
          ≡ total sleeping_receivers n pc + sleeping_receivers p)
        × (total woken_receivers n (update pc i p) + woken_receivers (pc i)
            ≡ total woken_receivers n pc + woken_receivers p)
        × (total sleeping_senders n (update pc i p) + sleeping_senders (pc i)
            ≡ total sleeping_senders n pc + sleeping_senders p)
        × (total woken_senders n (update pc i p) + woken_senders (pc i)
            ≡ total woken_senders n pc + woken_senders p)
  total-moves p = (
    total-update sleeping_receivers n pc i p lt,
    total-update woken_receivers n pc i p lt,
    total-update sleeping_senders n pc i p lt,
    total-update woken_senders n pc i p lt,
  )

pub Signalled-Waits :
    (size : ℕ) {n : ℕ} {pc pc' : ℕ → Pc} {sleeping : Pc → ℕ}
    → Signalled sleeping n pc pc'
    → ((j : ℕ) → Waits size (pc j))
    → (j : ℕ) → Waits size (pc' j)
Signalled-Waits size (nobody e) h = h
Signalled-Waits size {pc = pc} (one k lt w) h =
    update-Waits size pc k (roused (pc k)) h (roused-Waits size (pc k) (h k))

-- A signal to the receivers leaves none asleep, or wakes one more; the senders' counts stay.
pub Signalled-receivers :
    {n : ℕ} {pc pc' : ℕ → Pc}
    → Signalled sleeping_receivers n pc pc'
    → ((total sleeping_receivers n pc' ≡ 0)
        ⊎ ((total woken_receivers n pc' ≡ total woken_receivers n pc + 1)
            × (total sleeping_receivers n pc' + 1 ≡ total sleeping_receivers n pc)))
      × (total sleeping_senders n pc' ≡ total sleeping_senders n pc)
      × (total woken_senders n pc' ≡ total woken_senders n pc)
Signalled-receivers (nobody e) = (inl e, refl, refl)
Signalled-receivers {n} {pc} (one k lt w) =
    let (a, b) = (exclusive-weights (pc k)).0 w in
    let (r0, s0, r1, s1) = roused-weights (pc k) in
    let (e, f, g, h) = total-moves n pc k lt (roused (pc k)) in
    (inr (omega arith, omega arith), omega arith, omega arith)

pub Signalled-senders :
    {n : ℕ} {pc pc' : ℕ → Pc}
    → Signalled sleeping_senders n pc pc'
    → ((total sleeping_senders n pc' ≡ 0)
        ⊎ ((total woken_senders n pc' ≡ total woken_senders n pc + 1)
            × (total sleeping_senders n pc' + 1 ≡ total sleeping_senders n pc)))
      × (total sleeping_receivers n pc' ≡ total sleeping_receivers n pc)
      × (total woken_receivers n pc' ≡ total woken_receivers n pc)
Signalled-senders (nobody e) = (inl e, refl, refl)
Signalled-senders {n} {pc} (one k lt w) =
    let (a, b) = (exclusive-weights (pc k)).1 w in
    let (r0, s0, r1, s1) = roused-weights (pc k) in
    let (e, f, g, h) = total-moves n pc k lt (roused (pc k)) in
    (inr (omega arith, omega arith), omega arith, omega arith)
