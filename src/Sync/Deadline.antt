-- ===== src/Sync/Deadline.antt =====
-- The time at which a timed wait of `osa_sem_wait` ends, and what a wait and a post do to the value.
use open_hsm.Base.{
  ℕ, zero, suc, ◌+◌, ◌*◌, ◌≡◌, ◌<◌, refl, true, false, Option, none, some, arith, ◌==◌, ℤ, pos,
  negsuc, is_neg, ◌⊎◌, inl, inr, Bool-cases,
}
use open_hsm.Sync.{Sem, Timespec, abs_timeout, Posix, taken, sem_wait}

abbrev pub nanoseconds : Timespec → ℕ
nanoseconds t = t.tv_sec * 1000000000 + t.tv_nsec

-- From a clock whose nanoseconds are below a second, the end of a timed wait is exactly the given
-- number of milliseconds later, and its nanoseconds are below a second too, as sem_timedwait asks.
pub abs_timeout-nanoseconds :
    (now : Timespec) (timeout_ms : ℕ)
    → now.tv_nsec < 1000000000
    → (nanoseconds (abs_timeout now timeout_ms) ≡ nanoseconds now + timeout_ms * 1000000)
      × ((abs_timeout now timeout_ms).tv_nsec < 1000000000)
unfolding abs_timeout
abs_timeout-nanoseconds now timeout_ms small = ground arith

-- What a wait returns, and the value that it leaves.
abbrev pub WaitResult : Sem → ℤ × Option Sem → Type 0
WaitResult s (c, none) = ⊥
WaitResult s (c, some s') =
    ((c ≡ pos 0) × (s'.count + 1 ≡ s.count) × (s'.max_count ≡ s.max_count))
    ⊎ ((is_neg c ≡ true) × (s' ≡ s))

taken-WaitResult : (s : Sem) (errno : ℕ) → (errno ≡ 0 → 0 < s.count) → WaitResult s (taken s errno)
taken-WaitResult s zero there = inl (refl, omega (arith, there refl), refl)
taken-WaitResult s (suc n) there =
    let failed : (suc n == 0) ≡ false = ground arith in simp failed (inr (refl, refl))

-- If the calls of the system succeed only where the value is above 0, a wait with any timeout either
-- returns 0 and has lowered the value by one, or returns a negative code and has changed nothing.
pub sem_wait-WaitResult :
    (s : Sem) (timeout_ms : ℤ) (os : Posix)
    → (os.wait_errno ≡ 0 → 0 < s.count)
    → (os.trywait_errno ≡ 0 → 0 < s.count)
    → ((t : Timespec) → os.timedwait_errno t ≡ 0 → 0 < s.count)
    → WaitResult s (sem_wait (some s) timeout_ms os)
unfolding sem_wait
sem_wait-WaitResult s (negsuc n) os w tr ti = taken-WaitResult s os.wait_errno w
sem_wait-WaitResult s (pos zero) os w tr ti = taken-WaitResult s os.trywait_errno tr
sem_wait-WaitResult s (pos (suc n)) os w tr ti = elim (Bool-cases (os.clock_errno == 0)) [
  | inl good ↦ simp good (
      taken-WaitResult s (os.timedwait_errno (abs_timeout os.clock (suc n)))
        (ti (abs_timeout os.clock (suc n))))
  | inr bad ↦ simp bad (inr (ground arith, refl))
]
