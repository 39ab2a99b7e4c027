-- ===== src/Timer/Period.antt =====
-- A timer runs with the period that it was made with.
use open_hsm.Base.{
  ℕ, zero, suc, ◌*◌, ◌<◌, ◌≡◌, ◌≢◌, ◌⊎◌, inl, inr, refl, Bool, true, false, not, ◌||◌, Option, none,
  some, ◌==◌, if◌then◌else◌, ℤ, pos, minus, is_neg, Ptr, null, arith, Bool-cases,
}
use open_hsm.Sync.Deadline.{nanoseconds}
use open_hsm.Timer.{Timer, Itimerspec, posix_timer_callback, setting, timer_create}

-- What a call is given: its arguments, and the answers of calloc and of the timer calls.
pub record Given : Type 0 where
  pub out : Bool
  pub period_ms : ℕ
  pub cycle : Bool
  pub callback : Ptr
  pub arg : Ptr
  pub room : Bool
  pub created_errno : ℕ
  pub settime : Itimerspec → ℕ

-- The arguments are not what the function asks for: no place for the handle, no callback, no period.
abbrev pub Bad : Given → Type 0
Bad g = (g.out ≡ false) ⊎ ((g.callback ≡ null) ⊎ (g.period_ms ≡ 0))

-- The platform refuses the memory, the timer, or a setting.
abbrev pub Refused : Given → Type 0
Refused g = (g.room ≡ false) ⊎ ((g.created_errno ≢ 0) ⊎ ((its : Itimerspec) × (g.settime its ≢ 0)))

-- No timer, with a negative code, because of one of these; or 0 and a timer with the period and the
-- action that were asked for, set by a call that succeeded.
abbrev pub Created : Given → (id : Ptr) → ℤ × Option (Timer × Itimerspec) → Type 0
Created g id (c, none) = (is_neg c ≡ true) × (Bad g ⊎ Refused g)
Created g id (c, some (t, its)) =
    (c ≡ pos 0)
    × (g.out ≡ true)
    × (g.room ≡ true)
    × (g.created_errno ≡ 0)
    × (g.settime its ≡ 0)
    × (0 < g.period_ms)
    × (nanoseconds its.it_value ≡ g.period_ms * 1000000)
    × (its.it_value.tv_nsec < 1000000000)
    × (nanoseconds its.it_interval ≡ (if g.cycle then g.period_ms * 1000000 else 0))
    × (t.timer_id ≡ id)
    × (t.active ≡ true)
    × (posix_timer_callback (some t) ≡ some (g.callback, g.arg))

setting_lem :
    (period_ms : ℕ) (cycle : Bool)
    → (nanoseconds (setting period_ms cycle).it_value ≡ period_ms * 1000000)
      × ((setting period_ms cycle).it_value.tv_nsec < 1000000000)
      × (nanoseconds (setting period_ms cycle).it_interval
          ≡ (if cycle then period_ms * 1000000 else 0))
unfolding setting
setting_lem period_ms true = ground arith
setting_lem period_ms false = ground arith

posix_timer_callback-there :
    (t : Timer) → t.callback ≢ null → posix_timer_callback (some t) ≡ some (t.callback, t.arg)
unfolding posix_timer_callback
posix_timer_callback-there t nz = ground arith

minus-is_neg : (n : ℕ) → not (n == 0) ≡ true → is_neg (minus n) ≡ true
minus-is_neg zero e = ground arith
minus-is_neg (suc n) e = refl

-- osa_timer_create makes no timer, and returns a negative code, only where it is given no place for the
-- handle, no callback or a period of 0, or where the platform refuses the memory, the timer or its
-- setting. Else it returns 0 with the timer that timer_create made, marked active, which a successful call has set
-- to fire first after exactly
-- `period_ms` milliseconds, which are not 0, again each such time if it is cyclic and never if not, and
-- whose expiry calls the callback with its argument.
pub timer_create-Created :
    (g : Given) (id : Ptr)
    → Created g id (
        timer_create g.out g.period_ms g.cycle g.callback g.arg g.room
          (g.created_errno, id)
          g.settime)
unfolding timer_create
timer_create-Created g id =
    elim (Bool-cases (not g.out || (g.callback == null) || (g.period_ms == 0))) [
      | inl e ↦ simp e (refl, inl (ground (arith, e)))
      | inr fits ↦ elim (Bool-cases (not g.room)) [
        | inl e ↦ simp (fits, e) (refl, inr (inl (ground (arith, e))))
        | inr r ↦ elim (Bool-cases (not (g.created_errno == 0))) [
          | inl e ↦
              simp (fits, r, e)
                (minus-is_neg g.created_errno e, inr (inr (inl (ground (arith, e)))))
          | inr c ↦ elim (Bool-cases (not (g.settime (setting g.period_ms g.cycle) == 0))) [
            | inl e ↦
                simp (fits, r, c, e)
                  (
                    minus-is_neg (g.settime (setting g.period_ms g.cycle)) e,
                    inr (inr (inr (setting g.period_ms g.cycle, ground (arith, e)))),
                  )
            | inr s ↦
                let (value, small, interval) = setting_lem g.period_ms g.cycle in
                simp (fits, r, c, s)
                  (
                    refl,
                    ground (arith, fits),
                    ground (arith, r),
                    ground (arith, c),
                    ground (arith, s),
                    ground (arith, fits),
                    value,
                    small,
                    interval,
                    refl,
                    refl,
                    posix_timer_callback-there
                        (record {
                          timer_id = id;
                          callback = g.callback;
                          arg = g.arg;
                          active = true;
                        })
                        (ground (arith, fits)),
                  )
          ]
        ]
      ]
    ]
