-- ===== src/Timer.antt =====
-- platform/linux/osa_timer.c: timers over POSIX timers.
--
-- A handle is `none` for NULL. The answers of calloc and of the timer calls are arguments: an errno value
-- is 0 for success.
pub mod Period
mod Tests
use open_hsm.Base.{
  ℕ, ◌*◌, ◌/◌, ◌%◌, Bool, true, false, not, ◌||◌, Option, none, some, ◌==◌, if◌then◌else◌, ℤ, pos,
  minus, einval, enomem, Ptr, null,
}
use open_hsm.Sync.{Timespec}

-- `struct osa_timer_impl`
pub record Timer : Type 0 where
  pub timer_id : Ptr
  pub callback : Ptr
  pub arg : Ptr
  pub active : Bool

-- `struct itimerspec`
pub record Itimerspec : Type 0 where
  pub it_value : Timespec
  pub it_interval : Timespec

abbrev pub no_time : Timespec
no_time = record { tv_sec = 0; tv_nsec = 0 }

-- `posix_timer_callback`: the call of a function with an argument that it makes, if it makes one.
unfoldable pub posix_timer_callback : Option Timer → Option (Ptr × Ptr)
posix_timer_callback none = none
posix_timer_callback (some t) = if t.callback == null then none else some (t.callback, t.arg)

-- The setting of a new timer.
unfoldable pub setting : (period_ms : ℕ) → (cycle : Bool) → Itimerspec
setting period_ms cycle =
    let first : Timespec = record {
      tv_sec = period_ms / 1000;
      tv_nsec = (period_ms % 1000) * 1000000;
    } in
    record { it_value = first; it_interval = if cycle then first else no_time }

-- `out` is whether the output pointer is not NULL; the timer call for a new timer answers with an errno
-- value and an id, and the one that sets it with an errno value. The last part is the timer that runs
-- after the call, with its setting.
unfoldable pub timer_create :
    (out : Bool)
    → (period_ms : ℕ) → (cycle : Bool) → (callback arg : Ptr) → (room : Bool) → (created : ℕ × Ptr)
    → (settime : Itimerspec → ℕ) → ℤ × Option (Timer × Itimerspec)
unfolding setting
timer_create out period_ms cycle callback arg room (created_errno, id) settime =
    if not out || (callback == null) || (period_ms == 0)
    then (minus einval, none)
    else if not room
    then (minus enomem, none)
    else if not (created_errno == 0)
    then (minus created_errno, none)
    else if not (settime (setting period_ms cycle) == 0)
    then (minus (settime (setting period_ms cycle)), none)
    else (
      pos 0,
      some (
        record { timer_id = id; callback = callback; arg = arg; active = true },
        setting period_ms cycle,
      ),
    )

unfoldable pub timer_stop : Option Timer → (settime : Itimerspec → ℕ) → ℤ × Option Timer
timer_stop none settime = (minus einval, none)
timer_stop (some t) settime =
    let off : Itimerspec = record { it_value = no_time; it_interval = no_time } in
    if not (settime off == 0)
    then (minus (settime off), some t)
    else (pos 0, some (record t { active = false }))

-- The handle leads nowhere after a deletion that succeeds.
unfoldable pub timer_delete : Option Timer → (errno : ℕ) → ℤ × Option Timer
timer_delete none errno = (minus einval, none)
timer_delete (some t) errno = if not (errno == 0) then (minus errno, some t) else (pos 0, none)
