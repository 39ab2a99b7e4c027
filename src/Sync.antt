-- ===== src/Sync.antt =====
-- platform/linux/osa_sync.c: mutexes and semaphores over pthread and POSIX calls.
--
-- A handle is `none` for NULL. The answers of calloc, of the clock and of the wrapped calls are
-- arguments: an errno value is 0 for success.
pub mod Deadline
mod Tests
use open_hsm.Base.{
  ℕ, zero, suc, ◌+◌, ◌-◌, ◌*◌, ◌/◌, ◌%◌, ◌^◌, Bool, true, false, Option, none, some, leb, ◌==◌,
  if◌then◌else◌, ℤ, pos, negsuc, minus, einval, enomem,
}

-- `struct osa_mutex_internal`, as whether it is held.
pub record Mutex : Type 0 where
  pub held : Bool

-- `struct osa_sem_internal`, with the value of the POSIX semaphore.
pub record Sem : Type 0 where
  pub count : ℕ
  pub max_count : ℤ

-- `out` is whether the output pointer is not NULL; `room` is whether calloc succeeds.
unfoldable pub mutex_create : (out room : Bool) → (errno : ℕ) → ℤ × Option Mutex
mutex_create false room errno = (minus einval, none)
mutex_create true false errno = (minus enomem, none)
mutex_create true true errno =
    if errno == 0 then (pos 0, some (record { held = false })) else (minus errno, none)

unfoldable pub mutex_destroy : Option Mutex → Option Mutex
mutex_destroy m = none

-- `osa_mutex_lock`, from the moment at which pthread_mutex_lock returns.
unfoldable pub mutex_lock : Option Mutex → Option Mutex
mutex_lock none = none
mutex_lock (some m) = some (record m { held = true })

unfoldable pub mutex_unlock : Option Mutex → Option Mutex
mutex_unlock none = none
mutex_unlock (some m) = some (record m { held = false })

unfoldable pub mutex_trylock : Option Mutex → (errno : ℕ) → ℤ × Option Mutex
mutex_trylock none errno = (minus einval, none)
mutex_trylock (some m) errno =
    if errno == 0 then (pos 0, some (record m { held = true })) else (minus 1, some m)

-- The conversion of an `int` to the `unsigned` that sem_init takes.
abbrev pub unsigned : ℤ → ℕ
unsigned (pos n) = n
unsigned (negsuc n) = 2 ^ 32 - 1 - n

unfoldable pub sem_create :
    (out room : Bool) → (initial_count max_count : ℤ) → (errno : ℕ) → ℤ × Option Sem
sem_create false room initial_count max_count errno = (minus einval, none)
sem_create true false initial_count max_count errno = (minus enomem, none)
sem_create true true initial_count max_count errno =
    if errno == 0
    then (pos 0, some (record { count = unsigned initial_count; max_count = max_count }))
    else (minus errno, none)

unfoldable pub sem_destroy : Option Sem → Option Sem
sem_destroy s = none

-- `struct timespec`
pub record Timespec : Type 0 where
  pub tv_sec : ℕ
  pub tv_nsec : ℕ

-- `ts` and a time in milliseconds make the absolute time at which a timed wait ends.
unfoldable pub abs_timeout : Timespec → ℕ → Timespec
abs_timeout ts timeout_ms =
    let sec = ts.tv_sec + timeout_ms / 1000 in
    let nsec = ts.tv_nsec + (timeout_ms % 1000) * 1000000 in
    if leb 1000000000 nsec
    then record { tv_sec = sec + 1; tv_nsec = nsec - 1000000000 }
    else record { tv_sec = sec; tv_nsec = nsec }

-- The three calls that a wait may make, each with its errno value.
pub record Posix : Type 0 where
  pub wait_errno : ℕ
  pub trywait_errno : ℕ
  pub clock_errno : ℕ
  pub clock : Timespec
  pub timedwait_errno : Timespec → ℕ

-- A call that succeeds has taken one from the value of the semaphore.
abbrev pub taken : Sem → (errno : ℕ) → ℤ × Option Sem
taken s errno =
    if errno == 0 then (pos 0, some (record s { count = s.count - 1 })) else (minus errno, some s)

unfoldable pub sem_wait : Option Sem → ℤ → Posix → ℤ × Option Sem
unfolding abs_timeout
sem_wait none timeout_ms os = (minus einval, none)
sem_wait (some s) (negsuc n) os = taken s os.wait_errno
sem_wait (some s) (pos zero) os = taken s os.trywait_errno
sem_wait (some s) (pos (suc n)) os =
    if os.clock_errno == 0
    then taken s (os.timedwait_errno (abs_timeout os.clock (suc n)))
    else (minus os.clock_errno, some s)

unfoldable pub sem_post : Option Sem → Option Sem
sem_post none = none
sem_post (some s) = some (record s { count = s.count + 1 })

unfoldable pub sem_get_count : Option Sem → (errno : ℕ) → ℤ
sem_get_count none errno = minus einval
sem_get_count (some s) errno = if errno == 0 then pos s.count else minus errno
