-- ===== src/Sync/Tests.antt =====
-- A semaphore with the value 2, and the theorems at it.
use open_hsm.Base.{◌+◌, ◌*◌, ◌≡◌, ◌<◌, arith, pos, etimedout}
use open_hsm.Sync.{Sem, Timespec, Posix, abs_timeout}
use open_hsm.Sync.Deadline.{nanoseconds, abs_timeout-nanoseconds}

abbrev late : Timespec
late = record { tv_sec = 5; tv_nsec = 999000000 }

abs_timeout-nanoseconds_example :
    (nanoseconds (abs_timeout late 1500) ≡ nanoseconds late + 1500 * 1000000)
    × ((abs_timeout late 1500).tv_nsec < 1000000000)
abs_timeout-nanoseconds_example = abs_timeout-nanoseconds late 1500 (omega arith)

abbrev pair_left : Sem
pair_left = record { count = 2; max_count = pos 3 }

-- The timed call times out at once; the other two succeed.
abbrev system : Posix
system = record {
  wait_errno = 0;
  trywait_errno = 0;
  clock_errno = 0;
  clock = late;
  timedwait_errno = λ t. etimedout;
}
