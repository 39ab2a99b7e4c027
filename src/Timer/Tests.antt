-- ===== src/Timer/Tests.antt =====
-- A cyclic timer of 1500 milliseconds.
use open_hsm.Base.{true}
use open_hsm.Timer.{timer_create}
use open_hsm.Timer.Period.{Given, Created, timer_create-Created}

abbrev given : Given
given = record {
  out = true;
  period_ms = 1500;
  cycle = true;
  callback = 7;
  arg = 8;
  room = true;
  created_errno = 0;
  settime = λ its. 0;
}

timer_create-Created_example :
    Created given 9 (timer_create true 1500 true 7 8 true (0, 9) (λ its. 0))
timer_create-Created_example = timer_create-Created given 9
