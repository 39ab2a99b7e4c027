-- ===== src/Base/Errno.antt =====
-- The errno numbers that the Linux files return negated, as <errno.h> defines them on Linux.
use Prim.Native.Nat.{ℕ}

abbrev pub eagain : ℕ
eagain = 11

abbrev pub enomem : ℕ
enomem = 12

abbrev pub einval : ℕ
einval = 22

abbrev pub epipe : ℕ
epipe = 32

abbrev pub etimedout : ℕ
etimedout = 110
