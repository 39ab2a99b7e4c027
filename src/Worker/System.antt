-- ===== src/Worker/System.antt =====
-- `n` worker threads and any number of clients over one pool, interleaved in any order.
--
-- A step is one critical section of core/osa_worker.c, one wait that returns, or one run of a job.
-- `queued` is no part of the program: it lists the jobs that were accepted and have been neither
-- cancelled nor taken.
pub mod Threads
pub mod Defs
pub mod Clients
pub mod Workers
pub mod Safety
pub mod Effort
pub mod Finish
pub mod Accounts
mod Tests
