-- ===== src/Lib.antt =====
-- A hierarchical state machine framework in C: what its queue, its active objects, its worker pool
-- and its error codes do, as functions, and what holds of them.
--
-- The parts and how they interact. A state machine (core/hsm.h) is a `struct hsm_active` whose
-- current state handles events. An active object (core/osa_hsm.c) gives such a machine a thread and a
-- message queue: osa_hsm_active_event_post copies an event into the queue, and the loop of
-- osa_hsm_active_run takes events off it and calls the handler of the current state. The queue
-- (platform/linux/osa_queue.c) is a ring buffer behind a mutex and two condition variables. A worker
-- pool (core/osa_worker.c) holds a linked list of jobs; its threads take jobs from the head, run them,
-- and may post the outcome to an active object.
--
-- The files:
--   * Base: numbers, lists, `int`s as ℤ, errno values, memory as a function from addresses.
--   * Queue: platform/linux/osa_queue.c. `create`, `destroy`, `send`, `receive`, `queue_count`,
--     `is_full`, `is_empty`, `get_name` are the functions of these names after osa_queue_. The
--     loops around pthread_cond_wait are `wait_for` and `wait_while`, the copies in and out of the
--     buffer are `write_slot` and `read_slot`. Below it: Valid (the invariant of the ring), Fifo (the
--     messages in it), Wait, Send, Receive (the calls on all their branches) and Trace (the queue
--     against a list with a bound). Queue.System is any number of threads that share a queue: Calls
--     says what an unfinished call leaves, Invariant what holds at each step, Senders and Receivers
--     that the steps keep it, and Safety what can be reached.
--   * Hsm: core/hsm.h, with a function for each macro; Transit and Super hold their theorems.
--   * OsaHsm: core/osa_hsm.h and core/osa_hsm.c; Post and Dispatch hold the theorems, Plain is a layout
--     of events for the runs.
--   * Worker: the data of core/osa_worker.h. Worker.Slots is the static job pool and
--     osa_worker_job_init, Worker.Ops the queue operations, Worker.Thread the critical sections of
--     osa_worker_pool_thread. Members, Chain and Invariant describe the linked list; Submit, Cancel,
--     Thread.Take, Thread.Finish and Frame prove the operations, Ledger the statistics, and Stale shows
--     what the head's prev pointer leads to.
--     Loop is the loop of osa_worker_pool_thread for a worker that is alone; Order has what one job
--     does, Fifo what the queue does.
--     Lifecycle is osa_worker_pool_init, osa_worker_pool_start and osa_worker_pool_stop, with their
--     theorems in Init and Run.
--     Worker.System is any number of worker threads beside clients that take slots, submit, cancel and
--     give jobs back, one critical section at a time: Threads says where each worker stands, Defs has
--     the steps and their invariant, Clients and Workers show that these keep it, Safety and
--     Accounts hold the theorems on what can be reached, Effort counts the steps that the workers have
--     left, and Finish shows that they take them all.
--   * Error: platform/osa_error.h and platform/linux/osa_error.c, with its theorems in Category;
--     Error.Esp32 is platform/esp32/osa_error.c, and Error.Demo examples/linux/error_code_demo.c.
--   * Sync: platform/linux/osa_sync.c, with its theorems in Deadline. Timer: platform/linux/osa_timer.c,
--     with Period. Thread: platform/linux/osa_thread.c.
--   * Esp32: the files of platform/esp32 that keep FreeRTOS objects in static pools. Pool is what the
--     five pools have in common, Sync, Queue, Thread and Timer are the files, Objects has the theorems.
--   * WorkerExample: examples/linux/hsm_worker.c, a machine that gives jobs to a worker pool; Handlers
--     has its states. Given is the job that it submits; Start, Finish, Delegate and Unknown are what a
--     handler does with an event. Life and Cycle put a worker and the loop of the machine together:
--     the job from the pool's queue to its end, and from SIG_WORK_START to its end.
--   * PoolExample: examples/linux/worker_pool.c, jobs submitted in a loop. Batch is what the
--     loop and a worker come to, and Setup the start of main with its error paths.
--   * Simulate: examples/linux/hsm_simulate.c, a machine that answers another one. Answers is one SEND,
--     Rounds one event, Start the way into the loop, Periods and Sends are runs of the loop.
--   * Led: the machine of examples/esp32/main/hsm_esp32_example.c; Lamp is an automaton
--     for it, and Refine compares the two.
--   The modules named Tests run the code at concrete inputs.
--
-- Conventions. A C function that changes its structure returns the new structure beside its code. A
-- NULL pointer is `none`, or the address 0. A `uint32_t` wraps around at 2 ^ 32. Where a function
-- waits on a condition variable, other threads run: the calls take a list of `Wake`s, which says what
-- each return of the wait finds, and the theorems hold for every such list that meets their
-- conditions. A call whose list ends while it waits is `blocked`. A mutex holds over each
-- function of a queue and of a worker pool, so that its body between waits is one step, but not over
-- job_pool_alloc, job_pool_free, get_next_job_id and osa_worker_job_init, which take no lock.
--
-- In Queue.System a step is a call up to its wait or to its end, from the call or from a wake; a
-- thread that waits may be woken by a signal, by its timeout, by both, or for no reason, and the
-- queue is not destroyed meanwhile. A signal that goes to a thread whose timed wait ends by ETIMEDOUT
-- is lost, and `lost` counts these.
--
-- In Worker.System a step is a critical section of a worker or a call of a client, and leaves out
-- three things that a program could do. osa_worker_pool_cancel is not called for a job at the head of
-- the queue whose prev pointer is not NULL, which Worker.Stale shows to stay in the queue. An
-- allocation is one step, as if a lock were held over it. A client submits a job, or gives it back,
-- only while it is neither in the queue nor with a worker.
--
-- In Worker.Loop and PoolExample one worker runs and nobody else. In WorkerExample no worker runs
-- between the calls that one handler makes to the pool, and in Simulate and Led a handler runs to its
-- end before the next event.
--
-- Bounds and fuel. `invoke` has fuel for the nesting of handler calls; `none` is a recursion that is
-- deeper than the fuel. The search of osa_worker_pool_cancel has one more than `queue_depth` as
-- fuel, which is one more than the number of jobs on a valid queue, so that it always ends there.
-- The loop of a worker has fuel for its turns, each of which takes a token of the work semaphore;
-- one more than the tokens is enough for it to come to sleep.
--
-- Parameters. The bytes of a `struct hsm_event` (`Layout`: a fixed length, and reading what was
-- written gives the event back), where the `struct hsm_active` lies in a program's state (`Lawful`:
-- what is put there is found there, and a second put replaces the first), the handlers of a chart,
-- the completion callbacks (`Quiet`: they write to no other job and not to the pool) and functions
-- of jobs, and the answers of calloc, malloc, strdup, the clock, the POSIX timers, and the thread,
-- timer and semaphore calls. Of FreeRTOS: the handle that a call makes for a static buffer, and the
-- answers of the calls on a handle. The counters of Simulate are natural numbers, as long as the C
-- program's do not overflow.
--
-- Not modelled: what is one call of the system each (to sleep, yield, exit, and name a thread), the
-- main functions of the examples but for the start of the one of examples/linux/worker_pool.c (its
-- waits, its statistics, its stop of the pool and its result are not), and the
-- tasks of the examples, which call the library in a fixed order and print; the programs under test,
-- and the log output.
pub mod Base
pub mod Error
pub mod Queue
pub mod Hsm
pub mod OsaHsm
pub mod Worker
pub mod Sync
pub mod Timer
pub mod Thread
pub mod WorkerExample
pub mod Esp32
pub mod PoolExample
pub mod Simulate
pub mod Led
