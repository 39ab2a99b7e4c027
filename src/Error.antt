-- ===== src/Error.antt =====
-- platform/osa_error.h and platform/linux/osa_error.c: error codes, their texts and categories.
pub mod Category
pub mod Esp32
pub mod Demo
mod Tests
use Prim.Native.String.{String}
use open_hsm.Base.{
  ℕ, Bool, true, false, List, [], ◌∷◌, if◌then◌else◌, ℤ, pos, negsuc, minus, is_neg, ltb_ℤ, eqb_ℤ,
  not,
}

-- `enum osa_error_code`
pub data ErrorCode : Type 0 where
  ok : ErrorCode
  generic invalid_param null_pointer not_initialized already_initialized not_implemented : ErrorCode
  not_supported busy timeout canceled aborted : ErrorCode
  no_memory no_resources resource_busy resource_exhausted : ErrorCode
  mutex_lock mutex_unlock sem_wait sem_post sem_timeout : ErrorCode
  thread_create thread_join thread_detach thread_cancel thread_not_found : ErrorCode
  queue_create queue_full queue_empty queue_send queue_recv queue_timeout : ErrorCode
  worker_init worker_start worker_stop worker_submit worker_cancel worker_wait : ErrorCode
  worker_queue_full worker_not_found worker_busy worker_shutdown : ErrorCode
  hsm_init hsm_start hsm_stop hsm_invalid_state hsm_invalid_event hsm_invalid_signal : ErrorCode
  hsm_send_failed hsm_not_found : ErrorCode
  platform_base : ErrorCode

-- The numbers of the enumeration.
unfoldable pub code : ErrorCode → ℤ
code ok = minus 0
code generic = minus 1
code invalid_param = minus 2
code null_pointer = minus 3
code not_initialized = minus 4
code already_initialized = minus 5
code not_implemented = minus 6
code not_supported = minus 7
code busy = minus 8
code timeout = minus 9
code canceled = minus 10
code aborted = minus 11
code no_memory = minus 100
code no_resources = minus 101
code resource_busy = minus 102
code resource_exhausted = minus 103
code mutex_lock = minus 200
code mutex_unlock = minus 201
code sem_wait = minus 210
code sem_post = minus 211
code sem_timeout = minus 212
code thread_create = minus 300
code thread_join = minus 301
code thread_detach = minus 302
code thread_cancel = minus 303
code thread_not_found = minus 304
code queue_create = minus 400
code queue_full = minus 401
code queue_empty = minus 402
code queue_send = minus 403
code queue_recv = minus 404
code queue_timeout = minus 405
code worker_init = minus 500
code worker_start = minus 501
code worker_stop = minus 502
code worker_submit = minus 503
code worker_cancel = minus 504
code worker_wait = minus 505
code worker_queue_full = minus 506
code worker_not_found = minus 507
code worker_busy = minus 508
code worker_shutdown = minus 509
code hsm_init = minus 600
code hsm_start = minus 601
code hsm_stop = minus 602
code hsm_invalid_state = minus 603
code hsm_invalid_event = minus 604
code hsm_invalid_signal = minus 605
code hsm_send_failed = minus 606
code hsm_not_found = minus 607
code platform_base = minus 1000

-- The cases of `osa_error_string`, in the order of the switch.
abbrev cases : List (ℤ × String)
cases =
    (minus 0, "Success")
    ∷ (minus 1, "Generic error")
    ∷ (minus 2, "Invalid parameter")
    ∷ (minus 3, "Null pointer")
    ∷ (minus 4, "Not initialized")
    ∷ (minus 5, "Already initialized")
    ∷ (minus 6, "Not implemented")
    ∷ (minus 7, "Not supported")
    ∷ (minus 8, "Resource busy")
    ∷ (minus 9, "Operation timeout")
    ∷ (minus 10, "Operation canceled")
    ∷ (minus 11, "Operation aborted")
    ∷ (minus 100, "Out of memory")
    ∷ (minus 101, "No resources available")
    ∷ (minus 102, "Resource busy/in use")
    ∷ (minus 103, "Resource exhausted")
    ∷ (minus 200, "Mutex lock failed")
    ∷ (minus 201, "Mutex unlock failed")
    ∷ (minus 210, "Semaphore wait failed")
    ∷ (minus 211, "Semaphore post failed")
    ∷ (minus 212, "Semaphore timeout")
    ∷ (minus 300, "Thread creation failed")
    ∷ (minus 301, "Thread join failed")
    ∷ (minus 302, "Thread detach failed")
    ∷ (minus 303, "Thread cancel failed")
    ∷ (minus 304, "Thread not found")
    ∷ (minus 400, "Queue creation failed")
    ∷ (minus 401, "Queue full")
    ∷ (minus 402, "Queue empty")
    ∷ (minus 403, "Queue send failed")
    ∷ (minus 404, "Queue receive failed")
    ∷ (minus 405, "Queue operation timeout")
    ∷ (minus 500, "Worker pool init failed")
    ∷ (minus 501, "Worker pool start failed")
    ∷ (minus 502, "Worker pool stop failed")
    ∷ (minus 503, "Job submit failed")
    ∷ (minus 504, "Job cancel failed")
    ∷ (minus 505, "Job wait failed")
    ∷ (minus 506, "Worker queue full")
    ∷ (minus 507, "Worker/job not found")
    ∷ (minus 508, "Worker busy")
    ∷ (minus 509, "Worker pool shutting down")
    ∷ (minus 600, "HSM init failed")
    ∷ (minus 601, "HSM start failed")
    ∷ (minus 602, "HSM stop failed")
    ∷ (minus 603, "Invalid HSM state")
    ∷ (minus 604, "Invalid HSM event")
    ∷ (minus 605, "Invalid HSM signal")
    ∷ (minus 606, "HSM send event failed")
    ∷ (minus 607, "HSM not found")
    ∷ (minus 1000, "Platform error")
    ∷ []

-- A switch: the first case for the number, or the default.
unfoldable pub switch : ℤ → List (ℤ × String) → String → String
switch err [] other = other
switch err ((c, text) ∷ rest) other =
    let later = switch err rest other in if eqb_ℤ err c then text else later

-- `osa_error_string`
unfoldable pub error_string : ℤ → String
unfolding switch
error_string err =
    switch err cases (if ltb_ℤ err (minus 1000) then "Unknown platform error" else "Unknown error")

-- `osa_is_ok` and `osa_is_err`
unfoldable pub is_ok : ℤ → Bool
is_ok err = eqb_ℤ err (pos 0)

unfoldable pub is_err : ℤ → Bool
is_err err = ltb_ℤ err (pos 0)

-- `a >= b`
abbrev at_least : ℤ → ℤ → Bool
at_least a b = not (ltb_ℤ a b)

-- `osa_error_category`
unfoldable pub error_category : ℤ → String
error_category err =
    if eqb_ℤ err (pos 0)
    then "Success"
    else if at_least err (minus 99)
    then "General"
    else if at_least err (minus 199)
    then "Memory/Resource"
    else if at_least err (minus 299)
    then "Synchronization"
    else if at_least err (minus 399)
    then "Thread/Task"
    else if at_least err (minus 499)
    then "Queue/Message"
    else if at_least err (minus 599)
    then "Worker Pool"
    else if at_least err (minus 699)
    then "HSM"
    else if at_least (minus 1000) err
    then "Platform"
    else "Unknown"
