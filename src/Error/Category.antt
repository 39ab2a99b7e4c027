-- ===== src/Error/Category.antt =====
-- Texts and categories against the ranges that platform/osa_error.h documents.
use Prim.Native.String.{String}
use text.Mathlib.Text.{◌==◌ as str_eq}
use open_hsm.Base.{◌≡◌, refl, Option, none, some, List, [], ◌∷◌, if◌then◌else◌}
use open_hsm.Error.{
  ErrorCode, ok, generic, invalid_param, null_pointer, not_initialized, already_initialized,
  not_implemented, not_supported, busy, timeout, canceled, aborted, no_memory, no_resources,
  resource_busy, resource_exhausted, mutex_lock, mutex_unlock, sem_wait, sem_post, sem_timeout,
  thread_create, thread_join, thread_detach, thread_cancel, thread_not_found, queue_create,
  queue_full, queue_empty, queue_send, queue_recv, queue_timeout, worker_init, worker_start,
  worker_stop, worker_submit, worker_cancel, worker_wait, worker_queue_full, worker_not_found,
  worker_busy, worker_shutdown, hsm_init, hsm_start, hsm_stop, hsm_invalid_state, hsm_invalid_event,
  hsm_invalid_signal, hsm_send_failed, hsm_not_found, platform_base, code, error_string,
  error_category,
}

-- The heading under which the enumeration lists a code.
pub heading : ErrorCode → String
heading ok = "Success"
heading generic = "General"
heading invalid_param = "General"
heading null_pointer = "General"
heading not_initialized = "General"
heading already_initialized = "General"
heading not_implemented = "General"
heading not_supported = "General"
heading busy = "General"
heading timeout = "General"
heading canceled = "General"
heading aborted = "General"
heading no_memory = "Memory/Resource"
heading no_resources = "Memory/Resource"
heading resource_busy = "Memory/Resource"
heading resource_exhausted = "Memory/Resource"
heading mutex_lock = "Synchronization"
heading mutex_unlock = "Synchronization"
heading sem_wait = "Synchronization"
heading sem_post = "Synchronization"
heading sem_timeout = "Synchronization"
heading thread_create = "Thread/Task"
heading thread_join = "Thread/Task"
heading thread_detach = "Thread/Task"
heading thread_cancel = "Thread/Task"
heading thread_not_found = "Thread/Task"
heading queue_create = "Queue/Message"
heading queue_full = "Queue/Message"
heading queue_empty = "Queue/Message"
heading queue_send = "Queue/Message"
heading queue_recv = "Queue/Message"
heading queue_timeout = "Queue/Message"
heading worker_init = "Worker Pool"
heading worker_start = "Worker Pool"
heading worker_stop = "Worker Pool"
heading worker_submit = "Worker Pool"
heading worker_cancel = "Worker Pool"
heading worker_wait = "Worker Pool"
heading worker_queue_full = "Worker Pool"
heading worker_not_found = "Worker Pool"
heading worker_busy = "Worker Pool"
heading worker_shutdown = "Worker Pool"
heading hsm_init = "HSM"
heading hsm_start = "HSM"
heading hsm_stop = "HSM"
heading hsm_invalid_state = "HSM"
heading hsm_invalid_event = "HSM"
heading hsm_invalid_signal = "HSM"
heading hsm_send_failed = "HSM"
heading hsm_not_found = "HSM"
heading platform_base = "Platform"

abbrev pub all_codes : List ErrorCode
all_codes =
    ok ∷ generic ∷ invalid_param ∷ null_pointer ∷ not_initialized ∷ already_initialized
    ∷ not_implemented ∷ not_supported ∷ busy ∷ timeout ∷ canceled ∷ aborted ∷ no_memory
    ∷ no_resources ∷ resource_busy ∷ resource_exhausted ∷ mutex_lock ∷ mutex_unlock ∷ sem_wait
    ∷ sem_post ∷ sem_timeout ∷ thread_create ∷ thread_join ∷ thread_detach ∷ thread_cancel
    ∷ thread_not_found ∷ queue_create ∷ queue_full ∷ queue_empty ∷ queue_send ∷ queue_recv
    ∷ queue_timeout ∷ worker_init ∷ worker_start ∷ worker_stop ∷ worker_submit ∷ worker_cancel
    ∷ worker_wait ∷ worker_queue_full ∷ worker_not_found ∷ worker_busy ∷ worker_shutdown ∷ hsm_init
    ∷ hsm_start ∷ hsm_stop ∷ hsm_invalid_state ∷ hsm_invalid_event ∷ hsm_invalid_signal
    ∷ hsm_send_failed ∷ hsm_not_found ∷ platform_base ∷ []

-- The first code of the list with this text.
pub find_text : String → List ErrorCode → Option ErrorCode
find_text s [] = none
find_text s (c ∷ cs) =
    let later = find_text s cs in if str_eq (error_string (code c)) s then some c else later

-- Every code of the enumeration is in the category of the heading that it stands under.
pub error_category-code : (c : ErrorCode) → error_category (code c) ≡ heading c
unfolding error_category code heading
error_category-code ok = refl
error_category-code _ = refl

-- The text of a code tells it from all others: reading it back among the texts of the enumeration
-- gives the code.
pub find_text-error_string : (c : ErrorCode) → find_text (error_string (code c)) all_codes ≡ some c
unfolding find_text error_string code
find_text-error_string ok = refl
find_text-error_string _ = refl
