-- ===== src/Error/Demo.antt =====
-- examples/linux/error_code_demo.c: an operation that may fail, what is printed of an error, and the
-- table of names.
use Prim.Native.String.{String}
use open_hsm.Base.{◌≡◌, Bool, not, [], ◌∷◌, ℤ, pos, eqb_ℤ, if◌then◌else◌, arith}
use open_hsm.Error.{
  ok, generic, invalid_param, null_pointer, not_initialized, no_memory, timeout, mutex_lock,
  thread_create, queue_full, worker_init, worker_queue_full, hsm_init, hsm_invalid_state, code,
  switch, error_string, error_category, is_ok, is_err,
}

-- `demo_operation`
unfoldable pub demo_operation : ℤ → ℤ
unfolding code
demo_operation scenario =
    if eqb_ℤ scenario (pos 0)
    then code ok
    else if eqb_ℤ scenario (pos 1)
    then code invalid_param
    else if eqb_ℤ scenario (pos 2)
    then code no_memory
    else if eqb_ℤ scenario (pos 3)
    then code timeout
    else if eqb_ℤ scenario (pos 4)
    then code worker_queue_full
    else if eqb_ℤ scenario (pos 5)
    then code hsm_invalid_state
    else code generic

-- What `print_error_info` prints.
pub record Info : Type 0 where
  pub err : ℤ
  pub text : String
  pub category : String
  pub succeeded : Bool
  pub failed : Bool

abbrev pub error_info : ℤ → Info
error_info err = record {
  err = err;
  text = error_string err;
  category = error_category err;
  succeeded = is_ok err;
  failed = is_err err;
}

-- The switch over the codes in the last part of main.
unfoldable pub error_name : ℤ → String
unfolding switch
error_name err =
    switch err
      ((code ok, "OSA_OK")
        ∷ (code generic, "OSA_ERR_GENERIC")
        ∷ (code invalid_param, "OSA_ERR_INVALID_PARAM")
        ∷ (code null_pointer, "OSA_ERR_NULL_POINTER")
        ∷ (code not_initialized, "OSA_ERR_NOT_INITIALIZED")
        ∷ (code no_memory, "OSA_ERR_NO_MEMORY")
        ∷ (code timeout, "OSA_ERR_TIMEOUT")
        ∷ (code mutex_lock, "OSA_ERR_MUTEX_LOCK")
        ∷ (code thread_create, "OSA_ERR_THREAD_CREATE")
        ∷ (code queue_full, "OSA_ERR_QUEUE_FULL")
        ∷ (code worker_init, "OSA_ERR_WORKER_INIT")
        ∷ (code worker_queue_full, "OSA_ERR_WORKER_QUEUE_FULL")
        ∷ (code hsm_init, "OSA_ERR_HSM_INIT")
        ∷ (code hsm_invalid_state, "OSA_ERR_HSM_INVALID_STATE")
        ∷ [])
      "UNKNOWN"

-- The scenario 0 succeeds, and no other; each is told to be one of the two.
pub demo_operation_lem :
    (scenario : ℤ)
    → ((error_info (demo_operation scenario)).succeeded ≡ eqb_ℤ scenario (pos 0))
      × ((error_info (demo_operation scenario)).failed ≡ not (eqb_ℤ scenario (pos 0)))
unfolding demo_operation is_ok is_err code
demo_operation_lem scenario = ground arith
