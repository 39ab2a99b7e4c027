-- ===== src/Esp32/Sync.antt =====
-- platform/esp32/osa_sync.c. What a FreeRTOS call returns is an argument: true for pdTRUE.
use open_hsm.Base.{
  ℕ, Bool, Option, none, some, ◌==◌, if◌then◌else◌, ℤ, pos, negsuc, eqb_ℤ, Ptr, null,
}
use open_hsm.Error.{ok, invalid_param, generic, timeout, mutex_lock as err_mutex_lock, code}
use open_hsm.Esp32.{SlotPool, init_once, create_slot, release}

abbrev pub max_mutexes : ℕ
max_mutexes = 16

abbrev pub max_semaphores : ℕ
max_semaphores = 16

-- A slot of `mutex_pool` or `sem_pool` holds nothing more.
abbrev pub Plain : Type 0
Plain = SlotPool (Unit {0})

abbrev pub keep : Unit {0} → Unit {0}
keep u = u

unfoldable pub mutex_create : (make : ℕ → Ptr) → Plain → Ptr × Plain
unfolding create_slot init_once
mutex_create make p = create_slot make tt (init_once max_mutexes tt p)

unfoldable pub mutex_destroy : Ptr → Plain → ℤ × Plain
unfolding release
mutex_destroy mutex p =
    if mutex == null
    then (code invalid_param, p)
    else (code ok, record p { slots = release mutex keep p.slots })

unfoldable pub mutex_lock : Ptr → (taken : Bool) → ℤ
mutex_lock mutex taken =
    if mutex == null then code invalid_param else if taken then code ok else code err_mutex_lock

unfoldable pub mutex_unlock : Ptr → (given : Bool) → ℤ
mutex_unlock mutex given =
    if mutex == null then code invalid_param else if given then code ok else code err_mutex_lock

unfoldable pub mutex_trylock : Ptr → (taken : Bool) → ℤ
mutex_trylock mutex taken =
    if mutex == null then code invalid_param else if taken then code ok else code timeout

-- `forever` is OSA_WAIT_FOREVER, `to_ticks` is pdMS_TO_TICKS and `take` the call with these ticks, where
-- `none` is portMAX_DELAY.
unfoldable pub mutex_timedlock :
    (forever : ℕ) → (to_ticks : ℕ → ℕ) → (take : Option ℕ → Bool) → Ptr → (timeout_ms : ℕ) → ℤ
mutex_timedlock forever to_ticks take mutex timeout_ms =
    if mutex == null
    then code invalid_param
    else if take (if timeout_ms == forever then none else some (to_ticks timeout_ms))
    then code ok
    else code timeout

-- `binary` and `counting` are the handles that the two kinds of semaphore get for a slot.
unfoldable pub sem_create :
    (binary : ℕ → Ptr)
    → (counting : ℤ → ℤ → ℕ → Ptr) → (init_count max_count : ℤ) → Plain
    → Ptr × Plain
unfolding create_slot init_once
sem_create binary counting init_count max_count p =
    create_slot (λ i. if eqb_ℤ max_count (pos 1) then binary i else counting max_count init_count i)
      tt (init_once max_semaphores tt p)

unfoldable pub sem_destroy : Ptr → Plain → ℤ × Plain
unfolding release
sem_destroy sem p =
    if sem == null
    then (code invalid_param, p)
    else (code ok, record p { slots = release sem keep p.slots })

-- The ticks of a wait for `timeout_ms`.
abbrev pub ticks_of : (to_ticks : ℕ → ℕ) → ℤ → Option ℕ
ticks_of to_ticks (negsuc n) = none
ticks_of to_ticks (pos n) = some (to_ticks n)

unfoldable pub sem_wait : (to_ticks : ℕ → ℕ) → (take : Option ℕ → Bool) → Ptr → ℤ → ℤ
sem_wait to_ticks take sem timeout_ms =
    if sem == null
    then code invalid_param
    else if take (ticks_of to_ticks timeout_ms)
    then code ok
    else if eqb_ℤ timeout_ms (pos 0)
    then code timeout
    else code generic

-- `in_isr` chooses between the two calls.
unfoldable pub sem_post : (in_isr : Bool) → (give_from_isr give : Bool) → Ptr → ℤ
sem_post in_isr give_from_isr give sem =
    if sem == null
    then code invalid_param
    else if (if in_isr then give_from_isr else give)
    then code ok
    else code generic

-- `out` is whether the output pointer is not NULL, `count` what FreeRTOS counts.
unfoldable pub sem_get_count : (count : ℤ) → (out : Bool) → Ptr → ℤ × Option ℤ
sem_get_count count out sem =
    if sem == null
    then (code invalid_param, none)
    else if out
    then (code ok, some count)
    else (code invalid_param, none)
