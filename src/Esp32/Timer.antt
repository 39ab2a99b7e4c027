-- ===== src/Esp32/Timer.antt =====
-- platform/esp32/osa_timer.c. What a FreeRTOS call returns is an argument: true for pdPASS.
use open_hsm.Base.{
  ℕ, ◌*◌, Bool, false, ◌&&◌, ◌||◌, Option, none, some, List, [], ◌∷◌, ◌==◌, if◌then◌else◌, ℤ, Ptr,
  null, u32,
}
use open_hsm.Error.{ok, invalid_param, generic, code}
use open_hsm.Esp32.{Slot, SlotPool, init_once, create_slot, release}

abbrev pub max_timers : ℕ
max_timers = 8

-- What a slot of `timer_pool` holds beside its handle and flag.
pub record Action : Type 0 where
  pub callback : Ptr
  pub arg : Ptr

abbrev no_action : Action
no_action = record { callback = null; arg = null }

abbrev pub TimerPool : Type 0
TimerPool = SlotPool Action

-- `timer_callback_wrapper`: the call that it makes, if it makes one.
unfoldable pub timer_callback_wrapper : Ptr → List (Slot Action) → Option Action
timer_callback_wrapper timer [] = none
timer_callback_wrapper timer (s ∷ slots) =
    let later = timer_callback_wrapper timer slots in
    if (s.handle == timer) && s.used
    then (if s.extra.callback == null then none else some s.extra)
    else later

-- The period in ticks, where `to_ticks` is pdMS_TO_TICKS.
unfoldable pub period_ticks : (to_ticks : ℕ → ℕ) → ℕ → ℕ
period_ticks to_ticks period_ms = if to_ticks period_ms == 0 then 1 else to_ticks period_ms

-- `make` is the handle that FreeRTOS returns for a period, its repetition and a slot.
unfoldable pub timer_create :
    (to_ticks : ℕ → ℕ)
    → (make : ℕ → Bool → ℕ → Ptr) → (period_ms : ℕ) → (periodic : Bool) → Action
    → TimerPool
    → Ptr × TimerPool
unfolding create_slot init_once period_ticks
timer_create to_ticks make period_ms periodic action p =
    let p' = init_once max_timers no_action p in
    if (period_ms == 0) || (action.callback == null)
    then (null, p')
    else create_slot (make (period_ticks to_ticks period_ms) periodic) action p'

unfoldable pub timer_destroy : Ptr → TimerPool → ℤ × TimerPool
unfolding release
timer_destroy timer p =
    if timer == null
    then (code invalid_param, p)
    else (code ok, record p { slots = release timer (λ a. record a { callback = null }) p.slots })

-- `in_isr` chooses between the two calls.
unfoldable pub timer_start : (in_isr start_from_isr start : Bool) → Ptr → ℤ
timer_start in_isr start_from_isr start timer =
    if timer == null
    then code invalid_param
    else if (if in_isr then start_from_isr else start)
    then code ok
    else code generic

unfoldable pub timer_stop : (in_isr stop_from_isr stop : Bool) → Ptr → ℤ
timer_stop in_isr stop_from_isr stop timer =
    if timer == null
    then code invalid_param
    else if (if in_isr then stop_from_isr else stop)
    then code ok
    else code generic

-- `change` is the change to a period in ticks.
unfoldable pub timer_set_period :
    (to_ticks : ℕ → ℕ) → (change : ℕ → Bool) → Ptr → (period_ms : ℕ) → ℤ
unfolding period_ticks
timer_set_period to_ticks change timer period_ms =
    if timer == null
    then code invalid_param
    else if change (period_ticks to_ticks period_ms)
    then code ok
    else code generic

unfoldable pub timer_restart :
    (to_ticks : ℕ → ℕ) → (change : ℕ → Bool) → (reset : Bool) → Ptr → (period_ms : ℕ) → ℤ
unfolding period_ticks
timer_restart to_ticks change reset timer period_ms =
    if timer == null
    then code invalid_param
    else if change (period_ticks to_ticks period_ms)
    then (if reset then code ok else code generic)
    else code generic

unfoldable pub timer_is_active : (active : Bool) → Ptr → Bool
timer_is_active active timer = if timer == null then false else active

-- `ticks` is the period that FreeRTOS keeps, `tick_ms` portTICK_PERIOD_MS.
unfoldable pub timer_get_period : (ticks tick_ms : ℕ) → Ptr → ℕ
timer_get_period ticks tick_ms timer = if timer == null then 0 else u32 (ticks * tick_ms)

unfoldable pub timer_get_expiry : Ptr → ℕ
timer_get_expiry timer = 0
