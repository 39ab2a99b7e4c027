-- ===== src/Esp32/Thread.antt =====
-- platform/esp32/osa_thread.c.
use open_hsm.Base.{
  ℕ, zero, suc, ◌+◌, ◌-◌, ◌/◌, Bool, not, Option, none, some, ltb, ◌==◌, if◌then◌else◌, ℤ, pos,
  negsuc, Ptr, null, u32,
}
use open_hsm.Sync.{unsigned}
use open_hsm.Thread.{ThreadParam}
use open_hsm.Error.{ok, invalid_param, code}
use open_hsm.Esp32.{SlotPool, init_once, find_free, create_slot, release}

abbrev pub max_tasks : ℕ
max_tasks = 16

abbrev pub TaskPool : Type 0
TaskPool = SlotPool (Unit {0})

-- The FreeRTOS priority, an unsigned number below `max_priorities`, which is configMAX_PRIORITIES.
unfoldable pub task_priority : (max_priorities : ℕ) → ℤ → ℕ
task_priority max_priorities (negsuc zero) = 0
task_priority max_priorities (negsuc (suc n)) =
    if ltb (max_priorities - 1) (unsigned (negsuc n))
    then max_priorities - 1
    else unsigned (negsuc n)
task_priority max_priorities (pos n) =
    if ltb (max_priorities - 1) (u32 (n + 1)) then max_priorities - 1 else u32 (n + 1)

-- `make` is the handle that FreeRTOS returns for a stack size in words, a priority and a slot;
-- `words` is the size of a StackType_t, and `room` whether malloc succeeds.
unfoldable pub thread_create :
    (max_priorities words : ℕ)
    → (make : ℕ → ℕ → ℕ → Ptr) → (room : Bool) → Option ThreadParam
    → (func : Ptr) → TaskPool
    → Ptr × TaskPool
unfolding create_slot init_once task_priority find_free
thread_create max_priorities words make room none func p = (null, init_once max_tasks tt p)
thread_create max_priorities words make room (some param) func p =
    let p' = init_once max_tasks tt p in
    if func == null then (null, p') else elim (find_free p'.slots) [
      | none ↦ (null, p')
      | some i ↦
          if not room
          then (null, p')
          else create_slot
              (make (unsigned param.stack_size / words)
                (task_priority max_priorities param.priority))
              tt p'
    ]

unfoldable pub thread_destroy : Ptr → TaskPool → ℤ × TaskPool
unfolding release
thread_destroy thread p =
    if thread == null
    then (code invalid_param, p)
    else (code ok, record p { slots = release thread (λ u. u) p.slots })
