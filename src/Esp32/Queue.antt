-- ===== src/Esp32/Queue.antt =====
-- platform/esp32/osa_queue.c. What a FreeRTOS call returns is an argument: true for pdTRUE.
use open_hsm.Base.{
  ℕ, Bool, not, ◌||◌, Option, none, some, ltb, ◌==◌, if◌then◌else◌, ℤ, pos, eqb_ℤ, ltb_ℤ, Ptr, null,
}
use open_hsm.Queue.{Message}
use open_hsm.Error.{ok, invalid_param, generic, timeout, queue_full, code}
use open_hsm.Esp32.{SlotPool, init_once, create_slot, release}
use open_hsm.Esp32.Sync.{ticks_of}

abbrev pub max_queues : ℕ
max_queues = 8

-- A slot of `queue_pool` holds the message size.
abbrev pub QueuePool : Type 0
QueuePool = SlotPool ℕ

-- `max_size` and `max_msg_size` are OSA_QUEUE_MAX_SIZE and OSA_QUEUE_MAX_MSG_SIZE; `make` is the handle
-- that FreeRTOS returns for a number and a size of messages and a slot.
unfoldable pub queue_create :
    (max_size max_msg_size : ℕ)
    → (make : ℤ → ℕ → ℕ → Ptr) → (msg_size : ℕ) → (max_msgs : ℤ) → QueuePool
    → Ptr × QueuePool
unfolding create_slot init_once
queue_create max_size max_msg_size make msg_size max_msgs p =
    let p' = init_once max_queues 0 p in
    if (msg_size == 0) || eqb_ℤ max_msgs (pos 0)
    then (null, p')
    else (let size = (if ltb max_msg_size msg_size then max_msg_size else msg_size) in
        let msgs = (if ltb_ℤ (pos max_size) max_msgs then pos max_size else max_msgs) in
        create_slot (make msgs size) size p')

unfoldable pub queue_destroy : Ptr → QueuePool → ℤ × QueuePool
unfolding release
queue_destroy queue p =
    if queue == null
    then (code invalid_param, p)
    else (code ok, record p { slots = release queue (λ size. size) p.slots })

unfoldable pub queue_send :
    (to_ticks : ℕ → ℕ)
    → (in_isr send_from_isr : Bool) → (send : Option ℕ → Bool) → Ptr
    → Option Message
    → ℤ
    → ℤ
queue_send to_ticks in_isr send_from_isr send queue none timeout_ms = code invalid_param
queue_send to_ticks in_isr send_from_isr send queue (some msg) timeout_ms =
    if queue == null
    then code invalid_param
    else if (if in_isr then send_from_isr else send (ticks_of to_ticks timeout_ms))
    then code ok
    else if eqb_ℤ timeout_ms (pos 0)
    then code queue_full
    else code timeout

-- `out` is whether the output pointer is not NULL.
unfoldable pub queue_receive :
    (to_ticks : ℕ → ℕ) → (receive : Option ℕ → Bool) → Ptr → (out : Bool) → ℤ → ℤ
queue_receive to_ticks receive queue out timeout_ms =
    if (queue == null) || not out
    then code invalid_param
    else if receive (ticks_of to_ticks timeout_ms)
    then code ok
    else if eqb_ℤ timeout_ms (pos 0)
    then code timeout
    else code generic

unfoldable pub queue_peek : (peek : Bool) → Ptr → (out : Bool) → ℤ
queue_peek peek queue out =
    if (queue == null) || not out
    then code invalid_param
    else if peek
    then code ok
    else code generic

unfoldable pub queue_get_count : (waiting : ℤ) → Ptr → (out : Bool) → ℤ × Option ℤ
queue_get_count waiting queue out =
    if (queue == null) || not out then (code invalid_param, none) else (code ok, some waiting)

unfoldable pub queue_get_space : (spaces : ℤ) → Ptr → (out : Bool) → ℤ × Option ℤ
queue_get_space spaces queue out =
    if (queue == null) || not out then (code invalid_param, none) else (code ok, some spaces)

unfoldable pub queue_flush : Ptr → ℤ
queue_flush queue = if queue == null then code invalid_param else code ok
