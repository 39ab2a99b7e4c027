-- ===== src/OsaHsm.antt =====
-- core/osa_hsm.c: a state machine with its own thread and message queue.
--
-- The machine state `S` of a program embeds a `struct osa_hsm_active`, whose first part is the
-- `struct hsm_active` of core/hsm.h. A message is the bytes of an event, as the compiler lays them out.
pub mod Post
pub mod Dispatch
pub mod Plain
mod Tests
use Prim.Native.String.{String}
use open_hsm.Base.{
  ℕ, zero, suc, ◌+◌, ◌-◌, ◌^◌, ◌≡◌, Bool, true, false, not, ◌||◌, Option, none, some, List, [], ltb,
  ◌==◌, if◌then◌else◌, length, ℤ, pos, negsuc, minus, eqb_ℤ, Ptr, null,
}
use open_hsm.Queue.{Queue, Message, Wake, Outcome, returned, blocked, create, send, receive}
use open_hsm.Hsm.{
  Event, Active, Cmd, Call, Chart, Embeds, event_of, sig_period, user_sig, entry_event, invoke,
  ◌>>=◌, ◌>>◌, pure, state_init,
}

-- `oas_hsm_sig_str`: `none` is a read in front of the table, which a negative signal makes.
unfoldable pub sig_str : ℤ → Option String
sig_str (negsuc n) = none
sig_str (pos zero) = some "init"
sig_str (pos (suc zero)) = some "entry"
sig_str (pos (suc (suc zero))) = some "exit"
sig_str (pos (suc (suc (suc zero)))) = some "period"
sig_str (pos (suc (suc (suc (suc n))))) = some "unknown"

-- `struct osa_hsm_active`, with the parts of `disp` and `timer` side by side.
pub record OsaHsm : Type 0 where
  pub super : Active
  pub name : Option (List ℕ)
  pub task_ref : Ptr
  pub msg_q : Option Queue
  pub msg_q_size : ℤ
  pub timer_id : Ptr
  pub tick_period : ℕ

-- `osa_hsm_active_init`
unfoldable pub active_init : OsaHsm → Ptr → ℤ × OsaHsm
active_init hsm init =
    (pos 0, record hsm { super = record { current = init; history = init; error = pos 0 } })

-- `(int)timeout` for a `uint32_t`
abbrev pub to_int : ℕ → ℤ
to_int t = if ltb t (2 ^ 31) then pos t else negsuc (2 ^ 32 - 1 - t)

-- The bytes of a `struct hsm_event`.
pub record Layout : Type 0 where
  pub event_size : ℕ
  pub bytes : Event → Message
  pub read : Message → Event
  pub length-bytes : (e : Event) → length (bytes e) ≡ event_size
  pub read-bytes : (e : Event) → read (bytes e) ≡ e

-- Where the `struct osa_hsm_active` lies in the state of a program.
pub record EmbedsHsm (S : Type 0) : Type 0 where
  pub hsm : S → OsaHsm
  pub with_hsm : OsaHsm → S → S

module _ {S : Type 0} (em : EmbedsHsm S) where
  open em use {hsm, with_hsm}

  abbrev pub embeds : Embeds S
  embeds = record {
    active = λ x. (hsm x).super;
    with_active = λ a x. with_hsm (record (hsm x) { super = a }) x;
  }

  abbrev pub with_queue : Option Queue → S → S
  with_queue q x = with_hsm (record (hsm x) { msg_q = q }) x

-- `osa_hsm_active_event_post` on the structure at `hsm`; `blocked` is a sender that still waits.
unfoldable pub event_post :
    Layout → Option OsaHsm → Option Event → ℕ → List Wake → Outcome (ℤ × Option OsaHsm)
event_post lay none e timeout ws = returned (minus 1, none)
event_post lay (some h) none timeout ws = returned (minus 1, some h)
event_post lay (some h) (some e) timeout ws = elim h.msg_q [
  | none ↦ returned (minus 1, some h)
  | some q ↦ elim (send (some q) (some (lay.bytes e)) lay.event_size (to_int timeout) ws) [
    | blocked ↦ blocked
    | returned (c, q') ↦ returned (c, some (record h { msg_q = q' }))
  ]
]

-- `oas_hsm_timer_handler`
unfoldable pub timer_handler : Layout → Option OsaHsm → Outcome (ℤ × Option OsaHsm)
unfolding event_post
timer_handler lay none = returned (pos 0, none)
timer_handler lay (some h) = event_post lay (some h) (some (event_of sig_period)) 0 []

-- `osa_hsm_active_period`: `created` is what `osa_timer_create` returns, and the handle that it leaves
-- in the timer id; `stopped` is what `osa_timer_stop` returns.
unfoldable pub set_period :
    Option OsaHsm → (period : ℕ) → (created : ℤ × Ptr) → (stopped : ℤ) → ℤ × Option OsaHsm
set_period none period created stopped = (minus 1, none)
set_period (some h) period (c, id) stopped =
    if not (period == 0)
    then (c, some (record h { timer_id = id; tick_period = period }))
    else (stopped, some (record h { tick_period = 0 }))

-- `osa_hsm_active_start`: `created` is what `osa_thread_create` returns, and the handle it stores.
unfoldable pub active_start : Option OsaHsm → ℤ → (created : ℤ × Ptr) → ℤ × Option OsaHsm
active_start none msgq_size created = (minus 1, none)
active_start (some h) msgq_size (c, task) =
    if eqb_ℤ c (pos 0)
    then (pos 0, some (record h { msg_q_size = msgq_size; task_ref = task }))
    else (minus 1, some (record h { msg_q_size = msgq_size }))

-- What a thread does next.
pub data Next : Type 0 where
  continues : Next
  exits : Next
  sleeps : Next

module _ {S : Type 0} (em : EmbedsHsm S) (lay : Layout) (chart : Chart S) (fuel : ℕ) where
  open em use {hsm, with_hsm}

  -- `osa_hsm_active_run` up to its loop: ENTRY to the first state, then the queue. `name` is the text
  -- that snprintf makes of the HSM's name or the process id, cut to 31 bytes; `room` and `storage` say
  -- whether there is memory.
  unfoldable pub run_start : (name : List ℕ) → (room storage : Bool) → Cmd S Next
  unfolding state_init
  run_start name room storage = do
    state_init (embeds em) (invoke chart fuel)
    λ x.
        (let (c, q) = create true (some name) lay.event_size (hsm x).msg_q_size room storage in
          if eqb_ℤ c (pos 0) then pure continues (with_queue em q x) else pure exits x)

  -- One round of the loop: the next message goes to the current state. `ws` is what the wait for
  -- it finds.
  unfoldable pub run_round : List Wake → Cmd S Next
  run_round ws x = elim (receive (hsm x).msg_q true lay.event_size (minus 1) ws) [
    | blocked ↦ some (sleeps, x)
    | returned (c, none, q) ↦ some (continues, with_queue em q x)
    | returned (c, some msg, q) ↦
        let y = with_queue em q x in
        (invoke chart fuel (hsm y).super.current (lay.read msg) >> pure continues) y
  ]
