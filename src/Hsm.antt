-- ===== src/Hsm.antt =====
-- core/hsm.h: signals, events, states, and the macros by which a handler moves the machine.
--
-- A state is named by its address. A handler is C code that calls other handlers through function
-- pointers; `Call` is such a call, and a chart ties the knot with fuel: `none` is a recursion that
-- is deeper than the fuel.
pub mod Transit
pub mod Super
mod Tests
use open_hsm.Base.{ℕ, zero, suc, Option, none, some, List, ℤ, pos, Ptr, null, ◌==◌, if◌then◌else◌}

-- `enum hsm_signal`
abbrev pub sig_init : ℤ
sig_init = pos 0

abbrev pub sig_entry : ℤ
sig_entry = pos 1

abbrev pub sig_exit : ℤ
sig_exit = pos 2

abbrev pub sig_period : ℤ
sig_period = pos 3

abbrev pub user_sig : ℕ
user_sig = 4

-- `struct hsm_event`
pub record Event : Type 0 where
  pub signal : ℤ
  pub payload : Ptr
  pub size : ℕ

abbrev pub event_of : ℤ → Event
event_of s = record { signal = s; payload = null; size = 0 }

-- The event of `STATE_INIT`, whose fields after the first are zero.
abbrev pub entry_event : Event
entry_event = event_of sig_entry

-- `struct hsm_active`, with the source's spelling of `histroy` mended.
pub record Active : Type 0 where
  pub error : ℤ
  pub current : Ptr
  pub history : Ptr

-- Code over a machine state `S`: it returns a value and a new state, or recurses too deep.
abbrev pub Cmd : Type 0 → Type 0 → Type 0
Cmd S A = S → Option (A × S)

-- `(s)->handler(entry, e)`
abbrev pub Call : Type 0 → Type 0
Call S = Ptr → Event → Cmd S ℤ

infixl 5 ◌>>=◌ ◌>>◌
abbrev pub ◌>>=◌ : {S A B : Type 0} → Cmd S A → (A → Cmd S B) → Cmd S B
◌>>=◌ m f s = elim (m s) [ none ↦ none | some (a, s') ↦ f a s' ]

abbrev pub ◌>>◌ : {S A B : Type 0} → Cmd S A → Cmd S B → Cmd S B
m >> k = m >>= λ _. k

abbrev pub pure : {S A : Type 0} → A → Cmd S A
pure a s = some (a, s)

-- `struct hsm_state`, its handler given the way to call other handlers.
pub record State (S : Type 0) : Type 0 where
  pub handler : Call S → Event → Cmd S ℤ
  pub parent : Ptr
  pub name : List ℕ

-- The states of a program, by address.
abbrev pub Chart : Type 0 → Type 0
Chart S = Ptr → State S

-- How the `struct hsm_active` lies in the machine state.
pub record Embeds (S : Type 0) : Type 0 where
  pub active : S → Active
  pub with_active : Active → S → S

-- A call through the handler pointer of a state, with fuel for the nesting of calls.
unfoldable pub invoke : {S : Type 0} → Chart S → ℕ → Call S
invoke chart zero s e x = none
invoke chart (suc f) s e x = (chart s).handler (invoke chart f) e x

module _ {S : Type 0} (em : Embeds S) (call : Call S) where
  open em use {active, with_active}

  abbrev get : Cmd S Active
  get x = some (active x, x)

  abbrev put : Active → Cmd S (Unit {0})
  put a x = some (tt, with_active a x)

  -- `STATE_INIT()`
  unfoldable pub state_init : Cmd S ℤ
  state_init = do a ← get; call a.current entry_event

  -- `STATE_TRANSIT(s)`
  unfoldable pub state_transit : Ptr → Cmd S (Unit {0})
  unfolding state_init
  state_transit s = do
    a ← get
    put (record a { history = a.current; current = s })
    err ← state_init
    b ← get
    put (record b { error = err })

  -- `STATE_SUPER(e)`, where `parent` reads the field of that name.
  unfoldable pub state_super : (parent : Ptr → Ptr) → Event → Cmd S (Unit {0})
  state_super parent e = do
    a ← get
    if parent a.current == null
        then pure tt
        else do err ← call (parent a.current) e; b ← get; put (record b { error = err })

  -- `STATE_ERROR()`
  unfoldable pub state_error : Cmd S ℤ
  state_error = do a ← get; pure a.error
