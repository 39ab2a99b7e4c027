-- ===== src/Led.antt =====
-- examples/esp32/main/hsm_esp32_example.c: the state machine of an LED.
--
-- The machine's state holds what the code gives to others: the level of the LED's pin, and how often it
-- has called osa_timer_create and osa_timer_stop, whose answers are given. The log is left out.
pub mod Lamp
pub mod Refine
mod Tests
use open_hsm.Base.{
  ℕ, ◌+◌, Bool, true, false, not, Option, none, some, List, [], ◌∷◌, ◌==◌, if◌then◌else◌, ℤ, pos,
  eqb_ℤ, Ptr, null,
}
use open_hsm.Hsm.{
  Event, Embeds, Cmd, Call, Chart, sig_entry, sig_exit, sig_period, ◌>>◌, pure, state_transit,
  state_super,
}
use open_hsm.OsaHsm.{OsaHsm, EmbedsHsm, embeds, set_period}

-- `enum esp32_hsm_signals`, those that a handler knows
abbrev pub sig_button_press : ℤ
sig_button_press = pos 4

abbrev pub sig_toggle_led : ℤ
sig_toggle_led = pos 8

-- `struct led_hsm`, the pin, and the calls of the timer.
pub record Led : Type 0 where
  pub active : OsaHsm
  pub led_state : Bool
  pub gpio_level : Bool
  pub starts : ℕ
  pub stops : ℕ

abbrev pub led_hsm : EmbedsHsm Led
led_hsm = record { hsm = λ x. x.active; with_hsm = λ h x. record x { active = h } }

abbrev pub led_active : Embeds Led
led_active = embeds led_hsm

-- The addresses of the states.
abbrev pub led_off : Ptr
led_off = 1

abbrev pub led_on : Ptr
led_on = 2

abbrev pub led_blinking : Ptr
led_blinking = 3

-- The `parent` fields, all NULL.
abbrev pub no_parent : Ptr → Ptr
no_parent s = null

abbrev led_name : Ptr → List ℕ
led_name s =
    if s == led_off
    then 76 ∷ 69 ∷ 68 ∷ 95 ∷ 79 ∷ 70 ∷ 70 ∷ []
    else if s == led_on
    then 76 ∷ 69 ∷ 68 ∷ 95 ∷ 79 ∷ 78 ∷ []
    else if s == led_blinking
    then 76 ∷ 69 ∷ 68 ∷ 95 ∷ 66 ∷ 76 ∷ 73 ∷ 78 ∷ 75 ∷ 73 ∷ 78 ∷ 71 ∷ []
    else []

-- `gpio_set_level` and `led_state` together
abbrev pub show : Bool → Led → Led
show lit x = record x { led_state = lit; gpio_level = lit }

unfoldable pub led_off_state : Call Led → Event → Cmd Led ℤ
led_off_state call e x =
    if eqb_ℤ e.signal sig_entry
    then some (pos 0, show false x)
    else if eqb_ℤ e.signal sig_exit
    then some (pos 0, x)
    else if eqb_ℤ e.signal sig_button_press
    then (state_transit led_active call led_on >> pure (pos 0)) x
    else if eqb_ℤ e.signal sig_toggle_led
    then (state_transit led_active call led_on >> pure (pos 0)) x
    else (state_super led_active call no_parent e >> pure (pos 0)) x

unfoldable pub led_on_state : Call Led → Event → Cmd Led ℤ
led_on_state call e x =
    if eqb_ℤ e.signal sig_entry
    then some (pos 0, show true x)
    else if eqb_ℤ e.signal sig_exit
    then some (pos 0, x)
    else if eqb_ℤ e.signal sig_button_press
    then (state_transit led_active call led_blinking >> pure (pos 0)) x
    else if eqb_ℤ e.signal sig_toggle_led
    then (state_transit led_active call led_off >> pure (pos 0)) x
    else (state_super led_active call no_parent e >> pure (pos 0)) x

abbrev to_active : Option OsaHsm → Led → Led
to_active none x = x
to_active (some h) x = record x { active = h }

-- `created n` and `stopped n` are what the calls after the first `n` of osa_timer_create and
-- osa_timer_stop return.
module _ (created : ℕ → ℤ × Ptr) (stopped : ℕ → ℤ) where
  -- `osa_hsm_active_period(&hsm->active, period)`
  unfoldable pub led_period : ℕ → Led → Led
  unfolding set_period
  led_period period x =
      let (c, h) = set_period (some (x.active)) period (created x.starts) (stopped x.stops) in
      let y = to_active h x in
      if period == 0 then record y { stops = x.stops + 1 } else record y { starts = x.starts + 1 }

  unfoldable pub led_blinking_state : Call Led → Event → Cmd Led ℤ
  led_blinking_state call e x =
      if eqb_ℤ e.signal sig_entry
      then some (pos 0, led_period 500 x)
      else if eqb_ℤ e.signal sig_exit
      then some (pos 0, led_period 0 x)
      else if eqb_ℤ e.signal sig_period
      then some (pos 0, show (not x.led_state) x)
      else if eqb_ℤ e.signal sig_button_press
      then (state_transit led_active call led_off >> pure (pos 0)) x
      else (state_super led_active call no_parent e >> pure (pos 0)) x

  -- The three states. There is no state at another address: nothing comes back from there.
  unfoldable pub led_handler : Ptr → Call Led → Event → Cmd Led ℤ
  led_handler s =
      if s == led_off
      then led_off_state
      else if s == led_on
      then led_on_state
      else if s == led_blinking
      then led_blinking_state
      else λ call e x. none

  abbrev pub led_chart : Chart Led
  led_chart s = record { handler = led_handler s; parent = no_parent s; name = led_name s }
