-- ===== src/Led/Lamp.antt =====
-- An automaton of three modes for the LED's machine, and how the machine shows it.
use open_hsm.Base.{
  ℕ, ◌+◌, ◌≡◌, refl, Bool, true, false, ◌||◌, not, List, [], ◌∷◌, if◌then◌else◌, ℤ, pos, eqb_ℤ, Ptr,
}
use open_hsm.Hsm.{Event, sig_entry, sig_exit, sig_period}
use open_hsm.Led.{Led, led_off, led_on, led_blinking, show, sig_button_press, sig_toggle_led}

-- What a user sees: the mode, whether the LED is lit, and how many timers have been started.
pub data Mode : Type 0 where
  off : Mode
  steady : Mode
  blinking : Mode

pub record Lamp : Type 0 where
  pub mode : Mode
  pub lit : Bool
  pub timers : ℕ

-- The button goes through the three modes, a toggle switches, a tick blinks.
unfoldable pub lamp_step : ℤ → Lamp → Lamp
lamp_step s l = elim l.mode [
  | off ↦
      if eqb_ℤ s sig_button_press || eqb_ℤ s sig_toggle_led
      then record l { mode = steady; lit = true }
      else l
  | steady ↦
      if eqb_ℤ s sig_button_press
      then record l { mode = blinking; timers = l.timers + 1 }
      else if eqb_ℤ s sig_toggle_led
      then record l { mode = off; lit = false }
      else l
  | blinking ↦
      if eqb_ℤ s sig_period
      then record l { lit = not l.lit }
      else if eqb_ℤ s sig_button_press
      then record l { mode = off; lit = false }
      else l
]

unfoldable pub lamp_run : List Event → Lamp → Lamp
lamp_run [] l = l
lamp_run (e ∷ es) l = lamp_run es (lamp_step e.signal l)

-- No event is ENTRY or EXIT.
unfoldable pub Posted : List Event → Type 0
Posted [] = Unit {0}
Posted (e ∷ es) = (eqb_ℤ e.signal sig_entry ≡ false) × (eqb_ℤ e.signal sig_exit ≡ false) × Posted es

abbrev pub address : Mode → Ptr
address off = led_off
address steady = led_on
address blinking = led_blinking

-- The machine `x` shows the lamp `l`, its LED is lit as it says, and no call stops a timer.
pub record Shows (l : Lamp) (x : Led) : Type 0 where
  pub in_mode : x.active.super.current ≡ address l.mode
  pub state_lit : x.led_state ≡ l.lit
  pub pin_lit : x.gpio_level ≡ l.lit
  pub started : x.starts ≡ l.timers
  pub none_stopped : x.stops ≡ 0

-- The machine after a transition to `s`, without what ENTRY does there.
abbrev pub entered : Ptr → Led → Led
entered s x = record x {
  active = record (x.active) {
    super = record { error = pos 0; current = s; history = x.active.super.current };
  };
}

pub entered-Shows :
    {l : Lamp} {x : Led}
    → Shows l x
    → (m : Mode) (b : Bool)
    → Shows (record l { mode = m; lit = b }) (show b (entered (address m) x))
entered-Shows s m b = record {
  in_mode = refl;
  state_lit = refl;
  pin_lit = refl;
  started = s.started;
  none_stopped = s.none_stopped;
}
