-- ===== src/Led/Tests.antt =====
-- A run of the LED's machine.
use open_hsm.Base.{ℕ, ◌≡◌, refl, false, some, none, List, [], ◌∷◌, ℤ, pos, Ptr, null}
use open_hsm.Hsm.{Event, event_of, sig_period}
use open_hsm.Led.{Led, led_off, sig_button_press, sig_toggle_led}
use open_hsm.Led.Lamp.{Shows, Lamp, off, Posted, lamp_run}
use open_hsm.Led.Refine.{led_run, led_run-lamp_run}

abbrev dark : Led
dark = record {
  active = record {
    super = record { error = pos 0; current = led_off; history = led_off };
    name = none;
    task_ref = 70;
    msg_q = none;
    msg_q_size = pos 10;
    timer_id = null;
    tick_period = 0;
  };
  led_state = false;
  gpio_level = false;
  starts = 0;
  stops = 0;
}

abbrev dark_lamp : Lamp
dark_lamp = record { mode = off; lit = false; timers = 0 }

-- To the blinking mode, two ticks, and back.
abbrev evening : List Event
evening =
    event_of sig_toggle_led
    ∷ event_of sig_button_press
    ∷ event_of sig_period
    ∷ event_of sig_period
    ∷ event_of sig_button_press
    ∷ []

evening-Posted : Posted evening
unfolding Posted
evening-Posted = (refl, refl, (refl, refl, (refl, refl, (refl, refl, (refl, refl, tt)))))

abbrev created : ℕ → ℤ × Ptr
created n = (pos 0, 90)

abbrev stopped : ℕ → ℤ
stopped n = pos 0

led_run-lamp_run_example :
    (y : Led) × (led_run created stopped 0 evening dark ≡ some (pos 0, y))
    × Shows (lamp_run evening dark_lamp) y
led_run-lamp_run_example =
    led_run-lamp_run created stopped 0 evening dark_lamp dark evening-Posted (record {
      in_mode = refl;
      state_lit = refl;
      pin_lit = refl;
      started = refl;
      none_stopped = refl;
    })
