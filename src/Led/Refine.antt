-- ===== src/Led/Refine.antt =====
-- The LED's machine against an automaton of three states.
use open_hsm.Base.{
  ℕ, suc, ◌+◌, ◌≡◌, refl, ap, ◌∙◌, inl, inr, Bool, true, false, Bool-cases, not, Option, none, some,
  List, [], ◌∷◌, ℤ, pos, eqb_ℤ, Ptr,
}
use open_hsm.Hsm.{
  Call, Cmd, Event, sig_entry, sig_exit, sig_period, invoke, state_transit, state_super, state_init,
  ◌>>◌, pure,
}
use open_hsm.OsaHsm.{set_period}
use open_hsm.Led.{
  Led, led_off, led_on, led_blinking, led_chart, led_handler, led_off_state, led_on_state,
  led_blinking_state, led_period, led_active, no_parent, show, sig_button_press, sig_toggle_led,
}
use open_hsm.Led.Lamp.{
  Mode, off, steady, blinking, Lamp, lamp_step, lamp_run, Posted, Shows, entered, entered-Shows,
}

module _ (created : ℕ → ℤ × Ptr) (stopped : ℕ → ℤ) (f : ℕ) where
  abbrev call : Call Led
  call = invoke (led_chart created stopped) (suc f)

  to_off :
      (x : Led)
      → (state_transit led_active call led_off >> pure (pos 0)) x
        ≡ some (pos 0, show false (entered led_off x))
  unfolding state_transit state_init invoke led_handler led_off_state
  to_off x = refl

  to_on :
      (x : Led)
      → (state_transit led_active call led_on >> pure (pos 0)) x
        ≡ some (pos 0, show true (entered led_on x))
  unfolding state_transit state_init invoke led_handler led_on_state
  to_on x = refl

  to_blinking :
      (x : Led)
      → (state_transit led_active call led_blinking >> pure (pos 0)) x
        ≡ some (pos 0, led_period created stopped 500 (entered led_blinking x))
  unfolding state_transit state_init invoke led_handler led_blinking_state led_period
  to_blinking x = refl

  to_parent :
      (e : Event) (x : Led)
      → (state_super led_active call no_parent e >> pure (pos 0)) x ≡ some (pos 0, x)
  unfolding state_super
  to_parent e x = refl

  blinking-Shows :
      {l : Lamp} {x : Led}
      → Shows l x
      → Shows
          (record l { mode = blinking; timers = l.timers + 1 })
          (led_period created stopped 500 (entered led_blinking x))
  unfolding led_period set_period
  blinking-Shows s = record {
    in_mode = refl;
    state_lit = s.state_lit;
    pin_lit = s.pin_lit;
    started = ap (λ n. n + 1) s.started;
    none_stopped = s.none_stopped;
  }

  -- An event reaches the current state.
  unfoldable pub led_dispatch : Event → Cmd Led ℤ
  led_dispatch e x = invoke (led_chart created stopped) (suc (suc f)) x.active.super.current e x

  module _ (e : Event) (x : Led) (lit : Bool) (n : ℕ) (not_entry : eqb_ℤ e.signal sig_entry ≡ false)
      (not_exit : eqb_ℤ e.signal sig_exit ≡ false) where
    abbrev lamp : Mode → Lamp
    lamp m = record { mode = m; lit = lit; timers = n }

    -- The handler's answer to the event in mode `m`.
    abbrev Answers : Mode → Option (ℤ × Led) → Type 0
    Answers m o = (y : Led) × (o ≡ some (pos 0, y)) × Shows (lamp_step e.signal (lamp m)) y

    off_lem : Shows (lamp off) x → Answers off (led_off_state call e x)
    unfolding led_off_state lamp_step
    off_lem s = elim (Bool-cases (eqb_ℤ e.signal sig_button_press)) [
      | inl b ↦ (
        show true (entered led_on x),
        rw (not_entry, not_exit, b) (to_on x),
        rw b (entered-Shows s steady true),
      )
      | inr nb ↦ elim (Bool-cases (eqb_ℤ e.signal sig_toggle_led)) [
        | inl t ↦ (
          show true (entered led_on x),
          rw (not_entry, not_exit, nb, t) (to_on x),
          rw (nb, t) (entered-Shows s steady true),
        )
        | inr nt ↦ (x, rw (not_entry, not_exit, nb, nt) (to_parent e x), rw (nb, nt) s)
      ]
    ]

    steady_lem : Shows (lamp steady) x → Answers steady (led_on_state call e x)
    unfolding led_on_state lamp_step
    steady_lem s = elim (Bool-cases (eqb_ℤ e.signal sig_button_press)) [
      | inl b ↦ (
        led_period created stopped 500 (entered led_blinking x),
        rw (not_entry, not_exit, b) (to_blinking x),
        rw b (blinking-Shows s),
      )
      | inr nb ↦ elim (Bool-cases (eqb_ℤ e.signal sig_toggle_led)) [
        | inl t ↦ (
          show false (entered led_off x),
          rw (not_entry, not_exit, nb, t) (to_off x),
          rw (nb, t) (entered-Shows s off false),
        )
        | inr nt ↦ (x, rw (not_entry, not_exit, nb, nt) (to_parent e x), rw (nb, nt) s)
      ]
    ]

    blinking_lem :
        Shows (lamp blinking) x → Answers blinking (led_blinking_state created stopped call e x)
    unfolding led_blinking_state lamp_step
    blinking_lem s = elim (Bool-cases (eqb_ℤ e.signal sig_period)) [
      | inl p ↦ (
        show (not x.led_state) x,
        rw (not_entry, not_exit, p) refl,
        rw p (record {
          in_mode = s.in_mode;
          state_lit = ap not s.state_lit;
          pin_lit = ap not s.state_lit;
          started = s.started;
          none_stopped = s.none_stopped;
        }),
      )
      | inr np ↦ elim (Bool-cases (eqb_ℤ e.signal sig_button_press)) [
        | inl b ↦ (
          show false (entered led_off x),
          rw (not_entry, not_exit, np, b) (to_off x),
          rw (np, b) (entered-Shows s off false),
        )
        | inr nb ↦ (x, rw (not_entry, not_exit, np, nb) (to_parent e x), rw (np, nb) s)
      ]
    ]

    dispatch-at :
        (s : Ptr)
        → x.active.super.current ≡ s
        → led_dispatch e x ≡ led_handler created stopped s call e x
    unfolding led_dispatch invoke
    dispatch-at s at = ap (λ p. led_handler created stopped p call e x) at

    dispatch-Shows : (m : Mode) → Shows (lamp m) x → Answers m (led_dispatch e x)
    unfolding led_handler
    dispatch-Shows off s = let (y, r, t) = off_lem s in (y, dispatch-at led_off s.in_mode ∙ r, t)
    dispatch-Shows steady s =
        let (y, r, t) = steady_lem s in (y, dispatch-at led_on s.in_mode ∙ r, t)
    dispatch-Shows blinking s =
        let (y, r, t) = blinking_lem s in (y, dispatch-at led_blinking s.in_mode ∙ r, t)

  unfoldable pub led_run : List Event → Cmd Led ℤ
  led_run [] = pure (pos 0)
  led_run (e ∷ es) = let rest = led_run es in led_dispatch e >> rest

  abbrev go_on : List Event → Option (ℤ × Led) → Option (ℤ × Led)
  go_on es o = elim o [ none ↦ none | some (a, y) ↦ led_run es y ]

  led_run-some :
      (e : Event) (es : List Event) (x : Led) {y : Led}
      → led_dispatch e x ≡ some (pos 0, y)
      → led_run (e ∷ es) x ≡ led_run es y
  unfolding led_run
  led_run-some e es x r = ap (λ o. go_on es o) r

  -- Let a machine that shows an automaton of three modes, and has stopped no timer, take any events
  -- whose signals are not ENTRY or EXIT. It ends without an error, in the mode and with the light that
  -- the automaton has after these events, having started a timer each time that this has entered
  -- `blinking`, and having stopped none.
  pub led_run-lamp_run :
      (es : List Event) (l : Lamp) (x : Led)
      → Posted es
      → Shows l x
      → (y : Led) × (led_run es x ≡ some (pos 0, y)) × Shows (lamp_run es l) y
  unfolding led_run lamp_run Posted
  led_run-lamp_run [] l x ps s = (x, refl, s)
  led_run-lamp_run (e ∷ es) l x (not_entry, not_exit, ps) s =
      let (y, r, t) = dispatch-Shows e x l.lit l.timers not_entry not_exit l.mode s in
      let (z, r', t') = led_run-lamp_run es (lamp_step e.signal l) y ps t in
      (z, led_run-some e es x r ∙ r', t')
