-- ===== src/Simulate.antt =====
-- examples/linux/hsm_simulate.c: two machines that post events to each other.
--
-- A handler runs on the state of one machine, beside the `struct osa_hsm_active` that its `watcher`
-- points to, which is another one than its own. The log is left out.
pub mod Answers
pub mod Rounds
pub mod Sends
pub mod Periods
pub mod Start
mod Tests
use Prim.Native.String.{String}
use open_hsm.Base.{
  ℕ, zero, suc, ◌+◌, ◌%◌, Bool, true, false, Option, none, some, List, [], ◌∷◌, ltb, ◌==◌,
  if◌then◌else◌, ℤ, pos, negsuc, eqb_ℤ, Ptr, null,
}
use open_hsm.Queue.{Wake, Outcome, returned, blocked}
use open_hsm.Hsm.{
  Event, Embeds, Cmd, Call, Chart, event_of, sig_entry, sig_period, ◌>>◌, pure, state_transit,
  state_error,
}
use open_hsm.OsaHsm.{
  OsaHsm, EmbedsHsm, embeds, Layout, sig_str, active_init, active_start, set_period, event_post,
}

-- `enum em_simulate_signal_e`, without the unused SIMULATE_SIG_NONE
abbrev pub sig_send : ℤ
sig_send = pos 5

abbrev pub sig_recv : ℤ
sig_recv = pos 6

abbrev pub sig_idle : ℤ
sig_idle = pos 7

abbrev sig_max : ℕ
sig_max = 8

-- `struct hsm_simulate`. Its counters are `int`s, which start at 0: before 2 ^ 31 they are these.
pub record Simulate : Type 0 where
  pub super : OsaHsm
  pub watcher : Option OsaHsm
  pub cnt : ℕ
  pub send_cnt : ℕ

abbrev pub simulate_hsm : EmbedsHsm Simulate
simulate_hsm = record { hsm = λ x. x.super; with_hsm = λ h x. record x { super = h } }

abbrev pub simulate_active : Embeds Simulate
simulate_active = embeds simulate_hsm

-- The addresses of the states.
abbrev pub simulate_init_state : Ptr
simulate_init_state = 1

abbrev pub simulate_working_state : Ptr
simulate_working_state = 2

abbrev pub simulate_idle_state : Ptr
simulate_idle_state = 3

-- `hsm_sig_str`, with `none` for a read in front of the table.
unfoldable pub hsm_sig_str : ℤ → Option String
unfolding sig_str
hsm_sig_str (negsuc n) = none
hsm_sig_str (pos n) =
    if ltb n sig_max
    then (if n == 5
        then some "send"
        else if n == 6
        then some "recv"
        else if n == 7
        then some "idle"
        else sig_str (pos n))
    else some "unknown"

-- `simulate_init_state_handler`, the same for each event
unfoldable pub simulate_init_state_handler : Call Simulate → Event → Cmd Simulate ℤ
simulate_init_state_handler call e x =
    (state_transit simulate_active call simulate_working_state >> state_error simulate_active call)
      (record x { cnt = 0 })

-- The events that the code posts have no data, and wait 5 milliseconds for room.
abbrev post : Layout → List Wake → ℤ → Option OsaHsm → Outcome (ℤ × Option OsaHsm)
post lay ws signal h = event_post lay h (some (event_of signal)) 5 ws

abbrev to_super : Option OsaHsm → Simulate → Simulate
to_super none x = x
to_super (some h) x = record x { super = h }

-- `there` and `here` are what a wait for room in the watcher's queue and in the machine's own finds,
-- `stopped` is what `osa_timer_stop` returns. A call ends in `none` where a post still waits.
module _ (lay : Layout) (there here : List Wake) (stopped : ℤ) where
  unfoldable pub do_period : Cmd Simulate ℤ
  unfolding set_period
  do_period x = elim (post lay there sig_send x.watcher) [
    | blocked ↦ none
    | returned (c, w) ↦
        let y = record x { watcher = w; cnt = x.cnt + 1 } in
        let (ret, h) = set_period (some (x.super)) 0 (pos 0, null) stopped in
        if ltb 10 x.cnt then some (ret, to_super h y) else some (c, y)
  ]

  -- The post of SIMULATE_SIG_IDLE to the machine itself.
  unfoldable pub post_idle : Cmd Simulate ℤ
  post_idle x = elim (post lay here sig_idle (some (x.super))) [
    | blocked ↦ none
    | returned (c, h) ↦ some (c, to_super h x)
  ]

  unfoldable pub do_send : Cmd Simulate ℤ
  do_send x = elim (post lay there sig_recv x.watcher) [
    | blocked ↦ none
    | returned (c, w) ↦
        let y = record x { watcher = w; send_cnt = x.send_cnt + 1 } in
        if y.send_cnt % 5 == 0 then post_idle y else some (c, y)
  ]

  -- `simulate_working_state_handler`, which drops what `do_period` and `do_send` return
  unfoldable pub simulate_working_state_handler : Call Simulate → Event → Cmd Simulate ℤ
  simulate_working_state_handler call e x =
      if eqb_ℤ e.signal sig_period
      then (do_period >> pure (pos 0)) x
      else if eqb_ℤ e.signal sig_send
      then (do_send >> pure (pos 0)) x
      else if eqb_ℤ e.signal sig_idle
      then (state_transit simulate_active call simulate_idle_state
            >> state_error simulate_active call)
          x
      else some (pos 0, x)

  -- `simulate_state_idle_handler`
  unfoldable pub simulate_state_idle_handler : Call Simulate → Event → Cmd Simulate ℤ
  simulate_state_idle_handler call e x = some (pos 0, x)

  -- The three states. There is no state at another address: nothing comes back from there.
  unfoldable pub simulate_handler : Ptr → Call Simulate → Event → Cmd Simulate ℤ
  simulate_handler s =
      if s == simulate_init_state
      then simulate_init_state_handler
      else if s == simulate_working_state
      then simulate_working_state_handler
      else if s == simulate_idle_state
      then simulate_state_idle_handler
      else λ call e x. none

  abbrev state_name : Ptr → List ℕ
  state_name s =
      if s == simulate_init_state
      then 105 ∷ 110 ∷ 105 ∷ 116 ∷ []
      else if s == simulate_working_state
      then 119 ∷ 111 ∷ 114 ∷ 107 ∷ 105 ∷ 110 ∷ 103 ∷ []
      else if s == simulate_idle_state
      then 105 ∷ 100 ∷ 108 ∷ 101 ∷ []
      else []

  abbrev pub simulate_chart : Chart Simulate
  simulate_chart s = record { handler = simulate_handler s; parent = null; name = state_name s }

-- `simulate_event_post`, with the signal and the payload of the event
unfoldable pub simulate_event_post :
    Layout → Simulate → ℤ → Ptr → List Wake → Outcome (ℤ × Option OsaHsm)
unfolding event_post
simulate_event_post lay x signal payload ws =
    event_post lay (some (x.super)) (some (record (event_of signal) { payload = payload })) 5 ws

-- `simulate_create`: `created` is what the creation of the thread returns, which is not looked at.
unfoldable pub simulate_create : (created : ℤ × Ptr) → Simulate → ℤ × Simulate
unfolding active_init active_start
simulate_create created x =
    let (c, h) = active_init x.super simulate_init_state in
    let (d, started) = active_start (some h) (pos 20) created in (pos 0, to_super started x)
