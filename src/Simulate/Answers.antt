-- ===== src/Simulate/Answers.antt =====
-- What a machine of examples/linux/hsm_simulate.c that is in `working` does with a SEND.
use open_hsm.Base.{
  ℕ, suc, ◌+◌, ◌%◌, ◌<◌, ◌≡◌, refl, ap, ◌∙◌, true, false, Option, none, some, List, [], ◌∷◌, ◌++◌,
  length, ◌==◌, if◌then◌else◌, ℤ, pos, Ptr,
}
use open_hsm.Queue.{Wake, returned}
use open_hsm.Hsm.{Event, event_of, invoke, ◌>>◌, pure}
use open_hsm.OsaHsm.{OsaHsm, Layout, event_post, Next, continues}
use open_hsm.OsaHsm.Post.{Inbox, posted, event_post-room}
use open_hsm.Simulate.{
  Simulate, simulate_chart, simulate_handler, simulate_working_state,
  simulate_working_state_handler, do_send, post_idle, sig_send, sig_recv, sig_idle,
}

abbrev pub state_of : Simulate → Ptr
state_of x = x.super.super.current

-- `own` waits for the machine, `theirs` for its watcher, each in an open queue for `cap` events.
pub record Talking (lay : Layout) (cap : ℕ) (x : Simulate) (own theirs : List Event) : Type 0 where
  pub inbox : Inbox lay cap x.super.msg_q own
  pub peer : OsaHsm
  pub watches : x.watcher ≡ some peer
  pub outbox : Inbox lay cap peer.msg_q theirs

abbrev pub as_answer : {A B : Type 0} → B → Option (A × Simulate) → Option (B × Simulate)
as_answer b o = elim o [ none ↦ none | some (a, y) ↦ some (b, y) ]

module _ (lay : Layout) (cap : ℕ) (there here : List Wake) (stopped : ℤ) where
  module _ (x : Simulate) (own theirs : List Event) (t : Talking lay cap x own theirs)
      (room : length theirs < cap) where
    open t use {inbox, peer, watches, outbox}

    -- The watcher once it has been sent a signal.
    abbrev pub told : ℤ → Option OsaHsm
    told signal = some (posted lay cap peer theirs outbox (event_of signal) 5 there)

    -- The machine once it has answered a SEND.
    abbrev pub answered : Simulate
    answered = record x { watcher = told sig_recv; send_cnt = x.send_cnt + 1 }

    pub answered-Talking : Talking lay cap answered own (theirs ++ event_of sig_recv ∷ [])
    answered-Talking = record {
      inbox = inbox;
      peer = posted lay cap peer theirs outbox (event_of sig_recv) 5 there;
      watches = refl;
      outbox = (event_post-room lay cap peer theirs outbox (event_of sig_recv) 5 there room).1;
    }

    -- The watcher is sent a signal.
    pub told_lem :
        (signal : ℤ)
        → event_post lay x.watcher (some (event_of signal)) 5 there ≡ returned (pos 0, told signal)
    told_lem signal =
        rw watches (event_post-room lay cap peer theirs outbox (event_of signal) 5 there room).0

    do_send-answered : do_send lay there here stopped x ≡ (
        if (x.send_cnt + 1) % 5 == 0
        then post_idle lay there here stopped answered
        else some (pos 0, answered))
    unfolding do_send
    do_send-answered = rw (told_lem sig_recv, do_send) refl

    -- The machine once it has answered a fifth SEND, and posted IDLE to itself.
    abbrev pub calls_idle : Simulate
    calls_idle = record answered {
      super = posted lay cap x.super own inbox (event_of sig_idle) 5 here;
    }

    module _ (f : ℕ) where
      abbrev pub run_send : Option (Next × Simulate)
      run_send =
          (invoke (simulate_chart lay there here stopped) (suc f) simulate_working_state
                (event_of sig_send)
              >> pure continues)
            x

      invoke-send :
          {y : Simulate}
          → do_send lay there here stopped x ≡ some (pos 0, y)
          → run_send ≡ some (continues, y)
      unfolding invoke simulate_handler simulate_working_state_handler
      invoke-send e = ap (λ o. as_answer continues (as_answer (pos 0) o)) e

      pub run_send-answered :
          (((x.send_cnt + 1) % 5 == 0) ≡ false) → run_send ≡ some (continues, answered)
      run_send-answered not_fifth = invoke-send (do_send-answered ∙ rw not_fifth refl)

      posts :
          event_post lay (some (x.super)) (some (event_of sig_idle)) 5 here
            ≡ returned (pos 0, some (calls_idle.super))
          → post_idle lay there here stopped answered ≡ some (pos 0, calls_idle)
      unfolding post_idle
      posts e = rw (e, post_idle) refl

      pub run_send-calls_idle :
          (((x.send_cnt + 1) % 5 == 0) ≡ true)
          → length own < cap
          → (run_send ≡ some (continues, calls_idle))
            × Talking lay cap calls_idle
                (own ++ event_of sig_idle ∷ [])
                (theirs ++ event_of sig_recv ∷ [])
      unfolding answered-Talking
      run_send-calls_idle fifth own_room =
          let (e, b) =
            event_post-room lay cap x.super own inbox (event_of sig_idle) 5 here own_room in
          (
            invoke-send (do_send-answered ∙ rw fifth (posts e)),
            record { inbox = b; peer = _; watches = refl; outbox = answered-Talking.outbox },
          )
