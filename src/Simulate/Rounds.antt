-- ===== src/Simulate/Rounds.antt =====
-- One round of a machine of examples/linux/hsm_simulate.c: the oldest event that waits for it.
use open_hsm.Base.{
  ℕ, suc, ◌+◌, ◌%◌, ◌<◌, ◌≡◌, refl, ap, ◌∙◌, true, false, Option, some, List, [], ◌∷◌, ◌++◌, length,
  ◌==◌, arith, ℤ, Ptr,
}
use open_hsm.Queue.{Wake}
use open_hsm.Hsm.{Event, event_of, invoke, state_transit, state_error, state_init, ◌>>◌, pure}
use open_hsm.OsaHsm.{Layout, Next, continues, run_round}
use open_hsm.OsaHsm.Post.{count-Inbox}
use open_hsm.OsaHsm.Dispatch.{received, run_round_lem}
use open_hsm.Simulate.{
  Simulate, simulate_hsm, simulate_chart, simulate_handler, simulate_working_state,
  simulate_idle_state, simulate_working_state_handler, simulate_state_idle_handler, sig_send,
  sig_recv, sig_idle,
}
use open_hsm.Simulate.Answers.{
  state_of, Talking, answered, answered-Talking, calls_idle, run_send-answered, run_send-calls_idle,
}

module _ (lay : Layout) (cap : ℕ) (there here : List Wake) (stopped : ℤ) where
  module _ (f : ℕ) (x : Simulate) (e : Event) (own theirs : List Event) (ws : List Wake)
      (t : Talking lay cap x (e ∷ own) theirs) where
    abbrev pub one_round : Option (Next × Simulate)
    one_round =
        run_round simulate_hsm lay (simulate_chart lay there here stopped) (suc (suc f)) ws x

    -- The machine once it has received the event.
    abbrev pub taken : Simulate
    taken =
        received simulate_hsm lay (simulate_chart lay there here stopped) (suc (suc f))
          t.inbox.queue x

    pub taken-Talking : Talking lay cap taken own theirs
    taken-Talking = record {
      inbox =
          (run_round_lem simulate_hsm lay (simulate_chart lay there here stopped) (suc (suc f)) cap
            x e own ws t.inbox).1;
      peer = t.peer;
      watches = t.watches;
      outbox = t.outbox;
    }

    -- The round in a known state.
    pub round_at :
        (s : Ptr)
        → state_of x ≡ s
        → one_round
          ≡ (invoke (simulate_chart lay there here stopped) (suc (suc f)) s e >> pure continues)
              taken
    round_at s at =
        (run_round_lem simulate_hsm lay (simulate_chart lay there here stopped) (suc (suc f)) cap x
          e own ws t.inbox).0
        ∙ ap
            (λ s.
              (invoke (simulate_chart lay there here stopped) (suc (suc f)) s e >> pure continues)
                taken)
            at

    own_room : length own < cap
    own_room =
        omega (
          arith,
          count-Inbox lay cap t.inbox,
          t.inbox.is_open.valid.count_in,
          t.inbox.is_open.capped,
        )

    -- In `idle` an event is taken, and nothing else happens.
    pub idle_round : state_of x ≡ simulate_idle_state → one_round ≡ some (continues, taken)
    unfolding invoke simulate_handler simulate_state_idle_handler
    idle_round at = round_at simulate_idle_state at

  module _ (f : ℕ) (x : Simulate) (own theirs : List Event) (ws : List Wake) where
    -- IDLE in `working` moves the machine to `idle`.
    pub working-idle :
        (t : Talking lay cap x (event_of sig_idle ∷ own) theirs)
        → state_of x ≡ simulate_working_state
        → (y : Simulate) × (one_round f x (event_of sig_idle) own theirs ws t ≡ some (continues, y))
          × (state_of y ≡ simulate_idle_state)
          × (y.send_cnt ≡ x.send_cnt)
          × Talking lay cap y own theirs
    unfolding invoke simulate_handler simulate_working_state_handler simulate_state_idle_handler
        state_transit state_error state_init taken-Talking
    working-idle t at =
        let t' = taken-Talking f x (event_of sig_idle) own theirs ws t in
        (
          _,
          round_at f x (event_of sig_idle) own theirs ws t simulate_working_state at,
          refl,
          refl,
          record { inbox = t'.inbox; peer = t'.peer; watches = t'.watches; outbox = t'.outbox },
        )

    module _ (t : Talking lay cap x (event_of sig_send ∷ own) theirs)
        (at : state_of x ≡ simulate_working_state) (room : length theirs < cap) where
      pub working-send :
          (((x.send_cnt + 1) % 5 == 0) ≡ false)
          → (y : Simulate) × (one_round f x (event_of sig_send) own theirs ws t
              ≡ some (continues, y))
            × (state_of y ≡ simulate_working_state)
            × (y.send_cnt ≡ x.send_cnt + 1)
            × Talking lay cap y own (theirs ++ event_of sig_recv ∷ [])
      working-send not_fifth =
          let t' = taken-Talking f x (event_of sig_send) own theirs ws t in
          let z = taken f x (event_of sig_send) own theirs ws t in
          (
            answered lay cap there here stopped z own theirs t' room,
            round_at f x (event_of sig_send) own theirs ws t simulate_working_state at
                ∙ run_send-answered lay cap there here stopped z own theirs t' room (suc f)
                    not_fifth,
            at,
            refl,
            answered-Talking lay cap there here stopped z own theirs t' room,
          )

      pub working-fifth_send :
          (((x.send_cnt + 1) % 5 == 0) ≡ true)
          → (y : Simulate) × (one_round f x (event_of sig_send) own theirs ws t
              ≡ some (continues, y))
            × (state_of y ≡ simulate_working_state)
            × (y.send_cnt ≡ x.send_cnt + 1)
            × Talking lay cap y (own ++ event_of sig_idle ∷ []) (theirs ++ event_of sig_recv ∷ [])
      working-fifth_send fifth =
          let t' = taken-Talking f x (event_of sig_send) own theirs ws t in
          let z = taken f x (event_of sig_send) own theirs ws t in
          let (e, t'') =
            run_send-calls_idle lay cap there here stopped z own theirs t' room (suc f) fifth
              (own_room f x (event_of sig_send) own theirs ws t) in
          (
            calls_idle lay cap there here stopped z own theirs t' room,
            round_at f x (event_of sig_send) own theirs ws t simulate_working_state at ∙ e,
            at,
            refl,
            t'',
          )
