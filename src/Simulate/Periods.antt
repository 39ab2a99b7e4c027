-- ===== src/Simulate/Periods.antt =====
-- The ticks of the timer of a machine of examples/linux/hsm_simulate.c.
use mathlib.Core.List.{append_assoc}
use open_hsm.Base.{
  ℕ, zero, suc, ◌+◌, ◌<◌, ◌≡◌, refl, ap, ◌∙◌, subst, inl, inr, Bool-cases, some, List, [], ◌∷◌,
  ◌++◌, length, length-append, replicate, ltb, if◌then◌else◌, arith, ℤ, pos,
}
use open_hsm.Queue.{Wake}
use open_hsm.Hsm.{Event, event_of, sig_period, invoke, ◌>>◌, pure}
use open_hsm.OsaHsm.{Layout, continues, set_period}
use open_hsm.OsaHsm.Post.{posted, event_post-room}
use open_hsm.Simulate.{
  Simulate, simulate_chart, simulate_handler, simulate_working_state,
  simulate_working_state_handler, do_period, sig_send,
}
use open_hsm.Simulate.Answers.{Talking, state_of, told, told_lem, as_answer}
use open_hsm.Simulate.Rounds.{one_round, taken, taken-Talking, round_at}
use open_hsm.Simulate.Sends.{rounds, rounds-some}

module _ (lay : Layout) (cap : ℕ) (there here : List Wake) (stopped : ℤ) where
  -- The timer's period after a tick that finds the counter at `cnt`.
  abbrev tick_after : ℕ → ℕ → ℕ
  tick_after cnt tick = if ltb 10 cnt then 0 else tick

  module _ (x : Simulate) (own theirs : List Event) (t : Talking lay cap x own theirs)
      (room : length theirs < cap) where
    -- The machine once it has told its watcher of a tick.
    abbrev ticked : Simulate
    ticked = record x {
      super = record (x.super) { tick_period = tick_after x.cnt x.super.tick_period };
      watcher = told lay cap there here stopped x own theirs t room sig_send;
      cnt = x.cnt + 1;
    }

    ticked-Talking : Talking lay cap ticked own (theirs ++ event_of sig_send ∷ [])
    ticked-Talking = record {
      inbox = t.inbox;
      peer = posted lay cap t.peer theirs t.outbox (event_of sig_send) 5 there;
      watches = refl;
      outbox = (event_post-room lay cap t.peer theirs t.outbox (event_of sig_send) 5 there room).1;
    }

    do_period-ticked : (r : ℤ) × (do_period lay there here stopped x ≡ some (r, ticked))
    unfolding set_period do_period
    do_period-ticked = elim (Bool-cases (ltb 10 x.cnt)) [
      | inl late ↦ (
        stopped,
        rw (told_lem lay cap there here stopped x own theirs t room sig_send, do_period, late) refl,
      )
      | inr early ↦ (
        pos 0,
        rw (told_lem lay cap there here stopped x own theirs t room sig_send, do_period, early)
            refl,
      )
    ]

  invoke-period :
      (f : ℕ) (x y : Simulate) {r : ℤ}
      → do_period lay there here stopped x ≡ some (r, y)
      → (invoke
              (simulate_chart lay there here stopped)
              (suc f)
              simulate_working_state
              (event_of sig_period)
            >> pure continues)
          x
        ≡ some (continues, y)
  unfolding invoke simulate_handler simulate_working_state_handler
  invoke-period f x y e = ap (λ o. as_answer continues (as_answer (pos 0) o)) e

  module _ (f : ℕ) where
    working-period :
        (x : Simulate) (own theirs : List Event) (ws : List Wake)
        (t : Talking lay cap x (event_of sig_period ∷ own) theirs)
        → state_of x ≡ simulate_working_state
        → length theirs < cap
        → (y : Simulate) × (one_round lay cap there here stopped f x
              (event_of sig_period)
              own
              theirs
              ws
              t
            ≡ some (continues, y))
          × (state_of y ≡ simulate_working_state)
          × (y.cnt ≡ x.cnt + 1)
          × (y.super.tick_period ≡ tick_after x.cnt x.super.tick_period)
          × Talking lay cap y own (theirs ++ event_of sig_send ∷ [])
    working-period x own theirs ws t at room =
        let z = taken lay cap there here stopped f x (event_of sig_period) own theirs ws t in
        let t' =
          taken-Talking lay cap there here stopped f x (event_of sig_period) own theirs ws t in
        let (r, e) = do_period-ticked z own theirs t' room in
        (
          ticked z own theirs t' room,
          round_at lay cap there here stopped f x (event_of sig_period) own theirs ws t
                simulate_working_state at
              ∙ invoke-period (suc f) z (ticked z own theirs t' room) e,
          at,
          refl,
          refl,
          ticked-Talking z own theirs t' room,
        )

    -- Let ticks of the timer be at the head of the queue of a machine in `working`, and its
    -- watcher's queue have room for as many events. Rounds for all of the ticks leave the machine in
    -- `working`, with the ticks counted and a SEND for each behind its watcher's events; if more than
    -- ten were counted before the last of them then its period is 0, else it is unchanged.
    pub ticks_to_sends :
        (n : ℕ) (own theirs : List Event) (x : Simulate) (wss : List (List Wake))
        → state_of x ≡ simulate_working_state
        → Talking lay cap x (replicate (suc n) (event_of sig_period) ++ own) theirs
        → length theirs + n < cap
        → length wss ≡ suc n
        → (y : Simulate) × (rounds lay cap there here stopped f wss x ≡ some (continues, y))
          × (state_of y ≡ simulate_working_state)
          × (y.cnt ≡ x.cnt + suc n)
          × (y.super.tick_period ≡ tick_after (x.cnt + n) x.super.tick_period)
          × Talking lay cap y own (theirs ++ replicate (suc n) (event_of sig_send))
    unfolding rounds
    ticks_to_sends n own theirs x [] at t room e = absurd (omega (arith, e))
    ticks_to_sends zero own theirs x (ws ∷ v ∷ wss) at t room e = absurd (omega (arith, e))
    ticks_to_sends zero own theirs x (ws ∷ []) at t room e =
        let (y, run, a, c, k, t') = working-period x own theirs ws t at (omega (arith, room)) in
        (y, rounds-some lay cap there here stopped f ws x [] run, a, c, ground (arith, k), t')
    ticks_to_sends (suc n) own theirs x (ws ∷ wss) at t room e =
        let (z, run, a, c, k, t') =
          working-period x (replicate (suc n) (event_of sig_period) ++ own) theirs ws t at
            (omega (arith, room)) in
        let (y, run', b, c', k', t'') =
          ticks_to_sends n own (theirs ++ event_of sig_send ∷ []) z wss a t'
            (omega (arith, room, length-append theirs (event_of sig_send ∷ [])))
            (omega (arith, e)) in
        (
          y,
          rounds-some lay cap there here stopped f ws x wss run ∙ run',
          b,
          omega (arith, c, c'),
          ground (arith, c, k, k'),
          subst (λ (es : List Event). Talking lay cap y own es)
              (append_assoc theirs (event_of sig_send ∷ []) (replicate (suc n) (event_of sig_send)))
              t'',
        )
