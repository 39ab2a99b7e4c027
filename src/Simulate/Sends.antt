-- ===== src/Simulate/Sends.antt =====
-- Runs of a machine of examples/linux/hsm_simulate.c: from `working` to `idle`, and in `idle`.
use mathlib.Core.List.{append_assoc, append-nil}
use open_hsm.Base.{
  subst, length-append, ℕ, zero, suc, ◌+◌, ◌%◌, ◌<◌, ◌≡◌, refl, ap, ◌∙◌, sym, Option, none, some,
  List, [], ◌∷◌, ◌++◌, length, replicate, arith, ℤ,
}
use open_hsm.Queue.{Wake}
use open_hsm.Hsm.{Cmd, Event, event_of, ◌>>=◌, pure}
use open_hsm.OsaHsm.{Layout, Next, continues, exits, sleeps, run_round}
use open_hsm.Simulate.{
  Simulate, simulate_hsm, simulate_chart, simulate_working_state, simulate_idle_state, sig_send,
  sig_recv, sig_idle,
}
use open_hsm.Simulate.Answers.{Talking, state_of}
use open_hsm.Simulate.Rounds.{
  working-send, working-fifth_send, working-idle, idle_round, taken, taken-Talking,
}

module _ (lay : Layout) (cap : ℕ) (there here : List Wake) (stopped : ℤ) (f : ℕ) where
  -- As many rounds as there are lists, which say what the waits for a message find; one
  -- that still waits is the last.
  unfoldable pub rounds : List (List Wake) → Cmd Simulate Next
  rounds [] = pure continues
  rounds (ws ∷ wss) =
      let rest = rounds wss in
      run_round simulate_hsm lay (simulate_chart lay there here stopped) (suc (suc f)) ws
      >>= λ next. elim next [ continues ↦ rest | exits ↦ pure exits | sleeps ↦ pure sleeps ]

  abbrev pub go_on : List (List Wake) → Option (Next × Simulate) → Option (Next × Simulate)
  go_on wss o = elim o [
    | none ↦ none
    | some (continues, y) ↦ rounds wss y
    | some (exits, y) ↦ some (exits, y)
    | some (sleeps, y) ↦ some (sleeps, y)
  ]

  pub rounds-some :
      (ws : List Wake) (x : Simulate) {y : Simulate} (wss : List (List Wake))
      → run_round simulate_hsm lay (simulate_chart lay there here stopped) (suc (suc f)) ws x
        ≡ some (continues, y)
      → rounds (ws ∷ wss) x ≡ rounds wss y
  unfolding rounds
  rounds-some ws x wss e = ap (go_on wss) e

  -- A machine in `idle` takes as many events as there are rounds off its queue, whatever they
  -- are: it stays in `idle`, posts nothing, and counts nothing.
  pub idle_absorbing :
      (es rest theirs : List Event) (x : Simulate) (wss : List (List Wake))
      → state_of x ≡ simulate_idle_state
      → Talking lay cap x (es ++ rest) theirs
      → length wss ≡ length es
      → (y : Simulate) × (rounds wss x ≡ some (continues, y))
        × (state_of y ≡ simulate_idle_state)
        × (y.cnt ≡ x.cnt)
        × (y.send_cnt ≡ x.send_cnt)
        × Talking lay cap y rest theirs
  unfolding rounds
  idle_absorbing [] rest theirs x [] at t e = (x, refl, at, refl, refl, t)
  idle_absorbing [] rest theirs x (ws ∷ wss) at t e = absurd (omega (arith, e))
  idle_absorbing (v ∷ es) rest theirs x [] at t e = absurd (omega (arith, e))
  idle_absorbing (v ∷ es) rest theirs x (ws ∷ wss) at t e =
      let z = taken lay cap there here stopped f x v (es ++ rest) theirs ws t in
      let (y, run, a, c, s, t') =
        idle_absorbing es rest theirs z wss at
          (taken-Talking lay cap there here stopped f x v (es ++ rest) theirs ws t)
          (omega (arith, e)) in
      (
        y,
        rounds-some ws x wss
              (idle_round lay cap there here stopped f x v (es ++ rest) theirs ws t at)
            ∙ run,
        a,
        c,
        s,
        t',
      )

  -- The SENDs of a machine in `working`, up to the fifth.
  pub answer_sends :
      (n : ℕ) (rest theirs : List Event) (x : Simulate) (wss vss : List (List Wake))
      → state_of x ≡ simulate_working_state
      → (x.send_cnt + suc n) % 5 ≡ 0
      → n < 5
      → Talking lay cap x (replicate (suc n) (event_of sig_send) ++ rest) theirs
      → length theirs + n < cap
      → length wss ≡ suc n
      → (y : Simulate) × (rounds (wss ++ vss) x ≡ rounds vss y)
        × (state_of y ≡ simulate_working_state)
        × (y.send_cnt ≡ x.send_cnt + suc n)
        × Talking lay cap y
            (rest ++ event_of sig_idle ∷ [])
            (theirs ++ replicate (suc n) (event_of sig_recv))
  unfolding rounds
  answer_sends n rest theirs x [] vss at c small t room e = absurd (omega (arith, e))
  answer_sends zero rest theirs x (ws ∷ v ∷ wss) vss at c small t room e = absurd (omega (arith, e))
  answer_sends zero rest theirs x (ws ∷ []) vss at c small t room e =
      let (y, run, a, s, t') =
        working-fifth_send lay cap there here stopped f x rest theirs ws t at (omega (arith, room))
          (ground (arith, c)) in
      (y, rounds-some ws x vss run, a, s, t')
  answer_sends (suc n) rest theirs x (ws ∷ wss) vss at c small t room e =
      let (z, run, a, s, t') =
        working-send lay cap there here stopped f x (replicate (suc n) (event_of sig_send) ++ rest)
          theirs ws t at (omega (arith, room)) (ground (arith, c, small)) in
      let (y, run', b, s', t'') =
        answer_sends n rest (theirs ++ event_of sig_recv ∷ []) z wss vss a (omega (arith, c, s))
          (omega (arith, small)) t'
          (omega (arith, room, length-append theirs (event_of sig_recv ∷ []))) (omega (arith, e)) in
      (
        y,
        ◌∙◌ {c = rounds vss y} (rounds-some ws x (wss ++ vss) run) run',
        b,
        omega (arith, s, s'),
        subst (λ (es : List Event). Talking lay cap y (rest ++ event_of sig_idle ∷ []) es)
            (append_assoc theirs (event_of sig_recv ∷ []) (replicate (suc n) (event_of sig_recv)))
            t'',
      )

  -- Let a machine in `working` have SENDs in its queue, and nothing else, of which the last is the
  -- first that makes the number of its SENDs a multiple of five, and its watcher's queue have room
  -- for an answer to each. Then with one round more than there are SENDs the machine ends up in
  -- `idle`: it has counted each SEND, its watcher has a RECV for each behind the events that
  -- waited, and no event waits for itself.
  pub sends_to_idle :
      (n : ℕ) (theirs : List Event) (x : Simulate) (wss : List (List Wake)) (ws : List Wake)
      → state_of x ≡ simulate_working_state
      → (x.send_cnt + suc n) % 5 ≡ 0
      → n < 5
      → Talking lay cap x (replicate (suc n) (event_of sig_send)) theirs
      → length theirs + n < cap
      → length wss ≡ suc n
      → (y : Simulate) × (rounds (wss ++ ws ∷ []) x ≡ some (continues, y))
        × (state_of y ≡ simulate_idle_state)
        × (y.send_cnt ≡ x.send_cnt + suc n)
        × Talking lay cap y [] (theirs ++ replicate (suc n) (event_of sig_recv))
  unfolding rounds
  sends_to_idle n theirs x wss ws at c small t room e =
      let all = theirs ++ replicate (suc n) (event_of sig_recv) in
      let (y, run, a, s, t') =
        answer_sends n [] theirs x wss (ws ∷ []) at c small
          (subst (λ (es : List Event). Talking lay cap x es theirs) (sym (append-nil _)) t) room
          e in
      let (z, run', a', s', t'') = working-idle lay cap there here stopped f y [] all ws t' a in
      (z, run ∙ rounds-some ws y [] run', a', s' ∙ s, t'')
