-- ===== src/Hsm/Transit.antt =====
-- What `STATE_TRANSIT` does to the machine, and which handlers it calls.
use open_hsm.Base.{◌≡◌, ap, none, some, ℤ, Ptr, ◌∙◌, sym}
use open_hsm.Hsm.{Active, Call, Embeds, entry_event, state_transit}

-- Reading back what was written.
pub record Lawful {S : Type 0} (em : Embeds S) : Type 0 where
  pub get_put : (a : Active) (x : S) → em.active (em.with_active a x) ≡ a
  pub put_put : (a b : Active) (x : S) → em.with_active b (em.with_active a x) ≡ em.with_active b x

module _ {S : Type 0} (em : Embeds S) (law : Lawful em) where
  -- The machine in which the new state's handler runs.
  abbrev pub entering : Ptr → S → S
  entering s x =
      em.with_active (record (em.active x) { history = (em.active x).current; current = s }) x

  -- A transition whose ENTRY handler returns `r` and leaves the machine in `x'` ends there, with `r`
  -- as the error code; one whose ENTRY handler recurses too deep does not end.
  pub state_transit_lem :
      (call : Call S) (s : Ptr) (x : S)
      → state_transit em call s x ≡ (elim (call s entry_event (entering s x)) [
        | none ↦ none
        | some (r, x') ↦ some (tt, em.with_active (record (em.active x') { error = r }) x')
      ])
  unfolding state_transit
  state_transit_lem call s x =
      rw (law.get_put (record (em.active x) { history = (em.active x).current; current = s }) x)

  -- If the ENTRY handler of `s` returns `r` and does not move the machine on, then after the
  -- transition the state is `s`, the history is the state before, and the error is `r`.
  pub state_transit-settles :
      (call : Call S) (s : Ptr) (x : S) {r : ℤ} {x' : S}
      → call s entry_event (entering s x) ≡ some (r, x')
      → em.active x' ≡ em.active (entering s x)
      → (y : S) × (state_transit em call s x ≡ some (tt, y))
        × (em.active y ≡ record { error = r; current = s; history = (em.active x).current })
  state_transit-settles call s x {r} {x'} e kept = (
    em.with_active (record (em.active x') { error = r }) x',
    state_transit_lem call s x ∙ rw e,
    law.get_put _ x' ∙ ap (λ (a : Active). record a { error = r }) (kept ∙ law.get_put _ x),
  )

  -- A transition to `s` depends on no handler call but that of `s` with ENTRY: two ways to call
  -- handlers that agree on this call, at every machine, make the same transition.
  pub state_transit-only_entry :
      (call call' : Call S) (s : Ptr) (x : S)
      → ((y : S) → call s entry_event y ≡ call' s entry_event y)
      → state_transit em call s x ≡ state_transit em call' s x
  state_transit-only_entry call call' s x same =
      state_transit_lem call s x ∙ rw (same (entering s x)) (sym (state_transit_lem call' s x))
