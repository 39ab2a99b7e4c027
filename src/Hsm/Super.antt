-- ===== src/Hsm/Super.antt =====
-- What `STATE_SUPER` does: it calls the parent of the machine's current state, whichever state's
-- handler it stands in.
use open_hsm.Base.{ℕ, zero, suc, ◌≡◌, ◌≢◌, refl, none, some, Ptr, null, arith, ◌∙◌, ◌==◌, false}
use open_hsm.Hsm.{Event, Call, Chart, Embeds, invoke, state_super}

module _ {S : Type 0} (em : Embeds S) (chart : Chart S) where
  abbrev pub parent : Ptr → Ptr
  parent p = (chart p).parent

  -- At a state with no parent nothing happens.
  pub state_super-top :
      (call : Call S) (e : Event) (x : S)
      → parent (em.active x).current ≡ null
      → state_super em call parent e x ≡ some (tt, x)
  unfolding state_super
  state_super-top call e x top = rw top

  -- At a state with a parent the parent's handler gets the event, and what it returns becomes the
  -- error code.
  pub state_super-parent :
      (call : Call S) (e : Event) (x : S)
      → parent (em.active x).current ≢ null
      → state_super em call parent e x ≡ (elim (call (parent (em.active x).current) e x) [
        | none ↦ none
        | some (r, x') ↦ some (tt, em.with_active (record (em.active x') { error = r }) x')
      ])
  unfolding state_super
  state_super-parent call e x has =
      let up : (parent (em.active x).current == null) ≡ false = ground arith in simp up

  -- The handler of state `c` does not return from `e` where `STATE_SUPER` does not: it hands the event
  -- on before it does anything else.
  abbrev pub Delegates : Ptr → Event → Type 0
  Delegates c e =
      (call : Call S) (x : S)
      → state_super em call parent e x ≡ none
      → (chart c).handler call e x ≡ none

  module _ (c : Ptr) (e : Event) (x : S) (cur : (em.active x).current ≡ c)
      (has_parent : parent c ≢ null) where
    -- A call of the parent that does not come back takes `STATE_SUPER` with it.
    super_stuck :
        (call : Call S) → call (parent c) e x ≡ none → state_super em call parent e x ≡ none
    super_stuck call stuck = state_super-parent call e x (rw cur has_parent) ∙ rw (cur, stuck)

    parent_loops : Delegates (parent c) e → (f : ℕ) → invoke chart f (parent c) e x ≡ none
    unfolding invoke
    parent_loops dp zero = refl
    parent_loops dp (suc f) =
        dp (invoke chart f) x (super_stuck (invoke chart f) (parent_loops dp f))

    -- If the current state has a parent, and the handlers of the two do not return from an event
    -- where STATE_SUPER does not return from it, as when they hand it on at once, dispatching the event
    -- never comes back: whatever the fuel, the calls nest deeper.
    pub super_loops : Delegates c e → Delegates (parent c) e → (f : ℕ) → invoke chart f c e x ≡ none
    unfolding invoke
    super_loops d dp zero = refl
    super_loops d dp (suc f) =
        d (invoke chart f) x (super_stuck (invoke chart f) (parent_loops dp f))
