-- ===== src/Esp32/Tests.antt =====
-- Pools with two slots, and the theorems at these.
use open_hsm.Base.{
  ℕ, suc, ◌+◌, ◌≡◌, ◌≢◌, ◌⊎◌, refl, true, false, none, some, List, [], ◌∷◌, length, Ptr, null,
  arith,
}
use open_hsm.Esp32.{Slot, create_slot, release}
use open_hsm.Esp32.Pool.{Valid, in_use, handles, lookup, Buffers, create_slot_lem}
use open_hsm.Esp32.Sync.{Plain}
use open_hsm.Esp32.Timer.{Action, TimerPool, timer_callback_wrapper, timer_create, timer_destroy}
use open_hsm.Esp32.Objects.{timer_create-fires}

-- Slot `i` has the handle 100 + i.
abbrev buffer : ℕ → Ptr
buffer i = 100 + i

buffer-Buffers : (n : ℕ) → Buffers buffer n
buffer-Buffers n = record { apart = λ i j hi hj e. omega arith; there = λ i hi e. omega arith }

abbrev first_used : {D : Type 0} → D → List (Slot D)
first_used d =
    record { handle = 100; used = true; extra = d }
    ∷ record { handle = null; used = false; extra = d }
    ∷ []

abbrev mutexes : Plain
mutexes = record { slots = first_used tt; initialized = true }

mutexes-Valid : Valid buffer mutexes.slots
mutexes-Valid = (refl, (refl, tt))

create_slot_lem_example :
    ((in_use mutexes.slots ≡ length mutexes.slots)
      × (create_slot buffer tt mutexes ≡ (null, mutexes)))
    ⊎ (((create_slot buffer tt mutexes).0 ≢ null)
        × Valid buffer (create_slot buffer tt mutexes).1.slots
        × (in_use (create_slot buffer tt mutexes).1.slots ≡ suc (in_use mutexes.slots))
        × (lookup (create_slot buffer tt mutexes).0 (create_slot buffer tt mutexes).1.slots
            ≡ some tt)
        × (handles (
              release
                (create_slot buffer tt mutexes).0
                (λ u. u)
                (create_slot buffer tt mutexes).1.slots)
            ≡ handles mutexes.slots))
create_slot_lem_example =
    create_slot_lem (λ u. u) buffer tt mutexes mutexes-Valid (buffer-Buffers 2)

abbrev ring_bell : Action
ring_bell = record { callback = 7; arg = 8 }

abbrev timers : TimerPool
timers = record { slots = first_used ring_bell; initialized = true }

timer_create-fires_example :
    let (timer, p') = timer_create (λ ms. ms) (λ t c i. buffer i) 10 true ring_bell timers in
    (timer_callback_wrapper timer p'.slots ≡ some ring_bell)
    × (timer_callback_wrapper timer (timer_destroy timer p').1.slots ≡ none)
unfolding in_use
timer_create-fires_example =
    timer_create-fires (λ ms. ms) (λ t c i. buffer i) buffer 10 true ring_bell timers
      (λ t c i. refl) refl (omega arith) (omega arith) (refl, (refl, tt)) (buffer-Buffers 2)
      (omega arith)
