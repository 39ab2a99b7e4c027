-- ===== src/Esp32/Objects.antt =====
-- Mutexes and timers of the ESP32 platform through their pools.
use open_hsm.Base.{
  ℕ, zero, suc, ◌<◌, ◌≡◌, ◌≢◌, inl, inr, refl, ap, ap₂, sym, ◌∙◌, Bool, true, false, ◌&&◌, Option,
  none, some, List, [], ◌∷◌, length, ◌==◌, if◌then◌else◌, Ptr, null, arith, Bool-cases,
}
use open_hsm.Error.{ok, code}
use open_hsm.Esp32.{Slot, SlotPool, init_once, find_free, occupy, create_slot, release}
use open_hsm.Esp32.Pool.{Valid, in_use, handles, lookup, Buffers, later_Buffers, create_slot_lem}
use open_hsm.Esp32.Sync.{Plain, keep, mutex_create, mutex_destroy}
use open_hsm.Esp32.Timer.{
  Action, TimerPool, timer_callback_wrapper, period_ticks, timer_create, timer_destroy,
}

-- Slots that hold nothing more are what their handles and flags are.
handles-injective : (ss ts : List (Slot (Unit {0}))) → handles ss ≡ handles ts → ss ≡ ts
unfolding handles
handles-injective [] [] e = refl
handles-injective [] (t ∷ ts) e = cc
handles-injective (s ∷ ss) [] e = cc
handles-injective (s ∷ ss) (t ∷ ts) e =
    let same : (s.handle, s.used) ≡ (t.handle, t.used) = cc in
    let rest : handles ss ≡ handles ts = cc in
    ap₂ ◌∷◌ (ap (λ (p : Ptr × Bool). record { handle = p.0; used = p.1; extra = tt }) same)
      (handles-injective ss ts rest)

initialized-create_slot :
    {D : Type 0} (make : ℕ → Ptr) (d : D) (p : SlotPool D)
    → (create_slot make d p).1.initialized ≡ p.initialized
unfolding create_slot
initialized-create_slot make d p = ground arith

mutex_create_eq :
    (make : ℕ → Ptr) (p : Plain)
    → p.initialized ≡ true
    → mutex_create make p ≡ create_slot make tt p
unfolding mutex_create init_once
mutex_create_eq make p on = simp on

mutex_destroy_eq :
    (mutex : Ptr) (p : Plain)
    → mutex ≢ null
    → mutex_destroy mutex p ≡ (code ok, record p { slots = release mutex keep p.slots })
unfolding mutex_destroy
mutex_destroy_eq mutex p nz = ground arith

-- On a valid pool with a free slot, a mutex that is made and then destroyed leaves the pool as it was,
-- and its destruction returns OSA_OK.
pub mutex_destroy-mutex_create :
    (make : ℕ → Ptr) (p : Plain)
    → p.initialized ≡ true
    → Valid make p.slots
    → Buffers make (length p.slots)
    → in_use p.slots ≢ length p.slots
    → mutex_destroy (mutex_create make p).0 (mutex_create make p).1 ≡ (code ok, p)
mutex_destroy-mutex_create make p on v b room = elim (create_slot_lem keep make tt p v b) [
  | inl (full, _) ↦ absurd (room full)
  | inr (nz, _, _, _, back) ↦ rw (mutex_create_eq make p on) (
      mutex_destroy_eq (create_slot make tt p).0 (create_slot make tt p).1 nz
      ∙ ap₂
          (λ (ss : List (Slot (Unit {0}))) (set_up : Bool).
            (code ok, record { slots = ss; initialized = set_up }))
          (handles-injective
            (release (create_slot make tt p).0 keep (create_slot make tt p).1.slots) p.slots back)
          (initialized-create_slot make tt p))
]

module _ {D : Type 0} where
  lookup-none :
      (make : ℕ → Ptr) (h : Ptr) (slots : List (Slot D))
      → Valid make slots
      → ((i : ℕ) → i < length slots → make i ≢ h)
      → lookup h slots ≡ none
  unfolding lookup
  lookup-none make h [] v out = refl
  lookup-none make h (s ∷ slots) v out = ground (
    arith,
    out 0,
    lookup-none (λ i. make (suc i)) h slots v.1 (λ i lt. out (suc i) (omega arith)),
  )

  lookup-release :
      (wipe : D → D) (make : ℕ → Ptr) (h : Ptr) (slots : List (Slot D))
      → Valid make slots
      → Buffers make (length slots)
      → lookup h (release h wipe slots) ≡ none
  unfolding lookup release
  lookup-release wipe make h [] v b = refl
  lookup-release wipe make h (s ∷ slots) v b = elim (Bool-cases ((s.handle == h) && s.used)) [
    | inl here ↦ simp here (
        let rest : lookup h slots ≡ none =
          lookup-none (λ i. make (suc i)) h slots v.1
            (λ i lt e.
              let first : make 0 ≡ h = ground arith in
              let same = b.apart 0 (suc i) (omega arith) (omega (arith, lt)) (first ∙ sym e) in
              omega arith) in
        ground (arith, rest))
    | inr on ↦ simp on (lookup-release wipe (λ i. make (suc i)) h slots v.1 (later_Buffers b))
  ]

timer_callback_wrapper-lookup :
    (timer : Ptr) (slots : List (Slot Action))
    → timer_callback_wrapper timer slots ≡ (elim (lookup timer slots) [
      | none ↦ none
      | some a ↦ if a.callback == null then none else some a
    ])
unfolding timer_callback_wrapper lookup
timer_callback_wrapper-lookup timer [] = refl
timer_callback_wrapper-lookup timer (s ∷ slots) =
    elim (Bool-cases ((s.handle == timer) && s.used)) [
      | inl here ↦ simp here
      | inr on ↦ simp on (timer_callback_wrapper-lookup timer slots)
    ]

-- The pool after `timer_create`, where it makes a timer.
abbrev made :
    (to_ticks : ℕ → ℕ)
    → (make : ℕ → Bool → ℕ → Ptr) → ℕ
    → Bool
    → Action
    → TimerPool
    → Ptr × TimerPool
made to_ticks make period_ms periodic action p =
    create_slot (make (period_ticks to_ticks period_ms) periodic) action p

timer_create_eq :
    (to_ticks : ℕ → ℕ) (make : ℕ → Bool → ℕ → Ptr) (period_ms : ℕ) (periodic : Bool)
    (action : Action) (p : TimerPool)
    → p.initialized ≡ true
    → period_ms ≢ 0
    → action.callback ≢ null
    → timer_create to_ticks make period_ms periodic action p
      ≡ made to_ticks make period_ms periodic action p
unfolding timer_create init_once
timer_create_eq to_ticks make period_ms periodic action p on pnz cnz =
    let period : (period_ms == 0) ≡ false = ground (arith, pnz) in
    let there : (action.callback == null) ≡ false = ground (arith, cnz) in simp (on, period, there)

abbrev forget : Action → Action
forget a = record a { callback = null }

slots-timer_destroy :
    (timer : Ptr) (p : TimerPool)
    → timer ≢ null
    → (timer_destroy timer p).1.slots ≡ release timer forget p.slots
unfolding timer_destroy
slots-timer_destroy timer p nz = ground arith

length-occupy :
    {D : Type 0} (i : ℕ) (s : Slot D) (slots : List (Slot D))
    → length (occupy i s slots) ≡ length slots
unfolding occupy
length-occupy i s [] = refl
length-occupy zero s (t ∷ slots) = refl
length-occupy (suc i) s (t ∷ slots) = ap suc (length-occupy i s slots)

length-create_slot :
    {D : Type 0} (make : ℕ → Ptr) (d : D) (p : SlotPool D)
    → length (create_slot make d p).1.slots ≡ length p.slots
unfolding create_slot
length-create_slot {D} make d p = go (find_free p.slots)
  where
    go :
        (r : Option ℕ)
        → length
            (elim r as (λ _. Ptr × SlotPool D) [
              | none ↦ (null, p)
              | some i ↦ if make i == null then (null, p) else (
                make i,
                record p {
                  slots = occupy i (record { handle = make i; used = true; extra = d }) p.slots;
                },
              )
            ]).1.slots
          ≡ length p.slots
    go none = refl
    go (some i) = elim (Bool-cases (make i == null)) [
      | inl e ↦ simp e
      | inr e ↦
          simp e (length-occupy i (record { handle = make i; used = true; extra = d }) p.slots)
    ]

-- If the handle of a timer is that of its slot's buffer, whatever its period: on a valid pool with a
-- free slot, `timer_create` with a period and a callback makes a timer whose
-- expiry calls the callback with its argument, and once the timer is destroyed its expiry calls nothing.
pub timer_create-fires :
    (to_ticks : ℕ → ℕ) (make : ℕ → Bool → ℕ → Ptr) (buffer : ℕ → Ptr) (period_ms : ℕ)
    (periodic : Bool) (action : Action) (p : TimerPool)
    → ((t : ℕ) (c : Bool) (i : ℕ) → make t c i ≡ buffer i)
    → p.initialized ≡ true
    → period_ms ≢ 0
    → action.callback ≢ null
    → Valid buffer p.slots
    → Buffers buffer (length p.slots)
    → in_use p.slots ≢ length p.slots
    → let (timer, p') = timer_create to_ticks make period_ms periodic action p in
      (timer_callback_wrapper timer p'.slots ≡ some action)
      × (timer_callback_wrapper timer (timer_destroy timer p').1.slots ≡ none)
timer_create-fires to_ticks make buffer period_ms periodic action p same on pnz cnz v b room =
    let e : made to_ticks make period_ms periodic action p ≡ create_slot buffer action p =
      λ d. create_slot (λ i. same (period_ticks to_ticks period_ms) periodic i d) action p in
    let (timer, p') = create_slot buffer action p in
    let there : (action.callback == null) ≡ false = ground (arith, cnz) in
    elim (create_slot_lem forget buffer action p v b) [
      | inl (full, _) ↦ absurd (room full)
      | inr (nz, valid, _, kept, _) ↦
          let gone : lookup timer (release timer forget p'.slots) ≡ none =
            lookup-release forget buffer timer p'.slots valid
              (rw (length-create_slot buffer action p) b) in
          rw (timer_create_eq to_ticks make period_ms periodic action p on pnz cnz ∙ e) (
            timer_callback_wrapper-lookup timer p'.slots ∙ simp (kept, there),
            rw (slots-timer_destroy timer p' nz)
                (timer_callback_wrapper-lookup timer (release timer forget p'.slots) ∙ simp gone),
          )
    ]
