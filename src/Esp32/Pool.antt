-- ===== src/Esp32/Pool.antt =====
-- A pool of static buffers keeps a table of the objects that are alive.
use open_hsm.Base.{
  ℕ, suc, ◌+◌, ◌<◌, ◌≡◌, ◌≢◌, ◌⊎◌, inl, inr, refl, Bool, true, false, ◌&&◌, Option, none, some,
  List, [], ◌∷◌, length, ◌==◌, if◌then◌else◌, Ptr, null, arith, Bool-cases, is_some,
}
use open_hsm.Esp32.{Slot, SlotPool, find_free, occupy, create_slot, release}

module _ {D : Type 0} where
  -- A used slot holds the handle that belongs to its place, and a free one holds NULL.
  abbrev pub Valid : (make : ℕ → Ptr) → List (Slot D) → Type 0
  Valid make [] = Unit
  Valid make (s ∷ slots) =
      (s.handle ≡ (if s.used then make 0 else null)) × Valid (λ i. make (suc i)) slots

  unfoldable pub in_use : List (Slot D) → ℕ
  in_use [] = 0
  in_use (s ∷ slots) = (if s.used then 1 else 0) + in_use slots

  -- The handles and flags of the slots.
  unfoldable pub handles : List (Slot D) → List (Ptr × Bool)
  handles [] = []
  handles (s ∷ slots) = (s.handle, s.used) ∷ handles slots

  -- The first used slot with the handle.
  unfoldable pub lookup : Ptr → List (Slot D) → Option D
  lookup h [] = none
  lookup h (s ∷ slots) =
      let later = lookup h slots in if (s.handle == h) && s.used then some s.extra else later

-- The first `n` buffers have different handles, none of them NULL.
pub record Buffers (make : ℕ → Ptr) (n : ℕ) : Type 0 where
  pub apart : (i j : ℕ) → i < n → j < n → make i ≡ make j → i ≡ j
  pub there : (i : ℕ) → i < n → make i ≢ null

pub later_Buffers : {make : ℕ → Ptr} {n : ℕ} → Buffers make (suc n) → Buffers (λ i. make (suc i)) n
later_Buffers b = record {
  apart = λ i j hi hj e.
      (let same = b.apart (suc i) (suc j) (omega arith) (omega arith) e in omega arith);
  there = λ i hi. b.there (suc i) (omega arith);
}

module _ {D : Type 0} (wipe : D → D) (d : D) where
  abbrev new : Ptr → Slot D
  new h = record { handle = h; used = true; extra = d }

  -- What follows when slot `i` gets the object with handle `h`.
  pub record Taken (make : ℕ → Ptr) (slots : List (Slot D)) (i : ℕ) : Type 0 where
    pub found : find_free slots ≡ some i
    pub inside : i < length slots
    pub valid : Valid make (occupy i (new (make i)) slots)
    pub counted : in_use (occupy i (new (make i)) slots) ≡ suc (in_use slots)
    pub kept : lookup (make i) (occupy i (new (make i)) slots) ≡ some d
    pub back : handles (release (make i) wipe (occupy i (new (make i)) slots)) ≡ handles slots

  pub free_slot :
      (make : ℕ → Ptr) (slots : List (Slot D))
      → Valid make slots
      → Buffers make (length slots)
      → ((find_free slots ≡ none) × (in_use slots ≡ length slots)) ⊎ ((i : ℕ) × Taken make slots i)
  unfolding find_free occupy release in_use handles lookup
  free_slot make [] v b = inl (refl, refl)
  free_slot make (s ∷ slots) v b = elim (Bool-cases s.used) [
    | inr free ↦ inr (
      0,
      record {
        found = simp free;
        inside = omega arith;
        valid = (refl, v.1);
        counted = simp free (omega arith);
        kept = ground arith;
        back = ground arith;
      },
    )
    | inl used ↦ elim (free_slot (λ i. make (suc i)) slots v.1 (later_Buffers b)) [
      | inl (e, n) ↦ inl (simp (used, e), simp used (omega (arith, n)))
      | inr (i, t) ↦
          let h : s.handle ≡ make 0 = ground arith in
          let other : (make 0 == make (suc i)) ≡ false =
            let ne : make 0 ≢ make (suc i) = λ e.
              (let z = b.apart 0 (suc i) (omega arith) (omega (arith, t.inside)) e in
                omega arith) in
            ground arith in
          inr (
            suc i,
            record {
              found = simp (used, t.found);
              inside = omega (arith, t.inside);
              valid = (v.0, t.valid);
              counted = simp used (omega (arith, t.counted));
              kept = simp (h, other, t.kept);
              back = simp (h, other, t.back);
            },
          )
    ]
  ]

module _ {D : Type 0} (wipe : D → D) (make : ℕ → Ptr) where
  -- On a valid pool, an object is refused, with nothing changed, exactly when every slot is used. Else
  -- its handle is not NULL, the pool is valid with one slot more in use, the handle leads to what was
  -- stored with it, and giving the object back restores the handles and flags of all slots.
  pub create_slot_lem :
      (d : D) (p : SlotPool D)
      → Valid make p.slots
      → Buffers make (length p.slots)
      → ((in_use p.slots ≡ length p.slots) × (create_slot make d p ≡ (null, p)))
        ⊎ (((create_slot make d p).0 ≢ null)
            × Valid make (create_slot make d p).1.slots
            × (in_use (create_slot make d p).1.slots ≡ suc (in_use p.slots))
            × (lookup (create_slot make d p).0 (create_slot make d p).1.slots ≡ some d)
            × (handles (release (create_slot make d p).0 wipe (create_slot make d p).1.slots)
                ≡ handles p.slots))
  unfolding create_slot
  create_slot_lem d p v b = elim (free_slot wipe d make p.slots v b) [
    | inl (e, n) ↦ inl (n, rw (e, create_slot) refl)
    | inr (i, t) ↦
        let nz : make i ≢ null = b.there i t.inside in
        let there : (make i == null) ≡ false = ground (arith, nz) in
        let made : create_slot make d p ≡ (
          make i,
          record p {
            slots = occupy i (record { handle = make i; used = true; extra = d }) p.slots;
          },
        ) =
          rw (t.found, create_slot, there) refl in
        inr (rw made (nz, t.valid, t.counted, t.kept, t.back))
  ]

-- Giving back any handle keeps a pool valid, and one slot less is in use exactly if the handle was in
-- the pool.
pub release-Valid :
    {D : Type 0} (wipe : D → D) (make : ℕ → Ptr) (h : Ptr) (slots : List (Slot D))
    → Valid make slots
    → Valid make (release h wipe slots)
      × (in_use (release h wipe slots) + (if is_some (lookup h slots) then 1 else 0) ≡ in_use slots)
unfolding release in_use lookup
release-Valid wipe make h [] v = (tt, refl)
release-Valid wipe make h (s ∷ slots) v = elim (Bool-cases ((s.handle == h) && s.used)) [
  | inl here ↦ simp here ((refl, v.1), ground arith)
  | inr on ↦
      let (valid, count) = release-Valid wipe (λ i. make (suc i)) h slots v.1 in
      simp on ((v.0, valid), omega (arith, count))
]
