-- ===== src/Esp32.antt =====
-- platform/esp32: the pools of static buffers that its files share.
--
-- osa_sync.c has two such pools, osa_queue.c, osa_thread.c and osa_timer.c one each, all with the code
-- below. FreeRTOS is a parameter: `make i` is the handle that it returns for the buffer of slot `i`, or
-- NULL. What a slot holds beside its handle and flag is `D`.
pub mod Pool
pub mod Sync
pub mod Queue
pub mod Thread
pub mod Timer
pub mod Objects
mod Tests
use open_hsm.Base.{
  ℕ, zero, suc, ◌+◌, Bool, true, false, not, ◌&&◌, Option, none, some, List, [], ◌∷◌, ◌==◌,
  if◌then◌else◌, replicate, ℤ, pos, Ptr, null,
}

-- An entry of `mutex_pool`, and of the pools like it.
pub record Slot (D : Type 0) : Type 0 where
  pub handle : Ptr
  pub used : Bool
  pub extra : D

-- The array, and the flag that it is set up.
pub record SlotPool (D : Type 0) : Type 0 where
  pub slots : List (Slot D)
  pub initialized : Bool

module _ {D : Type 0} where
  -- `mutex_pool_init_once`, where `blank` is what memset leaves in `extra`.
  unfoldable pub init_once : (cap : ℕ) → D → SlotPool D → SlotPool D
  init_once cap blank p = if p.initialized then p else record {
    slots = replicate cap (record { handle = null; used = false; extra = blank });
    initialized = true;
  }

  -- `find_free_mutex_slot`; `none` is -1.
  unfoldable pub find_free : List (Slot D) → Option ℕ
  find_free [] = none
  find_free (s ∷ slots) =
      let later = find_free slots in
      if not s.used then some 0 else elim later [ none ↦ none | some i ↦ some (suc i) ]

  -- The slot at `i` is written.
  unfoldable pub occupy : (i : ℕ) → Slot D → List (Slot D) → List (Slot D)
  occupy i new [] = []
  occupy zero new (s ∷ slots) = new ∷ slots
  occupy (suc i) new (s ∷ slots) = s ∷ occupy i new slots

  -- The slot of a pool and the pool after a new object with the handle of `make` and `extra`.
  unfoldable pub create_slot : (make : ℕ → Ptr) → D → SlotPool D → Ptr × SlotPool D
  create_slot make extra p = elim (find_free p.slots) [
    | none ↦ (null, p)
    | some i ↦ if make i == null then (null, p) else (
      make i,
      record p {
        slots = occupy i (record { handle = make i; used = true; extra = extra }) p.slots;
      },
    )
  ]

  -- The loop of `osa_mutex_destroy`: the first used slot with the handle becomes free. `wipe` is what
  -- happens to the rest of the slot.
  unfoldable pub release : (handle : Ptr) → (wipe : D → D) → List (Slot D) → List (Slot D)
  release handle wipe [] = []
  release handle wipe (s ∷ slots) =
      let later = release handle wipe slots in
      if (s.handle == handle) && s.used
      then record { handle = null; used = false; extra = wipe s.extra } ∷ slots
      else s ∷ later
