-- ===== src/Queue/Fifo.antt =====
-- The messages that a ring holds, oldest first, and what a write and a read do to them.
use native.Mathlib.Nat.{mod-add-mod, mod-eq_of_lt, mod-eq-sub-mod, mod-lt}
use open_hsm.Base.{
  ℕ, zero, suc, ◌+◌, ◌-◌, ◌*◌, ◌%◌, ◌≤◌, ◌<◌, ◌≡◌, ◌≢◌, ◌⊎◌, inl, inr, refl, ap, ap₂, ◌∙◌, sym,
  Bool-cases, ltb, List, [], ◌∷◌, ◌++◌, arith, length, take, overwrite, slice, length-take_of_le,
  slice-overwrite_self, slice-overwrite_apart,
}
use open_hsm.Queue.{Queue, Message, write_slot, read_slot}
use open_hsm.Queue.Valid.{IsValid, slot_in}

-- The `n` messages of `size` bytes from slot `h` on, going round at `cap`.
abbrev pub window : List ℕ → ℕ → ℕ → ℕ → ℕ → List Message
window buf size cap h zero = []
window buf size cap h (suc n) = slice 0 buf (h * size) size ∷ window buf size cap ((h + 1) % cap) n

abbrev pub contents : Queue → List Message
contents q = window q.buffer q.msg_size q.max_msgs q.head q.count

length-window : (buf : List ℕ) (size cap h n : ℕ) → length (window buf size cap h n) ≡ n
length-window buf size cap h zero = refl
length-window buf size cap h (suc n) = ap suc (length-window buf size cap ((h + 1) % cap) n)

pub length-contents : (q : Queue) → length (contents q) ≡ q.count
length-contents q = length-window q.buffer q.msg_size q.max_msgs q.head q.count

-- Less than one turn from slot `h` on leads to the number of that slot, or past the end and round.
turn : (cap h k : ℕ) → h < cap → k < cap → ((h + k) % cap ≡ h + k) ⊎ ((h + k) % cap + cap ≡ h + k)
turn cap h k hh hk = elim (Bool-cases (ltb (h + k) cap)) [
  | inl short ↦ inl (mod-eq_of_lt (ground arith))
  | inr long ↦
      let past : cap ≤ h + k = ground arith in
      inr (
        omega (
          arith,
          mod-eq-sub-mod {n = h + k} {m = cap} past,
          mod-eq_of_lt {n = h + k - cap} {m = cap} (omega arith),
        ))
]

-- Two different slots do not overlap.
slots_apart : (i j size : ℕ) → i ≢ j → (i * size + size ≤ j * size) ⊎ (j * size + size ≤ i * size)
slots_apart i j size ne = elim (Bool-cases (ltb i j)) [
  | inl below ↦ inl (slot_in i j size (ground arith))
  | inr other ↦ inr (slot_in j i size (ground arith))
]

-- Writing the slot that follows a window makes what was written the last of the window.
module _ (size cap : ℕ) (msg : Message) (fits : length msg ≡ size) where
  slice-written :
      (buf : List ℕ) (i : ℕ)
      → length buf ≡ cap * size
      → i < cap
      → slice 0 (overwrite buf (i * size) msg) (i * size) size ≡ msg
  slice-written buf i sized inside = rw (← fits) (
      slice-overwrite_self 0 buf (i * length msg) msg
        (rw fits (omega (arith, slot_in i cap size inside, sized))))

  slice-elsewhere :
      (buf : List ℕ) (i h : ℕ)
      → h ≢ i
      → slice 0 (overwrite buf (i * size) msg) (h * size) size ≡ slice 0 buf (h * size) size
  slice-elsewhere buf i h ne =
      slice-overwrite_apart 0 buf (i * size) msg (h * size) size (rw fits (slots_apart h i size ne))

  window-overwrite :
      (buf : List ℕ) (n h i : ℕ)
      → i ≡ (h + n) % cap
      → length buf ≡ cap * size
      → h < cap
      → n < cap
      → window (overwrite buf (i * size) msg) size cap h (suc n)
        ≡ window buf size cap h n ++ msg ∷ []
  window-overwrite buf zero h i at_end sized inside small =
      let here : i ≡ h = ground (arith, turn cap h 0 inside small) in
      rw here (ap (λ (m : Message). m ∷ []) (slice-written buf h sized inside))
  window-overwrite buf (suc n) h i at_end sized inside small =
      let far : h ≢ i = ground (arith, turn cap h (suc n) inside small) in
      let round : i ≡ ((h + 1) % cap + n) % cap =
        at_end ∙ ap (λ (k : ℕ). k % cap) (omega arith) ∙ sym (mod-add-mod (h + 1) cap n) in
      ap₂ ◌∷◌ (slice-elsewhere buf i h far) (
        window-overwrite buf n ((h + 1) % cap) i round sized (mod-lt (h + 1) (omega arith))
          (omega arith))

module _ {q : Queue} (v : IsValid q) where
  -- A write appends the first `msg_size` bytes of the message.
  pub contents-write_slot :
      (msg : Message)
      → q.msg_size ≤ length msg
      → q.count < q.max_msgs
      → contents (write_slot q msg) ≡ contents q ++ take q.msg_size msg ∷ []
  unfolding write_slot
  contents-write_slot msg long room =
      let one_more : q.count + 1 ≡ suc q.count = omega arith in
      ap (window (write_slot q msg).buffer q.msg_size q.max_msgs q.head) one_more
      ∙ window-overwrite q.msg_size q.max_msgs (take q.msg_size msg)
          (length-take_of_le q.msg_size msg long) q.buffer q.count q.head q.tail v.tail_at v.storage
          v.head_in room

  -- A read takes the oldest message off.
  pub contents-read_slot : 0 < q.count → contents q ≡ (read_slot q).0 ∷ contents (read_slot q).1
  unfolding read_slot
  contents-read_slot some_there =
      ap (window q.buffer q.msg_size q.max_msgs q.head)
        (let e : q.count ≡ suc (q.count - 1) = omega arith in e)
