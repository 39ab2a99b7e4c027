-- ===== src/Queue/Valid.antt =====
-- The representation invariant of `struct osa_queue_impl`: the ring's indices stay in range.
use native.Mathlib.Nat.{mod-add-mod, mod-lt}
use open_hsm.Base.{
  ℕ, Bool, ◌+◌, ◌-◌, ◌*◌, ◌%◌, ◌≤◌, ◌<◌, ◌≡◌, ap, ◌∙◌, sym, some, List, arith, length, take,
  length-replicate, length-overwrite, ℤ, pos,
}
use open_hsm.Queue.{Queue, Message, create, write_slot, read_slot}

pub record IsValid (q : Queue) : Type 0 where
  pub sized : 0 < q.msg_size
  pub roomy : 0 < q.max_msgs
  pub storage : length q.buffer ≡ q.max_msgs * q.msg_size
  pub head_in : q.head < q.max_msgs
  pub count_in : q.count ≤ q.max_msgs
  pub tail_at : q.tail ≡ (q.head + q.count) % q.max_msgs

-- One step round a ring of `m` places commutes with the remainder.
pub step_mod : (a m : ℕ) → (a % m + 1) % m ≡ (a + 1) % m
step_mod a m = mod-add-mod a m 1

step_mod_add : (h c m : ℕ) → 0 < c → ((h + 1) % m + (c - 1)) % m ≡ (h + c) % m
step_mod_add h c m p = mod-add-mod (h + 1) m (c - 1) ∙ ap (λ (k : ℕ). k % m) (omega arith)

pub slot_in : (i cap size : ℕ) → i < cap → i * size + size ≤ cap * size
slot_in i cap size h = grind arith

module _ {q : Queue} (v : IsValid q) where
  pub tail_in : q.tail < q.max_msgs
  tail_in = omega (arith, v.tail_at, mod-lt (q.head + q.count) v.roomy, v.roomy)

  pub write_slot-IsValid : (msg : Message) → q.count < q.max_msgs → IsValid (write_slot q msg)
  unfolding write_slot
  write_slot-IsValid msg room = record {
    sized = v.sized;
    roomy = v.roomy;
    storage = length-overwrite q.buffer (q.tail * q.msg_size) (take q.msg_size msg) ∙ v.storage;
    head_in = v.head_in;
    count_in = omega arith;
    tail_at =
        ap (λ (t : ℕ). (t + 1) % q.max_msgs) v.tail_at
        ∙ step_mod (q.head + q.count) q.max_msgs
        ∙ ap (λ (k : ℕ). k % q.max_msgs) (omega arith);
  }

  pub read_slot-IsValid : 0 < q.count → IsValid (read_slot q).1
  unfolding read_slot
  read_slot-IsValid some_there = record {
    sized = v.sized;
    roomy = v.roomy;
    storage = v.storage;
    head_in = mod-lt (q.head + 1) v.roomy;
    count_in = omega arith;
    tail_at = v.tail_at ∙ sym (step_mod_add q.head q.count q.max_msgs some_there);
  }

-- Where `osa_queue_create` is given a name and makes a queue, this is valid and empty, has the
-- message size and the capacity asked for, and 0 is returned.
pub create-IsValid :
    (out room storage : Bool) (name : List ℕ) (msg_size max_msgs : ℕ) {q : Queue} (c : ℤ)
    → create out (some name) msg_size (pos max_msgs) room storage ≡ (c, some q)
    → IsValid q × (q.count ≡ 0) × (q.msg_size ≡ msg_size) × (q.max_msgs ≡ max_msgs) × (c ≡ pos 0)
unfolding create
create-IsValid out room storage name msg_size max_msgs c e =
    ground (arith, length-replicate {A = ℕ} (max_msgs * msg_size) 0)
