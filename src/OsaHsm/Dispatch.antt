-- ===== src/OsaHsm/Dispatch.antt =====
-- The loop of `osa_hsm_active_run`: events reach the current state in the order of their posts.
use open_hsm.Base.{ℕ, ◌<◌, ◌≡◌, refl, ap, sym, ◌∙◌, true, some, List, ◌∷◌, arith, pos, minus}
use open_hsm.Queue.{Queue, Message, Wake, returned, read_slot, receive}
use open_hsm.Queue.Fifo.{contents-read_slot}
use open_hsm.Queue.Trace.{read_slot-IsOpen}
use open_hsm.Queue.Receive.{receive-there}
use open_hsm.Hsm.{Event, Chart, invoke, ◌>>◌, pure}
use open_hsm.OsaHsm.{Layout, EmbedsHsm, with_queue, continues, run_round}
use open_hsm.OsaHsm.Post.{Inbox, count-Inbox}

head-injective : {x y : Message} {xs ys : List Message} → x ∷ xs ≡ y ∷ ys → x ≡ y
head-injective e = cc

tail-injective : {x y : Message} {xs ys : List Message} → x ∷ xs ≡ y ∷ ys → xs ≡ ys
tail-injective e = cc

module _ {S : Type 0} (em : EmbedsHsm S) (lay : Layout) (chart : Chart S) (fuel : ℕ) where
  open em use {hsm, with_hsm}

  -- The machine when the message at the head of `q` has been received.
  abbrev pub received : Queue → S → S
  received q x = with_queue em (some (read_slot q).1) x

  -- When events wait, a round of the loop does not sleep: it takes the oldest event off the queue
  -- and calls the handler of the current state with that event, and with no other; the events
  -- behind it go on waiting, in order.
  pub run_round_lem :
      (cap : ℕ) (x : S) (e : Event) (es : List Event) (ws : List Wake)
      (b : Inbox lay cap (hsm x).msg_q (e ∷ es))
      → (run_round em lay chart fuel ws x
          ≡ (invoke chart fuel (hsm (received b.queue x)).super.current e >> pure continues)
              (received b.queue x))
        × Inbox lay cap (some (read_slot b.queue).1) es
  unfolding run_round
  run_round_lem cap x e es ws b =
      let there : 0 < b.queue.count = omega (arith, count-Inbox lay cap b) in
      let split = sym (contents-read_slot b.is_open.valid there) ∙ b.holds in
      let got : receive (some b.queue) true lay.event_size (minus 1) ws
          ≡ returned (pos 0, some (read_slot b.queue).0, some (read_slot b.queue).1) =
        rw (← b.is_open.sized) (receive-there b.queue (minus 1) ws there) in
      let event : lay.read (read_slot b.queue).0 ≡ e =
        ap lay.read (head-injective split) ∙ lay.read-bytes e in
      (
        simp (run_round, b.here, got, event),
        record {
          queue = (read_slot b.queue).1;
          here = refl;
          is_open = read_slot-IsOpen lay.event_size cap b.queue b.is_open there;
          holds = tail-injective split;
        },
      )
