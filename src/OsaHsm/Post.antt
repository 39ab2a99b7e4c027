-- ===== src/OsaHsm/Post.antt =====
-- `osa_hsm_active_event_post` against the list of events that wait in the HSM's queue.
use mathlib.Core.List.{map, map-append}
use open_hsm.Base.{
  ℕ, suc, ◌<◌, ◌≡◌, refl, ap, ap₂, sym, ◌∙◌, Option, some, List, [], ◌∷◌, ◌++◌, arith, length,
  take-length, pos, minus, eagain,
}
use open_hsm.Queue.{Queue, Message, Wake, returned, write_slot, send}
use open_hsm.Queue.Fifo.{contents, length-contents, contents-write_slot}
use open_hsm.Queue.Trace.{IsOpen, write_slot-IsOpen}
use open_hsm.Queue.Send.{send-room, send-full}
use open_hsm.Hsm.{Event}
use open_hsm.OsaHsm.{OsaHsm, Layout, event_post, to_int}

-- The events `es` wait, oldest first, in an open queue for `cap` of them.
pub record Inbox (lay : Layout) (cap : ℕ) (mq : Option Queue) (es : List Event) : Type 0 where
  pub queue : Queue
  pub here : mq ≡ some queue
  pub is_open : IsOpen lay.event_size cap queue
  pub holds : contents queue ≡ map lay.bytes es

length-map : (f : Event → Message) (es : List Event) → length (map f es) ≡ length es
length-map f [] = refl
length-map f (e ∷ es) = ap suc (length-map f es)

module _ (lay : Layout) (cap : ℕ) where
  pub count-Inbox :
      {mq : Option Queue} {es : List Event} (b : Inbox lay cap mq es) → b.queue.count ≡ length es
  count-Inbox {es} b = sym (length-contents b.queue) ∙ ap length b.holds ∙ length-map lay.bytes es

  module _ (h : OsaHsm) (es : List Event) (b : Inbox lay cap h.msg_q es) (e : Event) (t : ℕ)
      (ws : List Wake) where
    open b use {queue, here, is_open, holds}

    -- The structure after a post that succeeds.
    abbrev pub posted : OsaHsm
    posted = record h { msg_q = some (write_slot queue (lay.bytes e)) }

    write_slot-Inbox : length es < cap → Inbox lay cap posted.msg_q (es ++ e ∷ [])
    write_slot-Inbox room = record {
      queue = write_slot queue (lay.bytes e);
      here = refl;
      is_open =
          write_slot-IsOpen lay.event_size cap queue is_open (lay.bytes e)
            (omega (arith, count-Inbox b, is_open.capped));
      holds =
          contents-write_slot is_open.valid (lay.bytes e)
            (omega (arith, is_open.sized, lay.length-bytes e))
            (omega (arith, count-Inbox b, is_open.capped))
          ∙ ap₂ (λ (ms : List Message) (m : Message). ms ++ m ∷ []) holds
              (take-length queue.msg_size (lay.bytes e) (lay.length-bytes e ∙ sym is_open.sized))
          ∙ sym (map-append lay.bytes es (e ∷ []));
    }

    -- While fewer events wait than the queue has room for, a post with any timeout returns 0 at once
    -- and puts the event behind those that wait; the rest of the HSM is unchanged.
    pub event_post-room :
        length es < cap
        → (event_post lay (some h) (some e) t ws ≡ returned (pos 0, some posted))
          × Inbox lay cap posted.msg_q (es ++ e ∷ [])
    unfolding event_post
    event_post-room room = (
      (let sent : send (some queue) (some (lay.bytes e)) lay.event_size (to_int t) ws
              ≡ returned (pos 0, some (write_slot queue (lay.bytes e))) =
            rw (← is_open.sized) (
              send-room queue (lay.bytes e) (to_int t) ws is_open.opened
                (omega (arith, count-Inbox b, is_open.capped))) in
          simp (here, sent)),
      write_slot-Inbox room,
    )

    -- When the queue is full, a post at timeout 0 returns EAGAIN and changes nothing.
    pub event_post-full :
        length es ≡ cap → event_post lay (some h) (some e) 0 ws ≡ returned (minus eagain, some h)
    unfolding event_post
    event_post-full no_room =
        (let sent : send (some queue) (some (lay.bytes e)) lay.event_size (pos 0) ws
              ≡ returned (minus eagain, some queue) =
            rw (← is_open.sized) (
              send-full queue (lay.bytes e) ws is_open.opened
                (ground (arith, count-Inbox b, is_open.capped))) in
          simp (here, sent)
            (ap (λ (mq : Option Queue). returned (minus eagain, some (record h { msg_q = mq })))
              (sym here)))
