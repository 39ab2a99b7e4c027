-- ===== src/Queue/System/Senders.antt =====
-- The steps of a sender keep the invariant.
use mathlib.Core.List.{append_assoc}
use open_hsm.Base.{
  ℕ, zero, suc, ◌+◌, ◌<◌, ◌≤◌, ◌≡◌, ◌⊎◌, inl, inr, refl, ap, sym, subst, ◌∙◌, Bool, true, false,
  not, some, List, [], ◌∷◌, ◌++◌, length, take-length, arith, ℤ, pos, negsuc, minus, is_neg, eagain,
  etimedout, update, Bool-cases,
}
use open_hsm.Queue.{
  Queue, Message, Wake, Sent, returned, blocked, full, wait_while, wait_for, write_slot, send_ready,
  send,
}
use open_hsm.Queue.Send.{send-room, send-full}
use open_hsm.Queue.Fifo.{contents, contents-write_slot}
use open_hsm.Queue.Trace.{write_slot-IsOpen}
use open_hsm.Queue.System.{
  Sending, sent, send_on, Pc, outside, send_asleep, send_woken, woken_senders, sleeping_receivers,
  woken_receivers, System, Signalled, Sends, enters, resumes, expires,
}
use open_hsm.Queue.System.Calls.{send-snoc, next_wait-on, next_wait-over}
use open_hsm.Queue.System.Invariant.{
  Waits, Inv, update-Waits, total-moves, Signalled-Waits, Signalled-receivers,
}

-- The three ways in which the call of a sender goes on with an open queue `q`.
abbrev Outcome : (woken : ℕ) → Queue → Message → Sent → Type 0
Outcome woken q m o =
    ((o ≡ blocked) × (full q ≡ true))
    ⊎ (((code : ℤ) × (is_neg code ≡ true) × (o ≡ returned (code, some q)) × (woken ≡ 0))
        ⊎ ((full q ≡ false) × (o ≡ returned (pos 0, some (write_slot q m)))))

count-write_slot : (q : Queue) (m : Message) → (write_slot q m).count ≡ q.count + 1
unfolding write_slot
count-write_slot q m = refl

module _ (w : ℕ) (q : Queue) (m : Message) {o : Sent} where
  Outcome-blocked : Outcome w q m o → o ≡ blocked → full q ≡ true
  Outcome-blocked (inl (_, f)) e = f
  Outcome-blocked (inr (inl (code, neg, f, _))) e = cc
  Outcome-blocked (inr (inr (_, f))) e = cc

  Outcome-fails :
      {code : ℤ} {q' : Queue}
      → Outcome w q m o
      → o ≡ returned (code, some q')
      → is_neg code ≡ true
      → (q' ≡ q) × (w ≡ 0)
  Outcome-fails (inl (f, _)) e neg = cc
  Outcome-fails (inr (inl (code, _, f, none_woken))) e neg = (cc, none_woken)
  Outcome-fails (inr (inr (_, f))) e neg = cc

  Outcome-done :
      {q' : Queue}
      → Outcome w q m o
      → o ≡ returned (pos 0, some q')
      → (full q ≡ false) × (q' ≡ write_slot q m)
  Outcome-done (inl (f, _)) e = cc
  Outcome-done (inr (inl (code, neg, f, _))) e = cc
  Outcome-done (inr (inr (room, f))) e = (room, cc)

-- What is known of thread `i` when it goes on with the call `c`.
pub record Turn (size : ℕ) (s : System) (i : ℕ) (c : Sending) : Type 0 where
  pub long : length c.msg ≡ size
  pub no_receiver : (sleeping_receivers (s.pc i) ≡ 0) × (woken_receivers (s.pc i) ≡ 0)
  pub outcome : Outcome (woken_senders (s.pc i)) s.queue c.msg (sent c)

module _ (q : Queue) (m : Message) (o : q.closed ≡ false) where
  full-Outcome : (t : ℤ) → full q ≡ true → Outcome 0 q m (send (some q) (some m) q.msg_size t [])
  unfolding send send_ready wait_for wait_while
  full-Outcome (pos zero) no_room = inr (inl (minus eagain, refl, send-full q m [] o no_room, refl))
  full-Outcome (pos (suc n)) no_room = inl (ground arith, no_room)
  full-Outcome (negsuc n) no_room = inl (ground arith, no_room)

  new-Outcome : (t : ℤ) → Outcome 0 q m (send (some q) (some m) q.msg_size t [])
  new-Outcome t = elim (Bool-cases (full q)) [
    | inr room ↦ inr (inr (room, send-room q m t [] o (ground arith)))
    | inl no_room ↦ full-Outcome t no_room
  ]

  woken-Outcome : (timed : Bool) (w : ℕ) → Outcome w q m (send_ready m (wait_while full timed q []))
  unfolding send_ready wait_while
  woken-Outcome timed w = elim (Bool-cases (full q)) [
    | inl no_room ↦ inl (ground (arith), no_room)
    | inr room ↦ inr (inr (room, ground arith))
  ]

woken-le-one : (p : Pc) → woken_senders p ≤ 1
woken-le-one p = ground arith

module _ {size cap n : ℕ} {s : System} (inv : Inv size cap n s) (i : ℕ) where
  open inv use {is_open, waits}

  -- What a thread in a send brings with it.
  in_send :
      (c : Sending)
      → (s.pc i ≡ send_woken c) ⊎ (s.pc i ≡ send_asleep c)
      → (sent c ≡ blocked) × (length c.msg ≡ size)
  in_send c (inl at) = subst (Waits size) at (waits i)
  in_send c (inr at) = subst (Waits size) at (waits i)

  -- A call whose time is over comes back with ETIMEDOUT, whatever it finds.
  expired :
      (c : Sending)
      → sent c ≡ blocked
      → is_neg c.timeout ≡ false
      → sent (send_on etimedout s.queue c) ≡ returned (minus etimedout, some (s.queue))
  unfolding send_ready
  expired c b timed =
      send-snoc c.start c.msg c.timeout c.wakes (record { status = etimedout; queue = s.queue }) b
      ∙ ap (send_ready c.msg) (next_wait-over full c.timeout s.queue timed)

  Sends-Turn : {c : Sending} → Sends s i c → Turn size s i c
  unfolding send_ready
  Sends-Turn (enters m t at l) = record {
    long = l ∙ is_open.sized;
    no_receiver = rw at (refl, refl);
    outcome = rw at (new-Outcome s.queue m is_open.opened t);
  }
  Sends-Turn (resumes c status at on) =
      let (b, l) = in_send c (inl at) in
      let w : Wake = record { status = status; queue = s.queue } in
      let e =
        send-snoc c.start c.msg c.timeout c.wakes w b
        ∙ ap (send_ready c.msg) (next_wait-on full (not (is_neg c.timeout)) w on) in
      record {
        long = l;
        no_receiver = rw at (refl, refl);
        outcome = rw e (
            woken-Outcome s.queue c.msg is_open.opened (not (is_neg c.timeout))
              (woken_senders (s.pc i)));
      }
  Sends-Turn (expires c at timed) =
      let (b, l) = in_send c (inr at) in
      record {
        long = l;
        no_receiver = rw at (refl, refl);
        outcome = inr (inl (minus etimedout, refl, expired c b timed, rw at refl));
      }

  grown :
      (m : Message)
      → length m ≡ size
      → s.queue.count < s.queue.max_msgs
      → contents (write_slot s.queue m) ≡ contents s.queue ++ m ∷ []
  grown m long has_room =
      contents-write_slot is_open.valid m (omega (arith, is_open.sized, long)) has_room
      ∙ ap (λ (k : Message). contents s.queue ++ k ∷ [])
          (take-length s.queue.msg_size m (long ∙ sym is_open.sized))

  module _ (lt : i < n) where
    pub send_sleeps-Inv :
        {c : Sending}
        → Sends s i c
        → sent c ≡ blocked
        → Inv size cap n (record s { pc = update s.pc i (send_asleep c) })
    send_sleeps-Inv {c} g b =
        let t = Sends-Turn g in
        let no_room = Outcome-blocked (woken_senders (s.pc i)) s.queue c.msg t.outcome b in
        let (r, r', _, _) = total-moves n s.pc i lt (send_asleep c) in
        record {
          is_open = is_open;
          fifo = inv.fifo;
          waits = update-Waits size s.pc i (send_asleep c) waits (b, t.long);
          receivers = ground (arith, inv.receivers, r, r', t.no_receiver);
          senders = inr (inr (ground (arith, is_open.capped)));
        }

    pub send_fails-Inv :
        {c : Sending} (code : ℤ) (q : Queue)
        → Sends s i c
        → sent c ≡ returned (code, some q)
        → is_neg code ≡ true
        → Inv size cap n (record s { queue = q; pc = update s.pc i outside })
    send_fails-Inv {c} code q g e neg =
        let t = Sends-Turn g in
        let (same, none_woken) =
          Outcome-fails (woken_senders (s.pc i)) s.queue c.msg t.outcome e neg in
        let (r, r', w, w') = total-moves n s.pc i lt outside in
        rw same (record {
          is_open = is_open;
          fifo = inv.fifo;
          waits = update-Waits size s.pc i outside waits tt;
          receivers = ground (arith, inv.receivers, r, r', t.no_receiver);
          senders = ground (arith, inv.senders, w, w', none_woken);
        })

    pub send_overruns-Inv :
        (c : Sending) (code : ℤ) (q : Queue)
        → s.pc i ≡ send_woken c
        → is_neg c.timeout ≡ false
        → sent (send_on etimedout s.queue c) ≡ returned (code, some q)
        → Inv size cap n (record s { queue = q; pc = update s.pc i outside; lost = s.lost + 1 })
    send_overruns-Inv c code q at timed e =
        let over : sent (send_on etimedout s.queue c) ≡ returned (minus etimedout, some (s.queue)) =
          expired c (in_send c (inl at)).0 timed in
        let same : q ≡ s.queue = cc in
        rw same (record {
          is_open = is_open;
          fifo = inv.fifo;
          waits = update-Waits size s.pc i outside waits tt;
          receivers = inl (omega arith);
          senders = inl (omega arith);
        })

    pub send_done-Inv :
        {c : Sending} (q : Queue) (pc' : ℕ → Pc)
        → Sends s i c
        → sent c ≡ returned (pos 0, some q)
        → Signalled sleeping_receivers n (update s.pc i outside) pc'
        → Inv size cap n (record s { queue = q; pc = pc'; accepted = s.accepted ++ c.msg ∷ [] })
    send_done-Inv {c} q pc' g e sig =
        let t = Sends-Turn g in
        let (room, same) = Outcome-done (woken_senders (s.pc i)) s.queue c.msg t.outcome e in
        let has_room : s.queue.count < s.queue.max_msgs = ground arith in
        let (r, r', w, w') = total-moves n s.pc i lt outside in
        let (a, b, b') = Signalled-receivers sig in
        let woken_le = woken-le-one (s.pc i) in
        rw same (record {
          is_open = write_slot-IsOpen size cap s.queue is_open c.msg has_room;
          fifo =
              ap (λ (ms : List Message). ms ++ c.msg ∷ []) inv.fifo
              ∙ append_assoc s.delivered (contents s.queue) (c.msg ∷ [])
              ∙ ap (λ (ms : List Message). s.delivered ++ ms) (sym (grown c.msg t.long has_room));
          waits = Signalled-Waits size sig (update-Waits size s.pc i outside waits tt);
          receivers =
              ground
                (arith, inv.receivers, a, r, r', t.no_receiver, count-write_slot s.queue c.msg);
          senders =
              ground (arith, inv.senders, b, b', w, w', count-write_slot s.queue c.msg, woken_le);
        })
