-- ===== src/Queue/System/Receivers.antt =====
-- The steps of a receiver keep the invariant.
use mathlib.Core.List.{append_assoc}
use open_hsm.Base.{
  ℕ, zero, suc, ◌+◌, ◌-◌, ◌<◌, ◌≤◌, ◌≡◌, ◌⊎◌, inl, inr, refl, ap, sym, subst, ◌∙◌, Bool, true,
  false, not, none, some, List, [], ◌∷◌, ◌++◌, arith, ℤ, pos, negsuc, minus, is_neg, eagain,
  etimedout, update, Bool-cases,
}
use open_hsm.Queue.{
  Queue, Message, Wake, Received, returned, blocked, empty, wait_while, wait_for, read_slot,
  receive_ready, receive,
}
use open_hsm.Queue.Receive.{receive-there}
use open_hsm.Queue.Fifo.{contents, contents-read_slot}
use open_hsm.Queue.Trace.{read_slot-IsOpen}
use open_hsm.Queue.System.{
  Receiving, received, receive_on, Pc, outside, receive_asleep, receive_woken, sleeping_senders,
  woken_senders, woken_receivers, System, Signalled, Receives, enters, resumes, expires,
}
use open_hsm.Queue.System.Calls.{receive-snoc, next_wait-on, next_wait-over}
use open_hsm.Queue.System.Invariant.{
  Waits, Inv, update-Waits, total-moves, Signalled-Waits, Signalled-senders,
}

-- The three ways in which the call of a receiver goes on with an open queue `q`.
abbrev Outcome : (woken : ℕ) → Queue → Received → Type 0
Outcome woken q o =
    ((o ≡ blocked) × (empty q ≡ true))
    ⊎ (((code : ℤ) × (o ≡ returned (code, none, some q)) × (woken ≡ 0))
        ⊎ ((empty q ≡ false) × (o ≡ returned (pos 0, some (read_slot q).0, some (read_slot q).1))))

count-read_slot : (q : Queue) → (read_slot q).1.count ≡ q.count - 1
unfolding read_slot
count-read_slot q = refl

module _ (w : ℕ) (q : Queue) {o : Received} where
  Outcome-blocked : Outcome w q o → o ≡ blocked → empty q ≡ true
  Outcome-blocked (inl (_, f)) e = f
  Outcome-blocked (inr (inl (code, f, _))) e = cc
  Outcome-blocked (inr (inr (_, f))) e = cc

  Outcome-fails :
      {code : ℤ} {q' : Queue}
      → Outcome w q o
      → o ≡ returned (code, none, some q')
      → (q' ≡ q) × (w ≡ 0)
  Outcome-fails (inl (f, _)) e = cc
  Outcome-fails (inr (inl (code, f, none_woken))) e = (cc, none_woken)
  Outcome-fails (inr (inr (_, f))) e = cc

  Outcome-done :
      {m : Message} {q' : Queue}
      → Outcome w q o
      → o ≡ returned (pos 0, some m, some q')
      → (empty q ≡ false) × (m ≡ (read_slot q).0) × (q' ≡ (read_slot q).1)
  Outcome-done (inl (f, _)) e = cc
  Outcome-done (inr (inl (code, f, _))) e = cc
  Outcome-done (inr (inr (there, f))) e = (there, cc, cc)

-- What is known of thread `i` when it goes on with the call `c`.
pub record Turn (s : System) (i : ℕ) (c : Receiving) : Type 0 where
  pub no_sender : (sleeping_senders (s.pc i) ≡ 0) × (woken_senders (s.pc i) ≡ 0)
  pub outcome : Outcome (woken_receivers (s.pc i)) s.queue (received c)

module _ (q : Queue) (o : q.closed ≡ false) where
  empty-Outcome : (t : ℤ) → empty q ≡ true → Outcome 0 q (receive (some q) true q.msg_size t [])
  unfolding receive receive_ready wait_for wait_while
  empty-Outcome (pos zero) nothing = inr (inl (minus eagain, ground arith, refl))
  empty-Outcome (pos (suc n)) nothing = inl (ground arith, nothing)
  empty-Outcome (negsuc n) nothing = inl (ground arith, nothing)

  new-Outcome : (t : ℤ) → Outcome 0 q (receive (some q) true q.msg_size t [])
  new-Outcome t = elim (Bool-cases (empty q)) [
    | inr there ↦ inr (inr (there, receive-there q t [] (ground arith)))
    | inl nothing ↦ empty-Outcome t nothing
  ]

  woken-Outcome : (timed : Bool) (w : ℕ) → Outcome w q (receive_ready (wait_while empty timed q []))
  unfolding receive_ready wait_while
  woken-Outcome timed w = elim (Bool-cases (empty q)) [
    | inl nothing ↦ inl (ground arith, nothing)
    | inr there ↦ inr (inr (there, ground arith))
  ]

woken-le-one : (p : Pc) → woken_receivers p ≤ 1
woken-le-one p = ground arith

module _ {size cap n : ℕ} {s : System} (inv : Inv size cap n s) (i : ℕ) where
  open inv use {is_open, waits}

  -- What a thread in a receive brings with it.
  in_receive :
      (c : Receiving)
      → (s.pc i ≡ receive_woken c) ⊎ (s.pc i ≡ receive_asleep c)
      → received c ≡ blocked
  in_receive c (inl at) = subst (Waits size) at (waits i)
  in_receive c (inr at) = subst (Waits size) at (waits i)

  -- A call whose time is over comes back with ETIMEDOUT, whatever it finds.
  expired :
      (c : Receiving)
      → received c ≡ blocked
      → is_neg c.timeout ≡ false
      → received (receive_on etimedout s.queue c) ≡ returned (minus etimedout, none, some (s.queue))
  unfolding receive_ready
  expired c b timed =
      receive-snoc c.start c.timeout c.wakes (record { status = etimedout; queue = s.queue }) b
      ∙ ap receive_ready (next_wait-over empty c.timeout s.queue timed)

  Receives-Turn : {c : Receiving} → Receives s i c → Turn s i c
  unfolding receive_ready
  Receives-Turn (enters t at) = record {
    no_sender = rw at (refl, refl);
    outcome = rw at (new-Outcome s.queue is_open.opened t);
  }
  Receives-Turn (resumes c status at on) =
      let b = in_receive c (inl at) in
      let w : Wake = record { status = status; queue = s.queue } in
      let e =
        receive-snoc c.start c.timeout c.wakes w b
        ∙ ap receive_ready (next_wait-on empty (not (is_neg c.timeout)) w on) in
      record {
        no_sender = rw at (refl, refl);
        outcome = rw e (
            woken-Outcome s.queue is_open.opened (not (is_neg c.timeout))
              (woken_receivers (s.pc i)));
      }
  Receives-Turn (expires c at timed) =
      let b = in_receive c (inr at) in
      record {
        no_sender = rw at (refl, refl);
        outcome = inr (inl (minus etimedout, expired c b timed, rw at refl));
      }

  module _ (lt : i < n) where
    pub receive_sleeps-Inv :
        {c : Receiving}
        → Receives s i c
        → received c ≡ blocked
        → Inv size cap n (record s { pc = update s.pc i (receive_asleep c) })
    receive_sleeps-Inv {c} g b =
        let t = Receives-Turn g in
        let nothing = Outcome-blocked (woken_receivers (s.pc i)) s.queue t.outcome b in
        let (_, _, w, w') = total-moves n s.pc i lt (receive_asleep c) in
        record {
          is_open = is_open;
          fifo = inv.fifo;
          waits = update-Waits size s.pc i (receive_asleep c) waits b;
          receivers = inr (inr (ground arith));
          senders = ground (arith, inv.senders, w, w', t.no_sender);
        }

    pub receive_fails-Inv :
        {c : Receiving} (code : ℤ) (q : Queue)
        → Receives s i c
        → received c ≡ returned (code, none, some q)
        → Inv size cap n (record s { queue = q; pc = update s.pc i outside })
    receive_fails-Inv {c} code q g e =
        let t = Receives-Turn g in
        let (same, none_woken) = Outcome-fails (woken_receivers (s.pc i)) s.queue t.outcome e in
        let (r, r', w, w') = total-moves n s.pc i lt outside in
        rw same (record {
          is_open = is_open;
          fifo = inv.fifo;
          waits = update-Waits size s.pc i outside waits tt;
          receivers = ground (arith, inv.receivers, r, r', none_woken);
          senders = ground (arith, inv.senders, w, w', t.no_sender);
        })

    pub receive_overruns-Inv :
        (c : Receiving) (code : ℤ) (q : Queue)
        → s.pc i ≡ receive_woken c
        → is_neg c.timeout ≡ false
        → received (receive_on etimedout s.queue c) ≡ returned (code, none, some q)
        → Inv size cap n (record s { queue = q; pc = update s.pc i outside; lost = s.lost + 1 })
    receive_overruns-Inv c code q at timed e =
        let over : received (receive_on etimedout s.queue c)
            ≡ returned (minus etimedout, none, some (s.queue)) =
          expired c (in_receive c (inl at)) timed in
        let same : q ≡ s.queue = cc in
        rw same (record {
          is_open = is_open;
          fifo = inv.fifo;
          waits = update-Waits size s.pc i outside waits tt;
          receivers = inl (omega arith);
          senders = inl (omega arith);
        })

    pub receive_done-Inv :
        {c : Receiving} (m : Message) (q : Queue) (pc' : ℕ → Pc)
        → Receives s i c
        → received c ≡ returned (pos 0, some m, some q)
        → Signalled sleeping_senders n (update s.pc i outside) pc'
        → Inv size cap n (record s { queue = q; pc = pc'; delivered = s.delivered ++ m ∷ [] })
    receive_done-Inv {c} m q pc' g e sig =
        let t = Receives-Turn g in
        let (some_there, oldest, same) =
          Outcome-done (woken_receivers (s.pc i)) s.queue t.outcome e in
        let there : 0 < s.queue.count = ground arith in
        let (r, r', w, w') = total-moves n s.pc i lt outside in
        let (a, b, b') = Signalled-senders sig in
        let woken_le = woken-le-one (s.pc i) in
        rw (same, oldest)
          (record {
            is_open = read_slot-IsOpen size cap s.queue is_open there;
            fifo =
                inv.fifo
                ∙ ap (λ (ms : List Message). s.delivered ++ ms)
                    (contents-read_slot is_open.valid there)
                ∙ sym (
                    append_assoc s.delivered ((read_slot s.queue).0 ∷ [])
                      (contents (read_slot s.queue).1));
            waits = Signalled-Waits size sig (update-Waits size s.pc i outside waits tt);
            receivers =
                ground (arith, inv.receivers, b, b', r, r', count-read_slot s.queue, woken_le);
            senders = ground (arith, inv.senders, a, w, w', t.no_sender, count-read_slot s.queue);
          })
