-- ===== src/Queue/Trace.antt =====
-- Any sequence of calls that do not wait, against a bounded first-in first-out queue of messages.
use open_hsm.Base.{
  ℕ, ◌<◌, ◌≡◌, inl, inr, refl, ap, ap₂, ◌∙◌, true, false, Option, none, some, List, [], ◌∷◌, ◌++◌,
  arith, length, take-length, ℤ, pos, minus, eagain, if◌then◌else◌, Bool-cases, leb, All,
}
use open_hsm.Queue.{
  Queue, Message, returned, Sent, Received, full, empty, write_slot, read_slot, send_ready,
  receive_ready, send, receive,
}
use open_hsm.Queue.Valid.{IsValid, read_slot-IsValid, write_slot-IsValid}
use open_hsm.Queue.Fifo.{contents, length-contents, contents-read_slot, contents-write_slot}

pub data Call : Type 0 where
  put : Message → Call
  get : Call

-- The code of a call and, for a receive, the message.
abbrev pub Reply : Type 0
Reply = ℤ × Option Message

-- The abstract queue: at most `cap` messages, oldest first.
unfoldable pub spec_step : ℕ → List Message → Call → Reply × List Message
spec_step cap ms (put m) =
    if leb cap (length ms) then ((minus eagain, none), ms) else ((pos 0, none), ms ++ m ∷ [])
spec_step cap [] get = ((minus eagain, none), [])
spec_step cap (m ∷ ms) get = ((pos 0, some m), ms)

unfoldable pub spec_run : ℕ → List Message → List Call → List Reply
unfolding spec_step
spec_run cap ms [] = []
spec_run cap ms (c ∷ cs) = let (r, ms') = spec_step cap ms c in r ∷ spec_run cap ms' cs

-- A call at timeout 0 never blocks, so the other cases of these two are not met.
abbrev sent : Queue → Sent → Reply × Queue
sent q (returned (c, some q')) = ((c, none), q')
sent q _ = ((pos 0, none), q)

abbrev received : Queue → Received → Reply × Queue
received q (returned (c, m, some q')) = ((c, m), q')
received q _ = ((pos 0, none), q)

unfoldable pub step : Queue → Call → Reply × Queue
step q (put m) = sent q (send (some q) (some m) q.msg_size (pos 0) [])
step q get = received q (receive (some q) true q.msg_size (pos 0) [])

unfoldable pub run : Queue → List Call → List Reply
unfolding step
run q [] = []
run q (c ∷ cs) = let (r, q') = step q c in r ∷ run q' cs

pub record IsOpen (size cap : ℕ) (q : Queue) : Type 0 where
  pub valid : IsValid q
  pub opened : q.closed ≡ false
  pub sized : q.msg_size ≡ size
  pub capped : q.max_msgs ≡ cap

step-put :
    (q : Queue) (m : Message)
    → q.closed ≡ false
    → step q (put m)
      ≡ (if full q then ((minus eagain, none), q) else ((pos 0, none), write_slot q m))
unfolding step send send_ready
step-put q m o = ground arith

step-get :
    (q : Queue)
    → q.closed ≡ false
    → step q get ≡ (
        if empty q
        then ((minus eagain, none), q)
        else ((pos 0, some (read_slot q).0), (read_slot q).1))
unfolding step receive receive_ready
step-get q o = ground arith

-- Every message that is sent has the queue's message size.
abbrev pub Sized : ℕ → Call → Type 0
Sized size (put m) = length m ≡ size
Sized size get = Unit

-- One call replies as the bounded queue does, and leaves the ring holding what that leaves.
pub record Simulates (size cap : ℕ) (c : Call) (q : Queue) : Type 0 where
  pub next : IsOpen size cap (step q c).1
  pub reply : (step q c).0 ≡ (spec_step cap (contents q) c).0
  pub holds : contents (step q c).1 ≡ (spec_step cap (contents q) c).1

module _ (size cap : ℕ) (q : Queue) (o : IsOpen size cap q) where
  pub write_slot-IsOpen : (m : Message) → q.count < q.max_msgs → IsOpen size cap (write_slot q m)
  unfolding write_slot
  write_slot-IsOpen m room = record {
    valid = write_slot-IsValid o.valid m room;
    opened = o.opened;
    sized = o.sized;
    capped = o.capped;
  }

  pub read_slot-IsOpen : 0 < q.count → IsOpen size cap (read_slot q).1
  unfolding read_slot
  read_slot-IsOpen there = record {
    valid = read_slot-IsValid o.valid there;
    opened = o.opened;
    sized = o.sized;
    capped = o.capped;
  }

  put-Simulates : (m : Message) → length m ≡ size → Simulates size cap (put m) q
  unfolding spec_step
  put-Simulates m h = elim (Bool-cases (full q)) [
    | inl no_room ↦
        let e : step q (put m) ≡ ((minus eagain, none), q) = step-put q m o.opened ∙ simp no_room in
        let f : leb cap (length (contents q)) ≡ true = ground (arith, length-contents q) in
        record { next = rw e o; reply = simp (e, f); holds = simp (e, f) }
    | inr room ↦
        let e : step q (put m) ≡ ((pos 0, none), write_slot q m) =
          step-put q m o.opened ∙ simp room in
        let f : leb cap (length (contents q)) ≡ false = ground (arith, length-contents q) in
        let has_room : q.count < q.max_msgs = ground arith in
        record {
          next = rw e (write_slot-IsOpen m has_room);
          reply = simp (e, f);
          holds =
              simp (e, f)
                (contents-write_slot o.valid m (omega arith) has_room
                  ∙ ap (λ (n : Message). contents q ++ n ∷ [])
                      (take-length q.msg_size m (omega arith)));
        }
  ]

  get-Simulates : Simulates size cap get q
  unfolding spec_step
  get-Simulates = elim (Bool-cases (empty q)) [
    | inl nothing ↦
        let e : step q get ≡ ((minus eagain, none), q) = step-get q o.opened ∙ simp nothing in
        let f : contents q ≡ [] = ground (arith, length-contents q) in
        record {
          next = rw e o;
          reply = rw e (simp (f, spec_step));
          holds = rw e (simp (f, spec_step));
        }
    | inr something ↦
        let there : 0 < q.count = ground arith in
        let e : step q get ≡ ((pos 0, some (read_slot q).0), (read_slot q).1) =
          step-get q o.opened ∙ simp something in
        let f : contents q ≡ (read_slot q).0 ∷ contents (read_slot q).1 =
          contents-read_slot o.valid there in
        record {
          next = rw e (read_slot-IsOpen there);
          reply = ground (arith, e, f);
          holds = ground (arith, e, f);
        }
  ]

step-Simulates :
    (size cap : ℕ) (q : Queue) (c : Call)
    → IsOpen size cap q
    → Sized size c
    → Simulates size cap c q
step-Simulates size cap q (put m) o h = put-Simulates size cap q o m h
step-Simulates size cap q get o h = get-Simulates size cap q o

-- No sequence of sends and receives at timeout 0, with messages of the queue's size, tells an open
-- valid ring from the bounded first-in first-out queue of the messages that it holds.
pub run_refines :
    (size cap : ℕ) (q : Queue) (cs : List Call)
    → IsOpen size cap q
    → All (Sized size) cs
    → run q cs ≡ spec_run cap (contents q) cs
unfolding run spec_run
run_refines size cap q [] o a = refl
run_refines size cap q (c ∷ cs) o a =
    let s = step-Simulates size cap q c o a.0 in
    ap₂ ◌∷◌ s.reply
      (run_refines size cap (step q c).1 cs s.next a.1 ∙ ap (λ ms. spec_run cap ms cs) s.holds)
