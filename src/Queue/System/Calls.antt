-- ===== src/Queue/System/Calls.antt =====
-- What a call comes to when it goes on after a wait.
use open_hsm.Base.{
  ◌≡◌, ◌≢◌, inl, inr, refl, Bool, true, false, not, ◌&&◌, some, List, [], ◌∷◌, ◌++◌, arith, ℤ, pos,
  negsuc, minus, is_neg, etimedout, if◌then◌else◌, Bool-cases, ◌==◌,
}
use open_hsm.Queue.{
  Queue, Message, Wake, Waited, ready, quit, asleep, blocked, full, empty, wait_while, wait_for,
  send_ready, receive_ready, send, receive,
}

-- How a wait goes on at its next wake.
abbrev pub next_wait : (Queue → Bool) → Bool → Wake → Waited
next_wait held timed w =
    if timed && (w.status == etimedout)
    then quit (minus etimedout) w.queue
    else wait_while held timed w.queue []

module _ (held : Queue → Bool) where
  wait_while-snoc :
      (timed : Bool) (q : Queue) (ws : List Wake) (w : Wake)
      → wait_while held timed q ws ≡ asleep
      → wait_while held timed q (ws ++ w ∷ []) ≡ next_wait held timed w
  unfolding wait_while
  wait_while-snoc timed q [] w e = ground (arith, e)
  wait_while-snoc timed q (v ∷ ws) w e = ground (arith, e, wait_while-snoc timed v.queue ws w)

  wait_for-snoc :
      (t : ℤ) (q : Queue) (ws : List Wake) (w : Wake)
      → wait_for held t q ws ≡ asleep
      → wait_for held t q (ws ++ w ∷ []) ≡ next_wait held (not (is_neg t)) w
  unfolding wait_for
  wait_for-snoc (pos t) q ws w e = ground (arith, e, wait_while-snoc true q ws w)
  wait_for-snoc (negsuc n) q ws w e = ground (arith, e, wait_while-snoc false q ws w)

send_ready-blocked : (m : Message) (w : Waited) → send_ready m w ≡ blocked → w ≡ asleep
unfolding send_ready
send_ready-blocked m asleep e = refl
send_ready-blocked m (quit c q) e = cc
send_ready-blocked m (ready q) e = ground (arith, e)

receive_ready-blocked : (w : Waited) → receive_ready w ≡ blocked → w ≡ asleep
unfolding receive_ready
receive_ready-blocked asleep e = refl
receive_ready-blocked (quit c q) e = cc
receive_ready-blocked (ready q) e = ground (arith, e)

pub send-snoc :
    (q : Queue) (m : Message) (t : ℤ) (ws : List Wake) (w : Wake)
    → send (some q) (some m) q.msg_size t ws ≡ blocked
    → send (some q) (some m) q.msg_size t (ws ++ w ∷ [])
      ≡ send_ready m (next_wait full (not (is_neg t)) w)
unfolding send
send-snoc q m t ws w e =
    ground (arith, e, send_ready-blocked m (wait_for full t q ws), wait_for-snoc full t q ws w)

pub receive-snoc :
    (q : Queue) (t : ℤ) (ws : List Wake) (w : Wake)
    → receive (some q) true q.msg_size t ws ≡ blocked
    → receive (some q) true q.msg_size t (ws ++ w ∷ [])
      ≡ receive_ready (next_wait empty (not (is_neg t)) w)
unfolding receive
receive-snoc q t ws w e =
    ground (arith, e, receive_ready-blocked (wait_for empty t q ws), wait_for-snoc empty t q ws w)

pub next_wait-on :
    (held : Queue → Bool) (timed : Bool) (w : Wake)
    → w.status ≢ etimedout
    → next_wait held timed w ≡ wait_while held timed w.queue []
next_wait-on held timed w on =
    let off : (w.status == etimedout) ≡ false = ground (arith, on) in
    elim (Bool-cases timed) [ inl e ↦ rw (e, off) refl | inr e ↦ rw e refl ]

pub next_wait-over :
    (held : Queue → Bool) (t : ℤ) (q : Queue)
    → is_neg t ≡ false
    → next_wait held (not (is_neg t)) (record { status = etimedout; queue = q })
      ≡ quit (minus etimedout) q
next_wait-over held t q timed = rw timed refl
