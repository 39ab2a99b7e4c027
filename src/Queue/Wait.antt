-- ===== src/Queue/Wait.antt =====
-- The loops around `pthread_cond_wait`: which wake ends them, and how.
use open_hsm.Base.{
  Bool, ◌≡◌, ◌≢◌, true, false, not, ◌&&◌, List, [], ◌∷◌, ◌++◌, arith, ℤ, pos, negsuc, minus, is_neg,
  etimedout, ◌==◌, if◌then◌else◌, All,
}
use open_hsm.Queue.{Queue, Wake, ready, quit, wait_while, wait_for}

module _ (held : Queue → Bool) where
  -- The wait goes on after such a wake.
  abbrev pub Spurious : Wake → Type 0
  Spurious w = (held w.queue ≡ true) × (w.queue.closed ≡ false) × (w.status ≢ etimedout)

  -- The wait ends with the state that such a wake finds.
  abbrev pub Ends : Wake → Type 0
  Ends w = (held w.queue && not w.queue.closed) ≡ false

  pub wait_while-ready :
      (timed : Bool) (q : Queue) (ws : List Wake)
      → (held q && not q.closed) ≡ false
      → wait_while held timed q ws ≡ ready q
  unfolding wait_while
  wait_while-ready timed q [] e = ground arith
  wait_while-ready timed q (w ∷ ws) e = ground arith

  wait_while-woken :
      (timed : Bool) (q : Queue) (before after : List Wake) (w : Wake)
      → (held q ≡ true) × (q.closed ≡ false)
      → All Spurious before
      → Ends w
      → wait_while held timed q (before ++ w ∷ after) ≡ (
          if timed && (w.status == etimedout)
          then quit (minus etimedout) w.queue
          else ready w.queue)
  unfolding wait_while
  wait_while-woken timed q [] after w o a e = ground (arith, wait_while-ready timed w.queue after e)
  wait_while-woken timed q (b ∷ before) after w o a e =
      ground (arith, wait_while-woken timed b.queue before after w (a.0.0, a.0.1) a.1 e)

  -- A caller that has to wait comes back at the first wake that ends its wait.
  pub wait_for-woken :
      (t : ℤ) (q : Queue) (before after : List Wake) (w : Wake)
      → t ≢ pos 0
      → (held q ≡ true) × (q.closed ≡ false)
      → All Spurious before
      → Ends w
      → wait_for held t q (before ++ w ∷ after) ≡ (
          if not (is_neg t) && (w.status == etimedout)
          then quit (minus etimedout) w.queue
          else ready w.queue)
  unfolding wait_for
  wait_for-woken (pos t) q before after w nz o a e =
      ground (arith, wait_while-woken true q before after w o a e)
  wait_for-woken (negsuc n) q before after w nz o a e =
      ground (arith, wait_while-woken false q before after w o a e)
