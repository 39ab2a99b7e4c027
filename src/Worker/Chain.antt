-- ===== src/Worker/Chain.antt =====
-- The doubly linked list of the job queue, as a relation between the memory and a list of addresses.
--
-- The first job's `prev` is left open: a worker that takes the head does not write to its successor.
use open_hsm.Base.{
  ◌≡◌, ◌≢◌, ◌⊎◌, refl, ap, sym, ◌∙◌, true, List, [], ◌∷◌, ◌++◌, arith, ◌==◌, if◌then◌else◌, Ptr,
  null, inl, inr, Bool-cases,
}
use open_hsm.Worker.{Job}
use open_hsm.Worker.Members.{has, Distinct, erase}
use open_hsm.Worker.Ops.{unlink_jobs}

-- From `x` the `next` pointers lead through `xs` to `last` and NULL, and the `prev` pointers back.
abbrev pub Chain : (Ptr → Job) → Ptr → List Ptr → Ptr → Type 0
Chain h x [] last = ((h x).next ≡ null) × (last ≡ x)
Chain h x (y ∷ ys) last = ((h x).next ≡ y) × (y ≢ null) × ((h y).prev ≡ x) × Chain h y ys last

-- The queue's two pointers delimit the jobs `xs`.
abbrev pub IsLinked : (Ptr → Job) → (head tail : Ptr) → List Ptr → Type 0
IsLinked h head tail [] = (head ≡ null) × (tail ≡ null)
IsLinked h head tail (x ∷ xs) = (head ≡ x) × (x ≢ null) × Chain h x xs tail

-- `g` has the links of `h` at every address of `xs`.
abbrev pub SameLinks : (h g : Ptr → Job) → List Ptr → Type 0
SameLinks h g xs =
    (a : Ptr) → has a xs ≡ true → ((g a).next ≡ (h a).next) × ((g a).prev ≡ (h a).prev)

-- A chain survives any write that spares the `next` of its first job and the links of the others.
pub Chain-frame :
    (h g : Ptr → Job) (x : Ptr) (xs : List Ptr) (last : Ptr)
    → Chain h x xs last
    → (g x).next ≡ (h x).next
    → SameLinks h g xs
    → Chain g x xs last
Chain-frame h g x [] last c e same = (e ∙ c.0, c.1)
Chain-frame h g x (y ∷ ys) last c e same = (
  e ∙ c.0,
  c.1,
  (same y (ground arith)).1 ∙ c.2,
  Chain-frame h g y ys last c.3 (same y (ground arith)).0 (λ a i. same a (ground arith)),
)

-- The last job is on the list.
pub has-last :
    (h : Ptr → Job) (x : Ptr) (xs : List Ptr) (last : Ptr)
    → Chain h x xs last
    → has last (x ∷ xs) ≡ true
has-last h x [] last c = ground arith
has-last h x (y ∷ ys) last c = ground (arith, has-last h y ys last c.3)

pub last-ne_null :
    (h : Ptr → Job) (x : Ptr) (xs : List Ptr) (last : Ptr)
    → Chain h x xs last
    → x ≢ null
    → last ≢ null
last-ne_null h x [] last c nz = λ e. nz (sym c.1 ∙ e)
last-ne_null h x (y ∷ ys) last c nz = last-ne_null h y ys last c.3 c.1

pub mem-ne_null :
    (h : Ptr → Job) (x : Ptr) (xs : List Ptr) (last a : Ptr)
    → Chain h x xs last
    → x ≢ null
    → has a (x ∷ xs) ≡ true
    → a ≢ null
mem-ne_null h x [] last a c nz i = ground arith
mem-ne_null h x (y ∷ ys) last a c nz i = ground (arith, mem-ne_null h y ys last a c.3 c.1)

-- A job that is put behind the last one becomes the last one.
pub Chain-snoc :
    (h g : Ptr → Job) (x : Ptr) (xs : List Ptr) (last job : Ptr)
    → Chain h x xs last
    → Distinct (x ∷ xs)
    → job ≢ null
    → ((g last).next ≡ job) × ((g job).next ≡ null) × ((g job).prev ≡ last)
    → ((a : Ptr) → has a (x ∷ xs) ≡ true → a ≢ last → (g a).next ≡ (h a).next)
    → ((a : Ptr) → has a xs ≡ true → (g a).prev ≡ (h a).prev)
    → Chain g x (xs ++ job ∷ []) job
Chain-snoc h g x [] last job c d nz (n, jn, jp) sn sp =
    (ap (λ (p : Ptr). (g p).next) (sym c.1) ∙ n, nz, jp ∙ c.1, (jn, refl))
Chain-snoc h g x (y ∷ ys) last job c d nz (n, jn, jp) sn sp = (
  sn x (ground arith) (ground (arith, has-last h y ys last c.3)) ∙ c.0,
  c.1,
  sp y (ground arith) ∙ c.2,
  Chain-snoc h g y ys last job c.3 d.1 nz (n, jn, jp) (λ a i ne. sn a (ground arith) ne)
      (λ a i. sp a (ground arith)),
)

-- Where the two pointers of a job on the list lead.
pub next-has :
    (h : Ptr → Job) (x : Ptr) (xs : List Ptr) (last z : Ptr)
    → Chain h x xs last
    → has z (x ∷ xs) ≡ true
    → ((h z).next ≡ null) ⊎ (has (h z).next xs ≡ true)
next-has h x [] last z c i = inl (ground arith)
next-has h x (y ∷ ys) last z c i = elim (Bool-cases (z == x)) [
  | inl e ↦ inr (ground arith)
  | inr ne ↦ elim (next-has h y ys last z c.3 (ground arith)) [
    | inl end ↦ inl end
    | inr on ↦ inr (ground arith)
  ]
]

pub prev-has :
    (h : Ptr → Job) (x : Ptr) (xs : List Ptr) (last z : Ptr)
    → Chain h x xs last
    → has z xs ≡ true
    → has (h z).prev (x ∷ xs) ≡ true
prev-has h x [] last z c i = ground arith
prev-has h x (y ∷ ys) last z c i = elim (Bool-cases (z == y)) [
  | inl e ↦ ground arith
  | inr ne ↦ ground (arith, prev-has h y ys last z c.3 (ground arith))
]

-- The links after the two writes of `osa_worker_pool_cancel`.
pub next-unlink_jobs :
    (z : Ptr) (h : Ptr → Job) (a : Ptr)
    → (unlink_jobs z h a).next ≡ (
        if (h z).prev == null
        then (h a).next
        else if a == (h z).prev
        then (h z).next
        else (h a).next)
unfolding unlink_jobs
next-unlink_jobs z h a = ground arith

pub prev-unlink_jobs :
    (z : Ptr) (h : Ptr → Job) (a : Ptr)
    → (unlink_jobs z h a).prev ≡ (
        if (h z).next == null
        then (h a).prev
        else if a == (h z).next
        then (h z).prev
        else (h a).prev)
unfolding unlink_jobs
prev-unlink_jobs z h a = ground arith

-- The tail pointer after them.
abbrev pub tail_after : Ptr → (Ptr → Job) → Ptr → Ptr
tail_after z h last = if (h z).next == null then (h z).prev else last

-- Taking out the second of at least three jobs.
Chain-unlink_second :
    (h : Ptr → Job) (x y w : Ptr) (ws : List Ptr) (last : Ptr)
    → Chain h x (y ∷ w ∷ ws) last
    → Distinct (x ∷ y ∷ w ∷ ws)
    → x ≢ null
    → Chain (unlink_jobs y h) x (w ∷ ws) last
Chain-unlink_second h x y w ws last (xy, ynz, back, (yw, wnz, wback, c)) d nz = (
  ground (arith, next-unlink_jobs y h x),
  wnz,
  ground (arith, prev-unlink_jobs y h w),
  Chain-frame h (unlink_jobs y h) w ws last c (ground (arith, next-unlink_jobs y h w))
      (λ a i. (ground (arith, next-unlink_jobs y h a), ground (arith, prev-unlink_jobs y h a))),
)

-- A job behind the first is taken out of the chain.
pub Chain-unlink :
    (h : Ptr → Job) (x : Ptr) (xs : List Ptr) (last z : Ptr)
    → Chain h x xs last
    → Distinct (x ∷ xs)
    → x ≢ null
    → has z xs ≡ true
    → Chain (unlink_jobs z h) x (erase z xs) (tail_after z h last)
Chain-unlink h x [] last z c d nz i = cc
Chain-unlink h x (y ∷ []) last z c d nz i = ground (arith, next-unlink_jobs z h x)
Chain-unlink h x (y ∷ w ∷ ws) last z c d nz i = elim (Bool-cases (z == y)) [
  | inl e ↦
      let same : z ≡ y = ground arith in
      simp e (ground (arith, Chain-unlink_second h x y w ws last c d nz))
  | inr ne ↦
      let on : has z (w ∷ ws) ≡ true = ground arith in
      let rest = Chain-unlink h y (w ∷ ws) last z c.3 d.1 c.1 on in
      simp ne (
        ground (arith, next-unlink_jobs z h x, prev-has h y (w ∷ ws) last z c.3 on),
        c.1,
        ground (arith, prev-unlink_jobs z h y, next-has h y (w ∷ ws) last z c.3 i),
        rest,
      )
]
