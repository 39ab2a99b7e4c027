-- ===== src/Thread.antt =====
-- platform/linux/osa_thread.c: threads over pthread.
--
-- A handle is `none` for NULL. The answers of calloc and of the pthread calls are arguments: an errno
-- value is 0 for success.
use open_hsm.Base.{
  ℕ, Bool, false, not, ◌||◌, ◌&&◌, Option, none, some, List, [], take, ◌==◌, if◌then◌else◌, ℤ, pos,
  minus, ltb_ℤ, einval, enomem, Ptr, null,
}

-- `struct osa_thread_param`, where `name` is `none` for NULL.
pub record ThreadParam : Type 0 where
  pub name : Option (List ℕ)
  pub stack_size : ℤ
  pub priority : ℤ
  pub stack_buf : Ptr

-- `struct osa_thread_internal`
pub record Thread : Type 0 where
  pub pthread : Ptr
  pub name : List ℕ
  pub detached : Bool

-- What is set in a `pthread_attr_t`.
pub record Attr : Type 0 where
  pub stack_size : Option ℤ
  pub stack : Option (Ptr × ℤ)
  pub fifo_priority : Option ℤ

unfoldable pub attributes : ThreadParam → Attr
attributes param = record {
  stack_size = if ltb_ℤ (pos 0) param.stack_size then some param.stack_size else none;
  stack =
      if not (param.stack_buf == null) && ltb_ℤ (pos 0) param.stack_size
      then some (param.stack_buf, param.stack_size)
      else none;
  fifo_priority = if ltb_ℤ (pos 0) param.priority then some param.priority else none;
}

-- `out` and `entry` are whether these pointers are not NULL; `create` answers with an errno value and
-- the new thread.
unfoldable pub thread_create :
    (out : Bool)
    → Option ThreadParam
    → (entry : Bool) → (room : Bool) → (create : Attr → ℕ × Ptr) → ℤ × Option Thread
unfolding attributes
thread_create out none entry room create = (minus einval, none)
thread_create out (some param) entry room create =
    if not out || not entry
    then (minus einval, none)
    else if not room
    then (minus enomem, none)
    else (let (errno, pthread) = create (attributes param) in
        if not (errno == 0) then (minus errno, none) else (
          pos 0,
          some (record {
            pthread = pthread;
            name = elim param.name [ none ↦ [] | some text ↦ take 31 text ];
            detached = false;
          }),
        ))

-- The thread is cancelled, and the handle leads nowhere after.
unfoldable pub thread_delete : Option Thread → ℤ × Option Thread
thread_delete none = (minus einval, none)
thread_delete (some t) = (pos 0, none)

unfoldable pub thread_join : Option Thread → (errno : ℕ) → ℤ × Option Thread
thread_join none errno = (minus einval, none)
thread_join (some t) errno =
    if t.detached
    then (pos 0, some t)
    else if not (errno == 0)
    then (minus errno, some t)
    else (pos 0, none)
