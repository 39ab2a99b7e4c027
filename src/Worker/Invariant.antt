-- ===== src/Worker/Invariant.antt =====
-- The invariant of the job queue, and the memory that an operation may leave alone.
use open_hsm.Base.{◌≡◌, ◌≤◌, ◌<◌, ◌^◌, true, List, length, Ptr}
use open_hsm.Worker.{pending, Store}
use open_hsm.Worker.Members.{has, Distinct}
use open_hsm.Worker.Chain.{IsLinked}

-- The queue holds the jobs `xs`, oldest first: they are linked, distinct, counted and pending.
pub record IsQueue (s : Store) (xs : List Ptr) : Type 0 where
  pub linked : IsLinked s.jobs s.pool.head s.pool.tail xs
  pub distinct : Distinct xs
  pub depth : s.pool.stats.queue_depth ≡ length xs
  pub bounded : length xs ≤ s.pool.queue_size
  pub small : s.pool.queue_size < 2 ^ 32
  pub waiting : (a : Ptr) → has a xs ≡ true → (s.jobs a).state ≡ pending
