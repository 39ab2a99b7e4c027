-- ===== src/PoolExample.antt =====
-- examples/linux/worker_pool.c: jobs that count themselves, submitted in a loop.
--
-- `items` is the address of job_items, `numbers` that of ids, an element being one address wide;
-- `job_func` and `done` are the addresses of test_job_func and of completion_callback, which prints.
-- The program has one job function and no HSM. Its pool has two workers; here one of them does all the
-- work, after the last submission. The arrays of the program have ten elements each, so that the
-- natural number `job_count` stays far below the largest `int`.
pub mod Batch
pub mod Setup
mod Tests
use open_hsm.Base.{ℕ, zero, suc, ◌+◌, ◌*◌, List, [], ◌∷◌, ℤ, pos, Ptr, null, update, Option}
use open_hsm.Hsm.{Event}
use open_hsm.Worker.{Store}
use open_hsm.Worker.Slots.{job_init}
use open_hsm.Worker.Ops.{submit}
use open_hsm.Worker.Loop.{Stop, worker_loop}

-- The variables of the program: `job_count`, and what an `int *` leads to.
pub record Program : Type 0 where
  pub job_count : ℕ
  pub ids : Ptr → ℕ

-- `test_job_func`: the result, and one more job counted.
unfoldable pub test_job_func : (f ctx : Ptr) → Program → ℤ × Program
test_job_func f ctx w = (pos (w.ids ctx * 10), record w { job_count = w.job_count + 1 })

-- `completion_callback` only prints.
abbrev pub print_result : (cb job : Ptr) → ℤ → (ctx : Ptr) → Program → Program
print_result cb job result ctx w = w

abbrev pub no_hsm : Ptr → Event → Program → Program
no_hsm hsm e w = w

module _ (items numbers job_func done pool : Ptr) where
  -- The loop of `main` over `n` jobs from number `i` on, with what each submission returned.
  unfoldable pub submit_jobs : (n i : ℕ) → Store × Program → List ℤ × (Store × Program)
  submit_jobs zero i x = ([], x)
  submit_jobs (suc n) i (s, w) =
      let w' = record w { ids = update w.ids (numbers + i) (i + 1) } in
      let (c, s') =
        submit pool (items + i) (job_init (items + i) job_func (numbers + i) done null s) in
      let (cs, x) = submit_jobs n (suc i) (s', w') in (c ∷ cs, x)

  -- The jobs are submitted, and then a worker runs them, with `f` as the fuel of its loop.
  unfoldable pub run_jobs :
      (job_size f n : ℕ) → Store × Program → List ℤ × Option (Stop × Store × Program)
  run_jobs job_size f n x =
      let (cs, y) = submit_jobs n 0 x in
      (cs, worker_loop test_job_func print_result no_hsm job_size f y)
