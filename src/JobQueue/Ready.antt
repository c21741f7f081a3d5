-- ===== src/JobQueue/Ready.antt =====
-- The states between the operations of pthread/job_queue.c, and a job that may be linked in.
use unix_demos.Base.{ℕ, ◌≡◌, ◌≢◌, false, some, List}
use unix_demos.JobQueue.Heap.{Ptr, null, job, Lock, Heap, Queue}
use unix_demos.JobQueue.Chain.{Jobs, has, Holds}

-- The queue holds `xs`, its lock is free, and the output is `o`.
pub record Ready (o : List ℕ) (xs : Jobs) (t : Queue) : Type 0 where
  pub holds : Holds t xs
  pub unlocked : t.q_lock ≡ Lock.free
  pub silent : t.out ≡ o

-- A job that is in memory, at an address that no job of `xs` has.
pub record Fresh (h : Heap) (xs : Jobs) (p : Ptr) (i : ℕ) : Type 0 where
  pub ne_null : p ≢ null
  pub new : has p xs ≡ false
  pub prev : Ptr
  pub next : Ptr
  pub there : h p ≡ some (job i prev next)
