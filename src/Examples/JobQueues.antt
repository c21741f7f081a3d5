-- ===== src/Examples/JobQueues.antt =====
-- pthread/job_queue.c at concrete queues.
use unix_demos.Base.{ℕ, suc, ◌*◌, refl, none, [], ◌∷◌, ◌++◌, arith}
use unix_demos.JobQueue.Heap.{Ptr, null, job, Lock, Heap, Queue, Returns, write}
use unix_demos.JobQueue.Chain.{Jobs, view, Holds, copies}
use unix_demos.JobQueue.Ready.{Ready, Fresh}
use unix_demos.JobQueue.{job_insert, job_append, job_remove, inserting, deleting, thr_fn1}
use unix_demos.JobQueue.Insert.{job_insert-cons}
use unix_demos.JobQueue.Append.{job_append-snoc}
use unix_demos.JobQueue.Remove.{job_remove-append}
use unix_demos.JobQueue.Fill.{Allocates}
use unix_demos.JobQueue.Drain.{thr_fn1-nil}

abbrev empty_heap : Heap
empty_heap a = none

-- Three jobs, and a fourth in memory that is not linked in.
abbrev three : Jobs
three = (16, 0) ∷ (32, 1) ∷ (48, 2) ∷ []

abbrev memory : Heap
memory =
    write (write (write (write empty_heap 16 (job 0 null 32)) 32 (job 1 16 48)) 48 (job 2 32 null))
      64 (job 7 null null)

abbrev s3 : Queue
s3 = view Lock.free three memory []

s3-Holds : Holds s3 three
unfolding write
s3-Holds = record {
  head = refl;
  tail = refl;
  chain = (refl, (refl, (refl, tt)));
  distinct = (omega arith, refl, (omega arith, refl, (omega arith, refl, tt)));
}

fourth : Fresh memory three 64 7
unfolding write
fourth = record { ne_null = omega arith; new = refl; prev = null; next = null; there = refl }

job_insert-cons_example : Returns (λ _ t. Ready [] ((64, 7) ∷ three) t) (job_insert 64 s3)
job_insert-cons_example = job_insert-cons s3-Holds refl fourth

job_append-snoc_example : Returns (λ _ t. Ready [] (three ++ (64, 7) ∷ []) t) (job_append 64 s3)
job_append-snoc_example = job_append-snoc s3-Holds refl fourth

job_remove-append_example : Returns (λ _ t. Ready [] ((16, 0) ∷ (48, 2) ∷ []) t) (job_remove 32 s3)
job_remove-append_example = job_remove-append 32 1 ((16, 0) ∷ []) ((48, 2) ∷ []) s3-Holds refl

abbrev malloc : ℕ → Ptr
malloc j = 16 * suc j

malloc-Allocates : Allocates malloc
malloc-Allocates = record { ne_null = λ j. omega arith; once = λ j k e. omega arith }

abbrev s0 : Queue
s0 = view Lock.free [] empty_heap []

s0-Holds : Holds s0 []
s0-Holds = record { head = refl; tail = refl; chain = tt; distinct = tt }

thr_fn1-nil_example :
    Returns (λ _ t. Ready (copies 20 inserting ++ copies 20 deleting) [] t) (thr_fn1 malloc s0)
thr_fn1-nil_example = thr_fn1-nil malloc malloc-Allocates s0-Holds refl
