-- ===== src/JobQueue.antt =====
-- pthread/job_queue.c: the operations on a queue of jobs that is doubly linked through an explicit
-- heap, and the two threads of the demonstration, with the text that they print. Each operation runs with the lock to itself.
-- `delay` and `sleep` only pass time and are left out. A loop over the jobs takes fuel; the
-- address that `malloc` returns is an argument.
pub mod Heap
pub mod Chain
pub mod Ready
pub mod Insert
pub mod Append
pub mod Remove
pub mod Walk
pub mod Fill
pub mod Drain
use unix_demos.Base.{ℕ, zero, suc, ◌+◌, ◌%◌, Bool, codes, num, not, List, ◌++◌, ◌==◌, if◌then◌else◌}
use Heap.{
  Ptr, null, Job, job, Lock, Queue, Cmd, out_of_fuel, exit, pure, ◌>>=◌, ◌>>◌, load, store,
  set_prev, set_next, set_id, get_head, get_tail, set_head, set_tail, print, wrlock, rdlock, unlock,
}

-- `pthread_rwlock_init` with the answer `err`: the lock is free if it succeeds.
rwlock_init : ℕ → Cmd ℕ
rwlock_init err s = if err == 0 then pure 0 (record s { q_lock = Lock.free }) else pure err s

pub queue_init : (err : ℕ) → Cmd ℕ
unfolding rwlock_init
queue_init err = do
  set_head null
  set_tail null
  r ← rwlock_init err
  if not (r == 0) then pure r else pure 0

pub job_insert : Ptr → Cmd (Unit {0})
job_insert jp = do
  wrlock
  head ← get_head
  set_next jp head
  set_prev jp null
  if not (head == null) then set_prev head jp else set_tail jp
  set_head jp
  unlock

pub job_append : Ptr → Cmd (Unit {0})
job_append jp = do
  wrlock
  tail ← get_tail
  set_prev jp tail
  set_next jp null
  if not (tail == null) then set_next tail jp else set_head jp
  set_tail jp
  unlock

remove_head : Ptr → Cmd (Unit {0})
remove_head jp = do
  j ← load jp
  set_head j.j_next
  tail ← get_tail
  if tail == jp then set_tail null else set_prev j.j_next null

remove_tail : Ptr → Cmd (Unit {0})
remove_tail jp = do
  j ← load jp
  set_tail j.j_prev
  head ← get_head
  if jp == head then set_head null else set_next j.j_prev null

remove_middle : Ptr → Cmd (Unit {0})
remove_middle jp = do
  j ← load jp
  set_next j.j_prev j.j_next
  j' ← load jp
  set_prev j'.j_next j'.j_prev

pub job_remove : Ptr → Cmd (Unit {0})
unfolding remove_head remove_tail remove_middle
job_remove jp = do
  wrlock
  head ← get_head
  tail ← get_tail
  if jp == head then remove_head jp else if jp == tail then remove_tail jp else remove_middle jp
  unlock

find_loop : ℕ → ℕ → Ptr → Cmd Ptr
find_loop zero id jp = λ _. out_of_fuel
find_loop (suc k) id jp =
    if jp == null
    then pure null
    else do j ← load jp; if j.j_id == id then pure jp else find_loop k id j.j_next

-- `err` is what `pthread_rwlock_rdlock` answers.
pub job_find : (rounds err : ℕ) → ℕ → Cmd Ptr
unfolding find_loop
job_find rounds err id =
    if not (err == 0)
    then pure null
    else do rdlock; head ← get_head; jp ← find_loop rounds id head; unlock; pure jp

traverse_loop : ℕ → Ptr → Cmd (Unit {0})
traverse_loop zero jp = λ _. out_of_fuel
traverse_loop (suc k) jp =
    if jp == null
    then pure tt
    else do j ← load jp; print (codes " " ++ num j.j_id); traverse_loop k j.j_next

pub traverse_jobs : (rounds err : ℕ) → Cmd (Unit {0})
unfolding traverse_loop
traverse_jobs rounds err = if not (err == 0) then exit 255 else do
  rdlock
  print (codes "delay before traversing\n")
  print (codes "Queue:")
  head ← get_head
  traverse_loop rounds head
  print (codes "\n")
  unlock

-- `struct job *jp = malloc(...)` for the `i`-th job.
pub new_job : Ptr → ℕ → Cmd (Unit {0})
new_job jp i = do store jp (job 0 null null); set_id jp i

abbrev pub inserting : List ℕ
inserting = codes "inserting\n"

abbrev pub deleting : List ℕ
deleting = codes "deleting\n"

-- The first loop of `thr_fn1` from round `i` on, `n` rounds more; `malloc` gives the addresses.
pub fill : (malloc : ℕ → Ptr) → (n i : ℕ) → Cmd (Unit {0})
fill malloc zero i = pure tt
fill malloc (suc n) i = do
  print inserting
  new_job (malloc i) i
  if i % 2 == 1 then job_insert (malloc i) else job_append (malloc i)
  fill malloc n (i + 1)

-- The second loop: `job_remove(qp, jp_arr[i])`.
pub drain : (malloc : ℕ → Ptr) → (n i : ℕ) → Cmd (Unit {0})
drain malloc zero i = pure tt
drain malloc (suc n) i = do print deleting; job_remove (malloc i); drain malloc n (i + 1)

abbrev pub njobs : ℕ
njobs = 20

pub thr_fn1 : (malloc : ℕ → Ptr) → Cmd (Unit {0})
thr_fn1 malloc = do fill malloc njobs 0; drain malloc njobs 0

-- The test of the loop in `thr_fn2`, made without the lock.
pub thr_fn2_test : Queue → Bool
thr_fn2_test s = not (s.q_head == s.q_tail)
