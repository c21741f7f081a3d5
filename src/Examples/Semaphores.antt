-- ===== src/Examples/Semaphores.antt =====
-- IPC/sem_lock.c and IPC/semlock_test.c at concrete names and schedules.
use unix_demos.Base.{ℕ, suc, ◌+◌, ◌≡◌, ◌≤◌, ◌⊎◌, refl, some, true, arith, ltb, if◌then◌else◌}
use unix_demos.SemLock.{Name, Opened, made, exists, s_alloc, s_lock, s_unlock}
use unix_demos.SemLock.Alloc.{named, outcome, s_alloc-outcome}
use unix_demos.SemLock.Counter.{
  System, Reach, here, first, second, start, step1, step2, thr_fn, test, locking, reading, returned,
}
use unix_demos.SemLock.Counter.Exclusion.{inside, mutual_exclusion, cnt-returned, no_deadlock}

-- The names with a counter below 3 are taken.
abbrev three_taken : Name → Opened
three_taken n = if ltb n.cnt 3 then exists else made

taken : (j : ℕ) → suc j ≤ 3 → three_taken (named 7 (0 + j)) ≡ exists
taken j h = ground arith

s_alloc-outcome_example : s_alloc three_taken true 7 10 0 ≡ outcome made 7 3
s_alloc-outcome_example = s_alloc-outcome three_taken 7 3 10 0 taken (omega arith) (cc)

-- One round each, the second thread behind the first.
abbrev counted_twice : System
counted_twice = record { mem = record { sem = 1; cnt = 2 }; pc1 = returned; pc2 = returned }

one_done : Reach 1 (record { mem = record { sem = 1; cnt = 1 }; pc1 = returned; pc2 = test 0 })
unfolding start step1 thr_fn s_lock s_unlock
one_done = first (first (first (first (first (first here refl) refl) refl) refl) refl) refl

both_done : Reach 1 counted_twice
unfolding step2 thr_fn s_lock s_unlock
both_done =
    second (second (second (second (second (second one_done refl) refl) refl) refl) refl) refl

abbrev contended : System
contended = record { mem = record { sem = 0; cnt = 0 }; pc1 = reading 0; pc2 = locking 0 }

contended-Reach : Reach 1 contended
unfolding start step1 step2 thr_fn s_lock s_unlock
contended-Reach = second (first (first here refl) refl) refl

mutual_exclusion_example : inside contended.pc1 + inside contended.pc2 ≤ 1
mutual_exclusion_example = mutual_exclusion 1 (omega arith) contended-Reach

cnt-returned_example : counted_twice.mem.cnt ≡ 1 + 1
cnt-returned_example = cnt-returned 1 (omega arith) both_done refl refl

no_deadlock_example :
    ((contended.pc1 ≡ returned) × (contended.pc2 ≡ returned))
    ⊎ (((t : System) × (step1 1 contended ≡ some t))
        ⊎ ((t : System) × (step2 1 contended ≡ some t)))
no_deadlock_example = no_deadlock 1 (omega arith) contended-Reach
