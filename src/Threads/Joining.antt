-- ===== src/Threads/Joining.antt =====
-- pthread/pthread_exit.c, pthread/pthread_cancel.c and pthread/timedlock.c
use unix_demos.Base.{
  num, ℕ, ◌+◌, ◌-◌, ◌^◌, true, false, Option, none, some, [], ◌++◌, ◌==◌, if◌then◌else◌, codes,
}
use unix_demos.Os.{
  Bytes, attr_init, attr_setdetached, attr_destroy, thread_create, thread_join, thread_cancel,
  mutex_lock, mutex_timedlock, clock_gettime, strftime, sleep, fprintf, stdout, Prog, ret, exit,
  fault, ◌>>=◌, ◌>>◌, sys, skip, or_exit,
}
use unix_demos.Threads.Makethread.{ok_or_exit}

-- pthread/pthread_exit.c: the two threads print, and end with 1 and 2.
unfoldable pub returning : Prog ℕ
returning = sys (fprintf stdout (codes "thread1 returning\n")) >> ret 1

unfoldable pub exiting : Prog ℕ
exiting = sys (fprintf stdout (codes "thread2 returning\n")) >> ret 2

-- `pthread_join(tid, &tret)` and the line for what the thread gave.
abbrev pub join_and_print : (text : Bytes) → (tid : ℕ) → Prog (Unit {0})
join_and_print text tid = do
  joined ← sys (thread_join tid)
  ok_or_exit joined.0
  sys (fprintf stdout (text ++ (num joined.1 ++ codes "\n")))

unfoldable pub pthread_exit_main : Prog ℕ
pthread_exit_main = do
  made1 ← sys (thread_create false 1 0)
  tid1 ← or_exit 255 made1
  made2 ← sys (thread_create false 2 0)
  tid2 ← or_exit 255 made2
  join_and_print (codes "thread 1 exit code: ") tid1
  join_and_print (codes "thread 2 exit code: ") tid2
  exit 0

-- pthread/pthread_cancel.c: `thr_fn2`, and `main`, where a thread that could not be made has no number that
-- was written.
unfoldable pub cancelling : (tid2cancel : ℕ) → Prog ℕ
cancelling tid2cancel = do
  sys (sleep 2)
  sys (fprintf stdout (codes "cancel thread 1\n"))
  err ← sys (thread_cancel tid2cancel)
  if err == 0 then skip else sys (fprintf 2 (codes "pthread_cancel error: " ++ codes "\n"))
  ret 0

-- `PTHREAD_CANCELED`, which is `(void *) -1`
abbrev pub pthread_canceled : ℕ
pthread_canceled = 2 ^ 64 - 1

abbrev pub or_unset : Option ℕ → Prog ℕ
or_unset none = fault
or_unset (some tid) = ret tid

unfoldable pub pthread_cancel_main : Prog ℕ
pthread_cancel_main = do
  sys attr_init
  sys attr_setdetached
  made1 ← sys (thread_create false 1 0)
  tid1 ← or_unset made1
  sys (thread_create true 2 tid1)
  sys attr_destroy
  joined ← sys (thread_join tid1)
  if joined.1 == pthread_canceled
      then sys (fprintf stdout (codes "thread 1 is canceled\n"))
      else sys (fprintf stdout (codes "some error occurred\n"))
  ret 0

module _ (strerror : ℕ → Bytes) where
  -- `strftime(buf, 64, "%r", tmp)` and its line; the text is empty where it does not fit.
  abbrev pub print_time : (text : Bytes) → Prog (Unit {0})
  print_time text = do
    buf ← sys (strftime 64)
    sys (fprintf stdout (text ++ (elim buf [ none ↦ [] | some t ↦ t ] ++ codes "\n")))

  -- pthread/timedlock.c: the time limit is ten seconds after the first reading of the clock.
  unfoldable pub timedlock : Prog ℕ
  timedlock = do
    sys mutex_lock
    sys (fprintf stdout (codes "mutex is locked\n"))
    now ← sys clock_gettime
    print_time (codes "current time is ")
    err ← sys (mutex_timedlock (now + 10))
    sys clock_gettime
    print_time (codes "time now is ")
    if err == 0
        then sys (fprintf stdout (codes "pthread mutex locked again!\n"))
        else sys (fprintf stdout (codes "can't lock mutex again:" ++ (strerror err ++ codes "\n")))
    ret 0
