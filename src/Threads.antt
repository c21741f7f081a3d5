-- ===== src/Threads.antt =====
-- pthread/: programs that make threads (pthread_functions.c with its clients test_attr.c and
-- recursive_lock.c, pthread_exit.c, pthread_cancel.c, timedlock.c). `0` as the answer of a call is
-- success.
pub mod Makethread
pub mod Joining
pub mod Quit
pub mod Cleanup
