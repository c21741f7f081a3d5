-- ===== src/Lib.antt =====
-- A model of the programs of UNIX-Demos that have logic of their own, and proofs of what they do.
--
-- The parts, each a program or a pair of programs of its own:
-- - JobQueue (pthread/job_queue.c): the doubly linked queue of jobs on a heap of addresses. A command
--   is a function on the state (heap, ends of the queue, lock, output) that returns, exits, faults on
--   memory that is not allocated, or waits for ever on a lock that is held. queue_init, job_insert,
--   job_append, job_remove, job_find, traverse_jobs and thr_fn1 are the functions of that name.
--   job_find and traverse_jobs take a number of rounds, and more rounds than jobs are enough.
-- - Foo (pthread/pthread_mutex.c): the counted objects, foo_alloc, foo_hold and foo_rele, and the two
--   threads as lists of calls; an interleaving is a list that merges them.
-- - SemLock (IPC/sem_lock.c, IPC/sem_lock.h): s_alloc over a kernel that knows which names are taken,
--   s_lock, s_trylock, s_unlock. SemLock.Counter (IPC/semlock_test.c): its two threads as a step
--   relation, where each read and write of the variable is a step.
-- - Os: the calls of the system and the C library that the other programs make. A program is a tree of
--   calls with a branch for each answer; Os.Run runs it against a kernel, which is a parameter, and
--   gives the end of the run and the list of calls, and Os.Trace the calls with their answers. Os.Text has the texts in arrays.
-- - Daemon (daemon/daemonize.c): lockfile, daemonize, already_running, thr_fn and main.
-- - Epoll (epoll_demo/epoll_server.c, epoll_demo/epoll_cli.c): Epoll.Server and Epoll.Client have every
--   function of the two files; Epoll.Buffer is the array that a read fills.
-- - Ipc: Ipc.Coprocess (IPC/coprocess.c), Ipc.Pagers (IPC/pipe_pager.c, IPC/popen_pager.c,
--   IPC/pipe_filter.c), Ipc.Lower (IPC/myuclc.c), Ipc.Readline (IPC/fifo_demo.c), Ipc.Mmap
--   (IPC/mmap_demo.c).
-- - Flock (flock/lock_reg.c, flock/flock_helpers.h, flock/tell_wait.c, flock/deadlock.c): the locks, the
--   handshake and the two processes; Flock.Deadlock has the two together as a step relation, in which
--   F_SETLKW may fail with EDEADLK where each waits for the other.
-- - Terminal (term_io/getpass_demo.c): getpass and main.
-- - Barrier (pthread/barrier_sort.c): cmplong, the sorted parts and merge, over a parameter qsort.
-- - Environ (pthread/getenv_thr.c): getenv_. Environ.Modify (proc_demos/modify_env.c, print_env.c).
-- - Condition (pthread/condition_signal.c): its two threads as a step relation, where a wait may also
--   end without a signal.
-- - Signals (signal/): Signals.Sets has the printing of signal sets (signal_demo.c, signal_test.c).
--   Signals.Delivery and Signals.Realtime say how a process gets its signals: blocked ones are pending,
--   a standard one once and a real-time one as often as it is sent. Signals.Realtime (rt_sig_recv.c)
--   and Signals.Suspend (sig_suspend.c) run on that, for any list of signals that are sent;
--   Signals.Receiver (sig_receiver.c) runs on any schedule of sendings and handlers, in which a
--   standard signal that still waits for its handler coalesces. Signals.Sender has sig_sender.c and rt_signal.c, and Signals.Exchange the
--   sender and the receiver together. Signals.Waiting has sig_waitinfo.c, sigaltstack.c and sig_user.c,
--   Signals.Reentrant has reentrant.c, Signals.Reenter sig_reenter.c and Signals.Jump sigjump.c.
-- - Processes (proc_demos/): Processes.Status has pr_exit, Processes.Children the programs that wait for
--   their children (wait_demo.c, system_demo.c, no_zombie.c, exec_demo.c, interpreter_demo.c),
--   Processes.Times time_demo.c, Processes.Handshake the two processes of race_cond.c as a step
--   relation, Processes.Programs the small ones.
-- - Threads (pthread/): Threads.Makethread (pthread_functions.c, test_attr.c, recursive_lock.c),
--   Threads.Joining (pthread_exit.c, pthread_cancel.c, timedlock.c), Threads.Quit (pthread_signal.c, its
--   two threads as a step relation) and Threads.Cleanup (pthread_cleanup.c).
-- - Files (file_io/, std_io/tempfile.c, sys_info/getpwnam_demo.c) and Terminal.Settings (term_io/).
-- Base has the tests on numbers and the functions on lists that all of them use. Examples has the
-- theorems at concrete inputs, and the kernels for that.
--
-- The model: numbers are natural; the wrap-around of 32 bits is written out for the reference counts of
-- Foo and the counter of SemLock.Counter, and other counters have no bound. A failure value (-1, NULL, EOF) is the answer `none`. An array of characters without a NUL, read
-- as a text, and a write outside an array end a program as `crashed`. exit(-1) is the status 255. A
-- loop that ends only with its input takes a number of rounds, and the theorems about it say how many
-- are enough: more than there are lines, characters or pieces.
--
-- Not modelled: most text for stderr and the log, the pauses, and the programs that only show a
-- library call (std_io/memio.c, std_io/stdio_bufprop.c, pthread/norm_qsort.c, pthread/test_env.c);
-- proc_demos/longjmp.c; IPC/add2.c; the creation and the joins of threads in most main functions;
-- an F_SETLKW that fails otherwise than with EDEADLK in the step relation of Flock.Deadlock; a read that
-- fails in Processes.Handshake; the 14 bytes of a name in SemLock. A signal that comes inside of a call
-- of the C library is not considered, and the signals that stop or kill a process are not sent.
pub mod Base
pub mod JobQueue
pub mod Foo
pub mod SemLock
pub mod Os
pub mod Daemon
pub mod Signals
pub mod Epoll
pub mod Ipc
pub mod Barrier
pub mod Condition
pub mod Environ
pub mod Flock
pub mod Processes
pub mod Threads
pub mod Files
pub mod Terminal
pub mod Examples
