-- ===== src/Examples/Kernels.antt =====
-- Kernels to run the programs against.
use unix_demos.Base.{ℕ, zero, suc, ◌+◌, Bool, true, false, Option, none, some, List, [], ◌∷◌}
use unix_demos.Os.{
  Bytes, success, eintr, Call, R, fork, setsid, getpid, getppid, waitpid, exec, umask,
  getrlimit_max, chdir, open_file, creat, mkfifo, close, dup, dup2, pipe, read, write, ftruncate,
  fstat_size, setlk, setlkw, getlk, mmap, memcpy, munmap, fopen, popen, fgets, fputs, ferror,
  pclose, fclose, fflush, setbuf, getc, putc, fopen_terminal, tcgetattr, tcsetattr, sigaction,
  sigprocmask, sigmask_block_all, pthread_create, pthread_once, mutex_lock, mutex_unlock,
  getspecific, setspecific, malloc, strncpy, sigwait, openlog, syslog, socket, inet_pton, connect,
  bind, listen, accept, epoll_create, epoll_ctl, epoll_wait, printf, stat, lstat, access, mkstemp,
  unlink, futimes, fcntl_getfl, stat_bytes, isatty, fpathconf_vdisable, tcgetcc, tcsetcc,
  tcflow_ioff, tiocgwinsz, abort, wait, vfork, system, times, sysconf_clk_tck, execv, getuid,
  geteuid, getpgrp, tcgetpgrp, sleep, atexit, kill, sigqueue, signal, sigmask, sigpending,
  sigsuspend, sigwaitinfo, sigaltstack, pause, alarm, attr_init, attr_setdetached, attr_destroy,
  thread_create, thread_join, thread_cancel, mutexattr_init, mutexattr_recursive, mutex_init,
  mutex_timedlock, free, setpwent, getpwent, endpwent, getpwnam, clock_gettime, strftime, fprintf,
  print_ratio,
}
use unix_demos.Os.Run.{Kernel}

-- Every call succeeds, in the child after a fork.
abbrev pub succeeds : (c : Call) → R c
succeeds fork = some 0
succeeds setsid = tt
succeeds getpid = 42
succeeds getppid = 1
succeeds (waitpid pid) = some pid
succeeds (exec path) = tt
succeeds (umask n) = tt
succeeds getrlimit_max = some (some 8)
succeeds (chdir path) = some 0
succeeds (open_file path) = some 0
succeeds (creat path) = some 3
succeeds (mkfifo path) = some 0
succeeds (close fd) = tt
succeeds (dup fd) = some (fd + 1)
succeeds (dup2 fd fd2) = some fd2
succeeds pipe = some (3, 4)
succeeds (read fd n) = some []
succeeds (write fd bytes) = some 1
succeeds (ftruncate fd n) = some 0
succeeds (fstat_size fd) = some 0
succeeds (setlk fd fl) = success 0
succeeds (setlkw fd fl) = success 0
succeeds (getlk fd fl) = some fl
succeeds (mmap n fd offset) = some 4096
succeeds (memcpy dst src n) = tt
succeeds (munmap p n) = tt
succeeds (fopen path) = some 5
succeeds (popen path) = some 6
succeeds (fgets fp n) = none
succeeds (fputs fp bytes) = true
succeeds (ferror fp) = false
succeeds (pclose fp) = some 0
succeeds (fclose fp) = tt
succeeds (fflush fp) = tt
succeeds (setbuf fp) = tt
succeeds (getc fp) = none
succeeds (putc c fp) = true
succeeds fopen_terminal = some 9
succeeds (tcgetattr fp) =
    some (record { echo = true; echoe = true; echok = true; echonl = false; others = 0 })
succeeds (tcsetattr fp ts) = tt
succeeds (sigprocmask how mask) = []
succeeds (sigaction sig h) = true
succeeds sigmask_block_all = 0
succeeds pthread_create = 0
succeeds pthread_once = tt
succeeds mutex_lock = tt
succeeds mutex_unlock = tt
succeeds getspecific = none
succeeds (setspecific p) = tt
succeeds (malloc n) = some 512
succeeds (strncpy dst bytes n) = tt
succeeds sigwait = (0, 15)
succeeds openlog = tt
succeeds syslog = tt
succeeds socket = some 3
succeeds inet_pton = 1
succeeds (connect fd) = some 0
succeeds (bind fd port) = some 0
succeeds (listen fd backlog) = some 0
succeeds (accept fd) = some 7
succeeds (epoll_create size) = some 4
succeeds (epoll_ctl epfd op fd events) = some 0
succeeds (epoll_wait epfd maxevents) = some []
succeeds (printf bytes) = tt
succeeds (stat path) = none
succeeds (lstat path) = none
succeeds (access path) = true
succeeds (mkstemp template) = some (3, [])
succeeds (unlink path) = tt
succeeds (futimes fd atime mtime) = some 3
succeeds (fcntl_getfl fd) = some 3
succeeds (stat_bytes path) = none
succeeds (isatty fd) = true
succeeds (fpathconf_vdisable fd) = some 3
succeeds (tcgetcc fd) = some (24, 80)
succeeds (tcsetcc fd vintr veof) = some 3
succeeds (tcflow_ioff fd) = some 3
succeeds (tiocgwinsz fd) = some (24, 80)
succeeds abort = tt
succeeds wait = some (24, 80)
succeeds vfork = some 3
succeeds (system cmd) = some 3
succeeds times = some (0, record { tms_utime = 0; tms_stime = 0; tms_cutime = 0; tms_cstime = 0 })
succeeds sysconf_clk_tck = some 3
succeeds (execv path x1) = tt
succeeds getuid = 0
succeeds geteuid = 0
succeeds getpgrp = 0
succeeds (tcgetpgrp fd) = 0
succeeds (sleep secs) = tt
succeeds (atexit handler) = 0
succeeds (kill pid sig) = some 3
succeeds (sigqueue pid sig value) = some 3
succeeds (signal sig x1) = true
succeeds (sigmask x1 x2) = some (λ sig. false)
succeeds sigpending = some (λ sig. false)
succeeds (sigsuspend x1) = eintr
succeeds sigwaitinfo = none
succeeds (sigaltstack sp size) = some 3
succeeds pause = tt
succeeds (alarm secs) = tt
succeeds attr_init = 0
succeeds attr_setdetached = 0
succeeds attr_destroy = tt
succeeds (thread_create detached fn arg) = some 3
succeeds (thread_join tid) = (0, 0)
succeeds (thread_cancel tid) = 0
succeeds mutexattr_init = 0
succeeds mutexattr_recursive = 0
succeeds mutex_init = 0
succeeds (mutex_timedlock secs) = 0
succeeds (free p) = tt
succeeds setpwent = tt
succeeds getpwent = none
succeeds endpwent = tt
succeeds (getpwnam name) = none
succeeds clock_gettime = 0
succeeds (strftime size) = some []
succeeds (fprintf fp x1) = tt
succeeds (print_ratio x1 num den) = tt

abbrev pub plain : Kernel (Unit {0})
plain c s = (succeeds c, s)

-- The table of descriptors as a list of which are taken; what is behind the list is free.
abbrev pub free_at : List Bool → ℕ → List Bool
free_at [] i = []
free_at (b ∷ bs) zero = false ∷ bs
free_at (b ∷ bs) (suc i) = b ∷ free_at bs i

abbrev pub lowest : List Bool → ℕ
lowest [] = 0
lowest (false ∷ bs) = 0
lowest (true ∷ bs) = suc (lowest bs)

abbrev pub take_lowest : List Bool → List Bool
take_lowest [] = true ∷ []
take_lowest (false ∷ bs) = true ∷ bs
take_lowest (true ∷ bs) = true ∷ take_lowest bs

abbrev pub table_kernel : Kernel (List Bool)
table_kernel (close fd) s = (tt, free_at s fd)
table_kernel (open_file path) s = (some (lowest s), take_lowest s)
table_kernel (dup fd) s = (some (lowest s), take_lowest s)
table_kernel c s = (succeeds c, s)

-- Reads and waits are answered from a list, each with its text or its signal.
abbrev pub next : List Bytes → Option Bytes × List Bytes
next [] = (some [], [])
next (t ∷ ts) = (some t, ts)

abbrev pub reading : Kernel (List Bytes)
reading (read fd n) ts = next ts
reading c ts = (succeeds c, ts)

abbrev pub next_signal : List ℕ → (ℕ × ℕ) × List ℕ
next_signal [] = ((0, 15), [])
next_signal (g ∷ gs) = ((0, g), gs)

abbrev pub signalling : Kernel (List ℕ)
signalling sigwait gs = next_signal gs
signalling c gs = (succeeds c, gs)
