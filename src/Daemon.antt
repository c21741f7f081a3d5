-- ===== src/Daemon.antt =====
-- daemon/daemonize.c: becoming a daemon, the lock that keeps a second daemon out, and the thread that
-- waits for signals. Messages to stderr and to the log are calls without a text.
pub mod Descriptors
pub mod Sequence
pub mod Lock
pub mod Name
pub mod Startup
use Prim.Native.String.{String}
use unix_demos.Base.{
  digits_of, ℕ, zero, suc, ◌+◌, ◌/◌, ◌%◌, Bool, true, false, not, ◌&&◌, ◌||◌, Option, none, some,
  List, [], ◌∷◌, ◌++◌, ◌==◌, ltb, if◌then◌else◌, length,
}
use unix_demos.Os.{
  Bytes, Flock, f_wrlck, seek_set, sig_ign, sig_dfl, Errno, eacces, eagain, Answer, success,
  failure, fork, setsid, getpid, umask, getrlimit_max, chdir, open_file, close, dup, write,
  ftruncate, setlk, sigaction, sigmask_block_all, pthread_create, sigwait, openlog, syslog, Prog,
  ret, exit, ◌>>=◌, ◌>>◌, sys, skip, exit_failure, or_exit,
}

abbrev pub sighup : ℕ
sighup = 1

abbrev pub sigterm : ℕ
sigterm = 15

abbrev pub whole_file : Flock
whole_file = record { l_type = f_wrlck; l_whence = seek_set; l_start = 0; l_len = 0; l_pid = 0 }

unfoldable pub lockfile : ℕ → Prog Answer
lockfile fd = sys (setlk fd whole_file)

-- `if ((pid = fork()) < 0) … else if (pid > 0) exit(0);`: only the child goes on.
unfoldable pub only_child : Option ℕ → Prog (Unit {0})
only_child none = exit_failure
only_child (some pid) = if not (pid == 0) then exit 0 else skip

-- The hard limit on descriptors; without one, 1024.
abbrev pub limit : Option ℕ → ℕ
limit none = 1024
limit (some n) = n

-- From the start of `daemonize` to the change of the working directory; the answer is the limit.
unfoldable pub detach : Prog ℕ
unfolding only_child
detach = do
  sys (umask 0)
  rl ← sys getrlimit_max
  rlim_max ← or_exit 255 rl
  pid ← sys fork
  only_child pid
  sys setsid
  ignored ← sys (sigaction sighup sig_ign)
  if not ignored then exit_failure else skip
  pid' ← sys fork
  only_child pid'
  changed ← sys (chdir "/")
  or_exit 255 changed
  ret (limit rlim_max)

-- `for (int i=0; i<rl.rlim_max; i++) close(i);`, with `n` rounds left from `i` on.
unfoldable pub close_all : (n i : ℕ) → Prog (Unit {0})
close_all zero i = skip
close_all (suc n) i = sys (close i) >> close_all n (i + 1)

abbrev pub is_fd : Option ℕ → ℕ → Bool
is_fd none n = false
is_fd (some fd) n = fd == n

-- Standard input, output and error on /dev/null.
unfoldable pub attach : Prog (Unit {0})
attach = do
  fd0 ← sys (open_file "/dev/null")
  fd1 ← sys (dup 0)
  fd2 ← sys (dup 0)
  sys openlog
  if not (is_fd fd0 0) || not (is_fd fd1 1) || not (is_fd fd2 2) then sys syslog >> exit 1 else skip

unfoldable pub daemonize : Prog (Unit {0})
daemonize = do n ← detach; close_all n 0; attach

-- `sprintf(buf, "%ld", getpid()); write(fd, buf, strlen(buf) + 1);`: the digits and the NUL.
unfoldable pub pid_text : ℕ → Bytes
unfolding digits_of
pid_text pid = digits_of (suc pid) pid (0 ∷ [])

abbrev pub holds_lock : Errno → Bool
holds_lock eacces = true
holds_lock eagain = true
holds_lock _ = false

-- `fd < 0` logs and exits.
unfoldable pub or_logged : Option ℕ → Prog ℕ
or_logged none = sys syslog >> exit 1
or_logged (some fd) = ret fd

-- What follows the attempt to lock the file: the answer 1 where another daemon has the lock, 0 with
-- the file's text replaced by this process's number.
unfoldable pub locked : ℕ → Answer → Prog ℕ
locked fd (failure e) = if holds_lock e then sys (close fd) >> ret 1 else sys syslog >> exit 1
locked fd (success r) = do
  sys (ftruncate fd 0)
  pid ← sys getpid
  sys (write fd (pid_text pid))
  ret 0

unfoldable pub already_running : Prog ℕ
unfolding lockfile or_logged locked
already_running = do
  opened ← sys (open_file "/var/run/daemon.pid")
  fd ← or_logged opened
  r ← lockfile fd
  locked fd r

-- The loop of `thr_fn`, `n` signals long: SIGHUP reads the configuration again, SIGTERM ends.
unfoldable pub thr_fn : ℕ → Prog (Unit {0})
thr_fn zero = skip
thr_fn (suc n) =
    let rest = thr_fn n in
    sys sigwait >>= λ r.
    if not (r.0 == 0)
    then sys syslog >> exit 1
    else if r.1 == sighup
    then sys syslog >> rest
    else if r.1 == sigterm
    then sys syslog >> exit 0
    else sys syslog >> rest

-- `strrchr(argv[0], '/')`: what stands behind the last slash, or the whole text.
unfoldable pub command_name : (seen : Bytes) → Bytes → Bytes
command_name seen [] = seen
command_name seen (c ∷ cs) = command_name (if c == b'/' then cs else seen) cs

-- What follows is `while (1);`, the daemon at its work.
unfoldable pub main : Prog (Unit {0})
main = do
  daemonize
  running ← already_running
  if not (running == 0) then sys syslog >> exit 1 else skip
  restored ← sys (sigaction sighup sig_dfl)
  if not restored then sys syslog >> exit 1 else skip
  err ← sys sigmask_block_all
  if not (err == 0) then sys syslog >> exit 1 else skip
  err ← sys pthread_create
  if not (err == 0) then sys syslog else skip
