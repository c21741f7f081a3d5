-- ===== src/Os.antt =====
-- A program by its calls of the system and the C library, which are the boundary of the model: it is a
-- tree of calls, each with a branch for every answer, and the kernel that answers is a parameter. An
-- answer `none` stands for the failure value (-1, NULL or EOF).
mod Types
mod Calls
pub mod Run
pub mod Trace
pub mod Text
pub use Types.*
pub use Calls.*
use unix_demos.Base.{ℕ, Bool, Option, none, some, List}

-- What each call answers.
abbrev pub R : Call → Type 0
R fork = Option ℕ
R (waitpid pid) = Option ℕ
R (exec path) = Unit {0}
R getrlimit_max = Option (Option ℕ)
R (chdir path) = Option ℕ
R (open_file path) = Option ℕ
R (creat path) = Option ℕ
R (mkfifo path) = Option ℕ
R (dup fd) = Option ℕ
R (dup2 fd fd2) = Option ℕ
R pipe = Option (ℕ × ℕ)
R (read fd n) = Option Bytes
R (write fd bytes) = Option ℕ
R (ftruncate fd n) = Option ℕ
R (fstat_size fd) = Option ℕ
R (setlk fd fl) = Answer
R (setlkw fd fl) = Answer
R (getlk fd fl) = Option Flock
R (mmap n fd offset) = Option ℕ
R (fopen path) = Option ℕ
R (popen path) = Option ℕ
R (fgets fp n) = Option Bytes
R (fputs fp bytes) = Bool
R (ferror fp) = Bool
R (pclose fp) = Option ℕ
R (getc fp) = Option ℕ
R (putc c fp) = Bool
R fopen_terminal = Option ℕ
R (tcgetattr fp) = Option Termios
R (sigprocmask how mask) = List ℕ
R (sigaction sig h) = Bool
R sigmask_block_all = ℕ
R pthread_create = ℕ
R sigwait = ℕ × ℕ
R getspecific = Option ℕ
R (malloc n) = Option ℕ
R socket = Option ℕ
R inet_pton = ℕ
R (connect fd) = Option ℕ
R (bind fd port) = Option ℕ
R (listen fd backlog) = Option ℕ
R (accept fd) = Option ℕ
R (epoll_create size) = Option ℕ
R (epoll_ctl epfd op fd events) = Option ℕ
R (epoll_wait epfd maxevents) = Option (List EpollEvent)
R (stat path) = Option Stat
R (lstat path) = Option Stat
R (stat_bytes path) = Option Errno
R (access path) = Bool
R (mkstemp template) = Option (ℕ × Bytes)
R (futimes fd atime mtime) = Option ℕ
R (fcntl_getfl fd) = Option ℕ
R (isatty fd) = Bool
R (fpathconf_vdisable fd) = Option ℕ
R (tcgetcc fd) = Option (ℕ × ℕ)
R (tcsetcc fd vintr veof) = Option ℕ
R (tcflow_ioff fd) = Option ℕ
R (tiocgwinsz fd) = Option (ℕ × ℕ)
R wait = Option (ℕ × ℕ)
R vfork = Option ℕ
R (system cmd) = Option ℕ
R times = Option (ℕ × Tms)
R sysconf_clk_tck = Option ℕ
R getuid = ℕ
R geteuid = ℕ
R getpgrp = ℕ
R (tcgetpgrp fd) = ℕ
R (atexit handler) = ℕ
R (kill pid sig) = Option ℕ
R (sigqueue pid sig value) = Option ℕ
R (signal sig h) = Bool
R (sigmask how set) = Option SigSet
R sigpending = Option SigSet
R (sigsuspend set) = Errno
R sigwaitinfo = Option SigInfo
R (sigaltstack sp size) = Option ℕ
R attr_init = ℕ
R attr_setdetached = ℕ
R (thread_create detached fn arg) = Option ℕ
R (thread_join tid) = ℕ × ℕ
R (thread_cancel tid) = ℕ
R mutexattr_init = ℕ
R mutexattr_recursive = ℕ
R mutex_init = ℕ
R (mutex_timedlock secs) = ℕ
R getpwent = Option Passwd
R (getpwnam name) = Option Passwd
R clock_gettime = ℕ
R (strftime size) = Option Bytes
R getpid = ℕ
R getppid = ℕ
R _ = Unit {0}

-- A program: it returns, exits with a status, ends by a fault of its own (memory that is not its own, a
-- division by zero, an assertion), or makes a call and goes on with the answer.
pub data Prog (A : Type 0) : Type 0 where
  ret : A → Prog A
  exit : (status : ℕ) → Prog A
  fault : Prog A
  invoke : (c : Call) → (R c → Prog A) → Prog A

module _ {A B : Type 0} where
  infixl 5 ◌>>=◌ ◌>>◌
  abbrev pub ◌>>=◌ : Prog A → (A → Prog B) → Prog B
  ◌>>=◌ (ret a) k = k a
  ◌>>=◌ (exit status) k = exit status
  ◌>>=◌ fault k = fault
  ◌>>=◌ (invoke c f) k = invoke c (λ r. f r >>= k)

  abbrev pub ◌>>◌ : Prog A → Prog B → Prog B
  p >> q = p >>= λ _. q

abbrev pub sys : (c : Call) → Prog (R c)
sys c = invoke c ret

abbrev pub skip : Prog (Unit {0})
skip = ret tt

abbrev pub stdin : ℕ
stdin = 0

abbrev pub stdout : ℕ
stdout = 1

abbrev pub stdin_fileno : ℕ
stdin_fileno = 0

abbrev pub stdout_fileno : ℕ
stdout_fileno = 1

-- `exit(-1)`
abbrev pub exit_failure : {A : Type 0} → Prog A
exit_failure = exit 255

-- `if ((x = call) < 0) { perror(…); exit(-1); }`
abbrev pub or_exit : {A : Type 0} → ℕ → Option A → Prog A
or_exit status none = exit status
or_exit status (some a) = ret a
