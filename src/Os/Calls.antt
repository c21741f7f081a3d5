-- ===== src/Os/Calls.antt =====
-- The calls of the system and the C library that the programs make.
use Prim.Native.String.{String}
use unix_demos.Base.{ℕ, Bool, Option, List}
use unix_demos.Os.Types.{Bytes, Flock, Handler, CtlOp, Events, Termios, How, SigSet}

pub data Call : Type 0 where
  -- processes
  fork setsid getpid getppid : Call
  waitpid : (pid : ℕ) → Call
  exec : (path : String) → Call
  -- files
  umask : ℕ → Call
  getrlimit_max : Call
  chdir : String → Call
  open_file : String → Call
  creat : String → Call
  mkfifo : String → Call
  close dup : (fd : ℕ) → Call
  dup2 : (fd fd2 : ℕ) → Call
  pipe : Call
  read : (fd n : ℕ) → Call
  write : (fd : ℕ) → Bytes → Call
  ftruncate : (fd n : ℕ) → Call
  fstat_size : (fd : ℕ) → Call
  setlk setlkw getlk : (fd : ℕ) → Flock → Call
  -- memory
  mmap : (n fd offset : ℕ) → Call
  memcpy : (dst src n : ℕ) → Call
  munmap : (p n : ℕ) → Call
  -- streams
  fopen popen : String → Call
  fgets : (fp n : ℕ) → Call
  fputs : (fp : ℕ) → Bytes → Call
  ferror pclose fclose fflush setbuf getc : (fp : ℕ) → Call
  putc : (c fp : ℕ) → Call
  -- the terminal
  fopen_terminal : Call
  tcgetattr : (fp : ℕ) → Call
  tcsetattr : (fp : ℕ) → Termios → Call
  -- signals, threads and the log
  sigaction : (sig : ℕ) → Handler → Call
  sigprocmask : How → (mask : List ℕ) → Call
  sigmask_block_all : Call
  pthread_create pthread_once mutex_lock mutex_unlock getspecific : Call
  setspecific : (p : ℕ) → Call
  malloc : (n : ℕ) → Call
  strncpy : (dst : ℕ) → Bytes → (n : ℕ) → Call
  sigwait : Call
  openlog syslog : Call
  -- sockets
  socket inet_pton : Call
  connect : (fd : ℕ) → Call
  bind : (fd port : ℕ) → Call
  listen : (fd backlog : ℕ) → Call
  accept : (fd : ℕ) → Call
  epoll_create : (size : ℕ) → Call
  epoll_ctl : (epfd : ℕ) → CtlOp → (fd : ℕ) → Events → Call
  epoll_wait : (epfd maxevents : ℕ) → Call
  printf : Bytes → Call
  stat lstat : (path : String) → Call
  access : (path : String) → Call
  mkstemp : (template : Bytes) → Call
  unlink : (path : Bytes) → Call
  futimes : (fd : ℕ) → (atime mtime : ℕ × ℕ) → Call
  fcntl_getfl : (fd : ℕ) → Call
  stat_bytes : (path : Bytes) → Call
  -- terminals
  isatty : (fd : ℕ) → Call
  fpathconf_vdisable : (fd : ℕ) → Call
  tcgetcc : (fd : ℕ) → Call
  tcsetcc : (fd : ℕ) → (vintr veof : ℕ) → Call
  tcflow_ioff : (fd : ℕ) → Call
  tiocgwinsz : (fd : ℕ) → Call
  -- processes
  abort : Call
  wait : Call
  vfork : Call
  system : (cmd : String) → Call
  times : Call
  sysconf_clk_tck : Call
  execv : (path : String) → List String → Call
  getuid geteuid getpgrp : Call
  tcgetpgrp : (fd : ℕ) → Call
  sleep : (secs : ℕ) → Call
  atexit : (handler : ℕ) → Call
  -- signals
  kill : (pid sig : ℕ) → Call
  sigqueue : (pid sig value : ℕ) → Call
  signal : (sig : ℕ) → Handler → Call
  sigmask : How → Option SigSet → Call
  sigpending : Call
  sigsuspend : SigSet → Call
  sigwaitinfo : Call
  sigaltstack : (sp size : ℕ) → Call
  pause : Call
  alarm : (secs : ℕ) → Call
  -- threads
  attr_init : Call
  attr_setdetached : Call
  attr_destroy : Call
  thread_create : (detached : Bool) → (fn arg : ℕ) → Call
  thread_join : (tid : ℕ) → Call
  thread_cancel : (tid : ℕ) → Call
  mutexattr_init mutexattr_recursive mutex_init : Call
  mutex_timedlock : (secs : ℕ) → Call
  free : (p : ℕ) → Call
  -- the user database and the clock
  setpwent getpwent endpwent : Call
  getpwnam : (name : Bytes) → Call
  clock_gettime : Call
  strftime : (size : ℕ) → Call
  -- streams, with a number for what is printed as a quotient
  fprintf : (fp : ℕ) → Bytes → Call
  print_ratio : Bytes → (num den : ℕ) → Call
