-- ===== src/Os/Types.antt =====
-- The data of the system calls and of the C library that the programs see.
use unix_demos.Base.{ℕ, Bool, true, false, not, ◌&&◌, ◌||◌, ◌==◌, List}

abbrev pub Bytes : Type 0
Bytes = List ℕ

-- `struct flock`, with `l_pid` for the answer of F_GETLK.
pub data LockType : Type 0 where
  f_rdlck f_wrlck f_unlck : LockType

pub data Whence : Type 0 where
  seek_set seek_cur seek_end : Whence

pub record Flock : Type 0 where
  pub l_type : LockType
  pub l_whence : Whence
  pub l_start : ℕ
  pub l_len : ℕ
  pub l_pid : ℕ

pub data Handler : Type 0 where
  sig_ign sig_dfl : Handler
  catch : ℕ → Handler

pub data Errno : Type 0 where
  eacces eagain einval enoent eintr eexist edeadlk other : Errno

-- The answer of a call that sets `errno`.
pub data Answer : Type 0 where
  success : ℕ → Answer
  failure : Errno → Answer

pub data CtlOp : Type 0 where
  ctl_add ctl_mod ctl_del : CtlOp

-- The events that a descriptor is watched for, or that are ready on it.
pub record Events : Type 0 where
  pub epollin : Bool
  pub epollout : Bool

-- `struct epoll_event`
pub record EpollEvent : Type 0 where
  pub fd : ℕ
  pub events : Events

-- `struct termios`: the flags that the programs change, and the rest.
pub record Termios : Type 0 where
  pub echo : Bool
  pub echoe : Bool
  pub echok : Bool
  pub echonl : Bool
  pub others : ℕ

-- `sigprocmask`
pub data How : Type 0 where
  sig_block sig_setmask : How

-- `sigset_t`
abbrev pub SigSet : Type 0
SigSet = ℕ → Bool

abbrev pub sigemptyset : SigSet
sigemptyset sig = false

abbrev pub sigfillset : SigSet
sigfillset sig = true

abbrev pub sigaddset : SigSet → ℕ → SigSet
sigaddset set n sig = sig == n || set sig

abbrev pub sigdelset : SigSet → ℕ → SigSet
sigdelset set n sig = not (sig == n) && set sig

-- `si_code`; another code than the two goes by its number as `%d` prints it.
pub data SiCode : Type 0 where
  si_user si_queue : SiCode
  si_other : (printed : Bytes) → SiCode

-- `siginfo_t`
pub record SigInfo : Type 0 where
  pub si_signo : ℕ
  pub si_code : SiCode
  pub si_value : ℕ
  pub si_pid : ℕ
  pub si_uid : ℕ

-- `struct tms`
pub record Tms : Type 0 where
  pub tms_utime : ℕ
  pub tms_stime : ℕ
  pub tms_cutime : ℕ
  pub tms_cstime : ℕ

-- `struct passwd`
pub record Passwd : Type 0 where
  pub pw_name : Bytes
  pub pw_passwd : Bytes
  pub pw_uid : ℕ
  pub pw_gid : ℕ
  pub pw_gecos : Bytes
  pub pw_dir : Bytes
  pub pw_shell : Bytes

-- `struct stat`, with the times in seconds and nanoseconds.
pub record Stat : Type 0 where
  pub st_mode : ℕ
  pub st_dev : ℕ
  pub st_rdev : ℕ
  pub st_atime : ℕ × ℕ
  pub st_mtime : ℕ × ℕ
