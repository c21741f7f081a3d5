-- ===== src/Ipc/Pagers.antt =====
-- IPC/pipe_pager.c, IPC/popen_pager.c and IPC/pipe_filter.c: a file is shown through a pager, and a pipe is
-- shown with a prompt.
pub mod Copies
use Prim.Native.String.{String}
use unix_demos.Base.{
  ℕ, zero, suc, ◌-◌, Bool, true, false, not, Option, none, some, List, [], ◌∷◌, ◌==◌, if◌then◌else◌,
  length,
}
use unix_demos.Os.{
  Bytes, stdin_fileno, stdout, pipe, fork, close, dup2, exec, waitpid, write, fopen, popen, fgets,
  fputs, ferror, pclose, putc, fflush, Prog, ret, exit, ◌>>=◌, ◌>>◌, sys, skip, exit_failure,
  or_exit,
}
use unix_demos.Ipc.{maxline, is_count}
use unix_demos.Os.Text.{text}

-- The loop of pipe_pager's parent, at most `n` lines long.
unfoldable pub copy_lines : (n fp to : ℕ) → Prog (Unit {0})
copy_lines zero fp to = skip
copy_lines (suc n) fp to = do
  got ← sys (fgets fp maxline)
  elim got [
    | none ↦ skip
    | some line ↦ do
      sent ← sys (write to (text line))
      if is_count sent (length (text line)) then skip else exit_failure
      copy_lines n fp to
  ]

unfoldable pub pager_parent : (n fp pid : ℕ) → (fd : ℕ × ℕ) → Prog (Unit {0})
unfolding copy_lines
pager_parent n fp pid fd = do
  sys (close fd.0)
  copy_lines n fp fd.1
  failed ← sys (ferror fp)
  if failed then exit_failure else skip
  sys (close fd.1)
  waited ← sys (waitpid pid)
  or_exit 255 waited
  exit 0

unfoldable pub pager_child : (fd : ℕ × ℕ) → Prog (Unit {0})
pager_child fd = do
  sys (close fd.1)
  if fd.0 == stdin_fileno
      then skip
      else do moved ← sys (dup2 fd.0 stdin_fileno); or_exit 255 moved; sys (close fd.0)
  sys (exec "/usr/bin/more")
  exit_failure

-- The one argument of a program, which exits with a status where it is called otherwise.
abbrev pub one_argument : ℕ → List String → Prog String
one_argument status (path ∷ []) = ret path
one_argument status _ = exit status

unfoldable pub pipe_pager : ℕ → List String → Prog (Unit {0})
unfolding pager_parent pager_child
pipe_pager n args = do
  path ← one_argument 255 args
  opened ← sys (fopen path)
  fp ← or_exit 255 opened
  made ← sys pipe
  fd ← or_exit 255 made
  forked ← sys fork
  pid ← or_exit 255 forked
  if not (pid == 0) then pager_parent n fp pid fd else pager_child fd

-- The loop of popen_pager; it does not look at the answer of fputs.
unfoldable pub put_lines : (n fpin fpout : ℕ) → Prog (Unit {0})
put_lines zero fpin fpout = skip
put_lines (suc n) fpin fpout = do
  got ← sys (fgets fpin maxline)
  elim got [ none ↦ skip | some line ↦ sys (fputs fpout (text line)) >> put_lines n fpin fpout ]

unfoldable pub popen_pager : ℕ → List String → Prog (Unit {0})
unfolding put_lines
popen_pager n args = do
  path ← one_argument 127 args
  opened ← sys (fopen path)
  fpin ← or_exit 255 opened
  piped ← sys (popen "${PAGER:-more}")
  fpout ← or_exit 255 piped
  put_lines n fpin fpout
  failed ← sys (ferror fpin)
  if failed then exit_failure else skip
  closed ← sys (pclose fpout)
  or_exit 255 closed
  skip

abbrev pub prompt : Bytes
prompt = b'p' ∷ b'r' ∷ b'o' ∷ b'm' ∷ b'p' ∷ b't' ∷ b'>' ∷ b' ' ∷ []

-- The loop of pipe_filter.
unfoldable pub prompt_lines : (n fpin : ℕ) → Prog (Unit {0})
prompt_lines zero fpin = skip
prompt_lines (suc n) fpin = do
  sys (fputs stdout prompt)
  sys (fflush stdout)
  got ← sys (fgets fpin maxline)
  elim got [
    | none ↦ skip
    | some line ↦ do
      printed ← sys (fputs stdout (text line))
      if printed then prompt_lines n fpin else exit_failure
  ]

unfoldable pub pipe_filter : ℕ → Prog (Unit {0})
unfolding prompt_lines
pipe_filter n = do
  piped ← sys (popen "./myuclc")
  fpin ← or_exit 255 piped
  prompt_lines n fpin
  failed ← sys (ferror fpin)
  if failed then exit_failure else skip
  sys (putc b'\n' stdout)
  exit 0
