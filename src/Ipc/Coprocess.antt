-- ===== src/Ipc/Coprocess.antt =====
-- IPC/coprocess.c: each line is sent to a child through one pipe, and its reply comes back through another.
pub mod Relay
use Prim.Native.String.{String}
use unix_demos.Base.{
  ℕ, zero, suc, Bool, true, false, not, Option, none, some, List, [], ◌∷◌, ◌==◌, if◌then◌else◌,
  length,
}
use unix_demos.Os.{
  Bytes, stdin, stdout, stdin_fileno, stdout_fileno, catch, pipe, fork, close, dup2, exec, read,
  write, fgets, fputs, ferror, sigaction, Prog, ret, exit, fault, ◌>>=◌, ◌>>◌, sys, skip,
  exit_failure, or_exit,
}
use unix_demos.Ipc.{maxline, is_count}
use unix_demos.Os.Text.{text}

abbrev pub sigpipe : ℕ
sigpipe = 13

-- After the reply is read, by its answer: whether the loop goes on. `line[n] = 0` is outside the array
-- where the reply fills it.
unfoldable pub print_reply : Option Bytes → Prog Bool
print_reply none = exit_failure
print_reply (some []) = ret false
print_reply (some (b ∷ bs)) =
    if length (b ∷ bs) == maxline
    then fault
    else do printed ← sys (fputs stdout (text (b ∷ bs))); if printed then ret true else exit_failure

-- The loop of the parent, at most `n` lines long.
unfoldable pub relay : (n to from : ℕ) → Prog (Unit {0})
unfolding print_reply
relay zero to from = skip
relay (suc n) to from = do
  got ← sys (fgets stdin maxline)
  elim got [
    | none ↦ skip
    | some line ↦ do
      sent ← sys (write to (text line))
      if is_count sent (length (text line)) then skip else exit_failure
      reply ← sys (read from maxline)
      more ← print_reply reply
      elim more [ true ↦ relay n to from | false ↦ skip ]
  ]

unfoldable pub parent : (n : ℕ) → (fd1 fd2 : ℕ × ℕ) → Prog (Unit {0})
unfolding relay
parent n fd1 fd2 = do
  sys (close fd1.0)
  sys (close fd2.1)
  relay n fd1.1 fd2.0
  failed ← sys (ferror stdin)
  if failed then exit_failure else exit 0

-- `if (fd != std) if (dup2(fd, std) != std) exit(-1);`
unfoldable pub redirect : (fd std : ℕ) → Prog (Unit {0})
redirect fd std =
    if fd == std
    then skip
    else do moved ← sys (dup2 fd std); if is_count moved std then skip else exit_failure

-- Where execl returns, it failed.
unfoldable pub child : (fd1 fd2 : ℕ × ℕ) → Prog (Unit {0})
unfolding redirect
child fd1 fd2 = do
  sys (close fd1.1)
  sys (close fd2.0)
  redirect fd1.0 stdin_fileno
  redirect fd2.1 stdout_fileno
  sys (exec "add2")
  exit_failure

unfoldable pub main : ℕ → Prog (Unit {0})
unfolding parent child
main n = do
  caught ← sys (sigaction sigpipe (catch 1))
  if caught then skip else exit_failure
  pipe1 ← sys pipe
  fd1 ← or_exit 255 pipe1
  pipe2 ← sys pipe
  fd2 ← or_exit 255 pipe2
  forked ← sys fork
  pid ← or_exit 255 forked
  if not (pid == 0) then parent n fd1 fd2 else child fd1 fd2
