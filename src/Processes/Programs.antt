-- ===== src/Processes/Programs.antt =====
-- Small programs of proc_demos/: orphan_grp.c, echoall.c, fork_buf.c, vfork_demo.c, atexit_demo.c and
-- system_secure.c.
use unix_demos.Base.{
  num, ℕ, ◌+◌, ◌≡◌, ap, ◌∙◌, Bool, true, false, not, Option, none, some, List, [], ◌∷◌, ◌++◌, ◌==◌,
  if◌then◌else◌, codes, append-nil, append_assoc,
}
use unix_demos.Os.{
  Bytes, catch, fork, vfork, getpid, getppid, getpgrp, getuid, geteuid, tcgetpgrp, sleep, signal,
  kill, read, atexit, fflush, fprintf, stdin_fileno, stdout, Prog, ret, exit, ◌>>=◌, ◌>>◌, sys,
  skip, or_exit,
}
use unix_demos.Signals.{sigtstp}

-- proc_demos/orphan_grp.c
unfoldable pub pr_ids : (name : Bytes) → Prog (Unit {0})
pr_ids name = do
  pid ← sys getpid
  ppid ← sys getppid
  pgrp ← sys getpgrp
  tpgrp ← sys (tcgetpgrp stdin_fileno)
  sys (
      fprintf stdout (
        name
        ++ (codes ": pid = "
            ++ (num pid
                ++ (codes ", ppid = "
                    ++ (num ppid
                        ++ (codes ", pgrp = "
                            ++ (num pgrp
                                ++ (codes ", tpgrp = " ++ (num tpgrp ++ codes "\n"))))))))))
  sys (fflush stdout)

unfoldable pub sig_hup : Prog (Unit {0})
sig_hup = do
  pid ← sys getpid
  sys (fprintf stdout (codes "SIGHUP received, pid=" ++ (num pid ++ codes "\n")))

-- One byte was read.
abbrev pub one_read : Option Bytes → Bool
one_read (some (c ∷ [])) = true
one_read _ = false

-- The child stops itself, and reads from the terminal when it goes on; `errno` is the text of the error.
-- SIGHUP is 1.
unfoldable pub orphan_child : (errno : Bytes) → Prog (Unit {0})
unfolding pr_ids
orphan_child errno = do
  pr_ids (codes "child")
  sys (signal 1 (catch 0))
  pid ← sys getpid
  sys (kill pid sigtstp)
  pr_ids (codes "child")
  r ← sys (read stdin_fileno 1)
  if one_read r
      then skip
      else sys (fprintf stdout (codes "read error " ++ (errno ++ codes " on controlling TTY\n")))

unfoldable pub orphan_grp : (errno : Bytes) → Prog ℕ
unfolding pr_ids orphan_child
orphan_grp errno = do
  pr_ids (codes "parent")
  forked ← sys fork
  pid ← or_exit 255 forked
  if pid == 0 then orphan_child errno else sys (sleep 5)
  ret 0

-- proc_demos/echoall.c, from the argument with this number on.
unfoldable pub echoall : (i : ℕ) → (argv : List Bytes) → Prog ℕ
echoall i [] = ret 0
echoall i (arg ∷ args) = do
  sys (fprintf stdout (codes "argv[" ++ (num i ++ (codes "] : " ++ (arg ++ codes "\n")))))
  echoall (i + 1) args

-- proc_demos/system_secure.c
unfoldable pub system_secure : Prog ℕ
system_secure = do
  uid ← sys getuid
  euid ← sys geteuid
  sys (
      fprintf stdout (
        codes "real uid = "
        ++ (num uid ++ (codes ", effective uid = " ++ (num euid ++ codes "\n")))))
  ret 0

-- proc_demos/vfork_demo.c: the child runs in the memory of its parent, `globvar` and `var`.
abbrev pub child_of_vfork : ℕ × ℕ → ℕ × ℕ
child_of_vfork (globvar, var) = (globvar + 1, var + 1)

unfoldable pub vfork_demo : Prog ℕ
vfork_demo = do
  sys (fprintf stdout (codes "before vfork\n"))
  forked ← sys vfork
  elim forked [
    | none ↦ ret 255
    | some pid ↦
        if pid == 0
        then exit 0
        else (let memory = child_of_vfork (6, 88) in
            sys (
              fprintf stdout (
                codes "pid = "
                ++ (num pid
                    ++ (codes ", glob = "
                        ++ (num memory.0 ++ (codes ", var = " ++ (num memory.1 ++ codes "\n")))))))
            >> ret 0)
  ]

-- proc_demos/atexit_demo.c: `clear_onexit1` goes by 1 and `clear_onexit2` by 2.
abbrev pub register : (handler : ℕ) → (next : Prog ℕ) → Prog ℕ
register handler next = do
  r ← sys (atexit handler)
  if not (r == 0) then sys (fprintf 2 (codes "can't register `clear_onexit1`")) >> ret 255 else next

unfoldable pub atexit_demo : Prog ℕ
atexit_demo =
    sys (fprintf stdout (codes "At Exit Demo!\n")) >> register 1 (register 1 (register 2 (exit 0)))

-- proc_demos/fork_buf.c: what has left for the file, and the buffer of stdout.
pub record Stdio : Type 0 where
  pub file : Bytes
  pub buffer : Bytes

-- A line is printed: at once on a terminal, else into the buffer.
unfoldable pub put_line : (tty : Bool) → Bytes → Stdio → Stdio
put_line true text s = record { file = s.file ++ (s.buffer ++ text); buffer = [] }
put_line false text s = record s { buffer = s.buffer ++ text }

-- The end of a process.
unfoldable pub flush : Stdio → Stdio
flush s = record { file = s.file ++ s.buffer; buffer = [] }

abbrev pub vars_line : (pid globalvar var : ℕ) → Bytes
vars_line pid globalvar var =
    codes "pid = "
    ++ (num pid
        ++ (codes ", globalvar = "
            ++ (num globalvar ++ (codes ", var = " ++ (num var ++ codes "\n")))))

-- A line is printed in front of the fork and one by each process behind it: the child ends while the parent
-- sleeps, and each has its own buffer.
unfoldable pub round_fork : (tty : Bool) → (written before child parent : Bytes) → Bytes
unfolding flush put_line
round_fork tty written before child parent =
    let s = put_line tty before (record { file = written; buffer = [] }) in
    let c = flush (put_line tty child s) in
    (flush (put_line tty parent (record { file = c.file; buffer = s.buffer }))).file

-- `main`, where the first write and the fork do not fail.
unfoldable pub fork_buf : (tty : Bool) → (pid : ℕ) → Bytes
unfolding round_fork
fork_buf tty pid =
    round_fork tty (codes "a write to stdout\n") (codes "before fork\n") (vars_line 0 7 89)
      (vars_line pid 6 88)

-- On a terminal the line in front of the fork is printed once; in a file it is printed by both processes.
pub round_fork-lines :
    (written before child parent : Bytes)
    → (round_fork true written before child parent ≡ written ++ (before ++ (child ++ parent)))
      × (round_fork false written before child parent
          ≡ written ++ (before ++ (child ++ (before ++ parent))))
unfolding round_fork put_line flush
round_fork-lines written before child parent = (
  append-nil _
      ∙ (ap (λ xs. xs ++ parent) (append-nil ((written ++ before) ++ child))
          ∙ (append_assoc (written ++ before) child parent
              ∙ append_assoc written before (child ++ parent))),
  append_assoc written (before ++ child) (before ++ parent)
      ∙ ap (λ xs. written ++ xs) (append_assoc before child (before ++ parent)),
)
