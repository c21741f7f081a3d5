-- ===== src/Processes/Status.antt =====
-- `pr_exit` of proc_demos/wait_demo.c, time_demo.c and system_demo.c: the status of a process that
-- `wait` or `system` gives, read with the macros of <sys/wait.h>.
use unix_demos.Base.{
  num, ℕ, ◌+◌, ◌*◌, ◌/◌, ◌%◌, ◌<◌, ◌≤◌, ◌≡◌, Bool, true, false, not, ◌&&◌, [], ◌∷◌, ◌++◌, ◌==◌, ltb,
  if◌then◌else◌, codes, arith,
}
use unix_demos.Os.{Bytes, fprintf, stdout, Prog, sys, skip}
use unix_demos.Os.Run.{Kernel, returned, run}

abbrev pub wexitstatus : ℕ → ℕ
wexitstatus status = status / 256 % 256

abbrev pub wtermsig : ℕ → ℕ
wtermsig status = status % 128

abbrev pub wcoredump : ℕ → Bool
wcoredump status = not (status / 128 % 2 == 0)

abbrev pub wifexited : ℕ → Bool
wifexited status = wtermsig status == 0

abbrev pub wifsignaled : ℕ → Bool
wifsignaled status = ltb 0 (wtermsig status) && ltb (wtermsig status) 127

abbrev pub wifstopped : ℕ → Bool
wifstopped status = status % 256 == 127

abbrev pub exit_line : ℕ → Bytes
exit_line code = codes "normal termination, exit status = " ++ (num code ++ codes "\n")

abbrev pub signal_line : (sig : ℕ) → (core : Bool) → Bytes
signal_line sig core =
    codes "abnormal termination, signal number = "
    ++ (num sig ++ ((if core then codes "(core file generated)" else []) ++ codes "\n"))

abbrev pub stop_line : ℕ → Bytes
stop_line sig = codes "child stopped, signal number = " ++ (num sig ++ codes "\n")

unfoldable pub pr_exit : (status : ℕ) → Prog (Unit {0})
pr_exit status =
    if wifexited status
    then sys (fprintf stdout (exit_line (wexitstatus status)))
    else if wifsignaled status
    then sys (fprintf stdout (signal_line (wtermsig status) (wcoredump status)))
    else if wifstopped status
    then sys (fprintf stdout (stop_line (wexitstatus status)))
    else skip

-- How a process ended or stopped.
pub data Fate : Type 0 where
  exited : (code : ℕ) → Fate
  killed : (sig : ℕ) → (core : Bool) → Fate
  stopped : (sig : ℕ) → Fate

-- An exit code is a byte, and a signal that kills or stops has a number from 1 to 126.
abbrev pub IsFate : Fate → Type 0
IsFate (exited code) = code < 256
IsFate (killed sig core) = (1 ≤ sig) × (sig < 127)
IsFate (stopped sig) = sig < 127

-- The status that the system writes.
abbrev pub status_of : Fate → ℕ
status_of (exited code) = code * 256
status_of (killed sig core) = sig + (if core then 128 else 0)
status_of (stopped sig) = sig * 256 + 127

abbrev pub line : Fate → Bytes
line (exited code) = exit_line code
line (killed sig core) = signal_line sig core
line (stopped sig) = stop_line sig

-- Whatever the calls answer, pr_exit prints for the status of a process the one line that says
-- how it ended or stopped, with its exit code or its signal and whether it left a core file,
-- and returns.
pub pr_exit-line :
    {K : Type 0} (kernel : Kernel K) (fate : Fate) (s : K)
    → IsFate fate
    → let d = run kernel (pr_exit (status_of fate)) s in
      (d.ended ≡ returned tt)
      × (d.calls ≡ fprintf stdout (line fate) ∷ [])
      × (d.after ≡ (kernel (fprintf stdout (line fate)) s).1)
unfolding pr_exit run
pr_exit-line kernel (exited code) s h =
    let a : wtermsig (code * 256) ≡ 0 = omega arith in
    let b : wexitstatus (code * 256) ≡ code = omega (arith, h) in
    (ground (arith, a, b), ground (arith, a, b), ground (arith, a, b))
pr_exit-line kernel (killed sig true) s (h1, h2) =
    let a : wtermsig (sig + 128) ≡ sig = omega (arith, h1, h2) in
    let b : (sig + 128) / 128 % 2 ≡ 1 = omega (arith, h1, h2) in
    (ground (arith, a, b), ground (arith, a, b), ground (arith, a, b))
pr_exit-line kernel (killed sig false) s (h1, h2) =
    let a : wtermsig (sig + 0) ≡ sig = omega (arith, h1, h2) in
    let b : (sig + 0) / 128 % 2 ≡ 0 = omega (arith, h1, h2) in
    (ground (arith, a, b), ground (arith, a, b), ground (arith, a, b))
pr_exit-line kernel (stopped sig) s h =
    let a : wtermsig (sig * 256 + 127) ≡ 127 = omega arith in
    let b : (sig * 256 + 127) % 256 ≡ 127 = omega arith in
    let c : wexitstatus (sig * 256 + 127) ≡ sig = omega (arith, h) in
    (ground (arith, a, b, c), ground (arith, a, b, c), ground (arith, a, b, c))
