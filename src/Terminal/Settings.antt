-- ===== src/Terminal/Settings.antt =====
-- term_io/winsz.c, term_io/alt_spchr.c and term_io/tc_linecntl.c
use unix_demos.Base.{num, ℕ, zero, suc, ◌++◌, if◌then◌else◌, codes}
use unix_demos.Os.{
  catch, isatty, fpathconf_vdisable, tcgetcc, tcsetcc, tcflow_ioff, tiocgwinsz, signal, pause,
  fprintf, stdin_fileno, stdout, Prog, ret, exit, ◌>>=◌, ◌>>◌, sys, skip, or_exit, exit_failure,
}

-- `if (isatty(STDIN_FILENO) == 0) …; exit(status);`
abbrev pub on_terminal : (status : ℕ) → Prog (Unit {0})
on_terminal status = do tty ← sys (isatty stdin_fileno); if tty then skip else exit status

unfoldable pub pr_winsz : (fd : ℕ) → Prog (Unit {0})
pr_winsz fd = do
  r ← sys (tiocgwinsz fd)
  size ← or_exit 255 r
  sys (fprintf stdout (num size.0 ++ (codes " row, " ++ (num size.1 ++ codes " columns\n"))))

unfoldable pub sig_winch : Prog (Unit {0})
unfolding pr_winsz
sig_winch = sys (fprintf stdout (codes "SIGWINCH received\n")) >> pr_winsz stdin_fileno

-- `main` of winsz.c, whose endless loop makes `n` rounds. SIGWINCH is 28.
abbrev pub pauses : (n : ℕ) → Prog (Unit {0})
pauses zero = skip
pauses (suc n) = sys pause >> pauses n

unfoldable pub winsz : (n : ℕ) → Prog (Unit {0})
unfolding pr_winsz
winsz n = do
  on_terminal 1
  ok ← sys (signal 28 (catch 0))
  if ok then skip else exit_failure
  pr_winsz stdin_fileno
  pauses n

-- `main` of alt_spchr.c: the interrupt character is switched off (`_POSIX_VDISABLE` is 0), and the end of
-- the input is control-B.
unfoldable pub alt_spchr : Prog ℕ
alt_spchr = do
  on_terminal 255
  r1 ← sys (fpathconf_vdisable stdin_fileno)
  vdisable ← or_exit 255 r1
  r2 ← sys (tcgetcc stdin_fileno)
  term ← or_exit 255 r2
  r3 ← sys (tcsetcc stdin_fileno 0 2)
  or_exit 255 r3
  ret 0

-- `main` of tc_linecntl.c
unfoldable pub tc_linecntl : Prog ℕ
tc_linecntl = do on_terminal 255; r ← sys (tcflow_ioff stdin_fileno); or_exit 255 r; ret 0
