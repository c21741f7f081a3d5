-- ===== src/Threads/Quit/Wakeup.antt =====
-- What the two threads of pthread/pthread_signal.c come to.
use unix_demos.Base.{◌≡◌, ap, ◌∙◌, Bool, true, false, some, ◌⊎◌}
use unix_demos.Signals.{sigquit}
use unix_demos.Threads.Quit.{
  Main, System, main_step, thread_step, Reach, testing, waiting, relocking, printing,
}
use unix_demos.Threads.Quit.Places.{is_over, Reach-Known, over_quit}

-- Where main is through its loop.
abbrev pub passed : Main → Bool
passed printing = true
passed Main.returned = true
passed m = false

passed-is_over : (m : Main) → passed m ≡ true → is_over m ≡ true
unfolding is_over
passed-is_over Main.locking e = e
passed-is_over testing e = e
passed-is_over waiting e = e
passed-is_over relocking e = e
passed-is_over printing e = e
passed-is_over Main.returned e = e

-- Whatever the schedule and the signals, main goes on behind its loop only with the flag set.
pub Reach-quitflag : {s : System} → Reach s → passed s.main ≡ true → s.quitflag ≡ true
Reach-quitflag {s} r e =
    let (o, same) = Reach-Known r in
    ap (λ x. x.quitflag) same ∙ over_quit s.main s.thread o (passed-is_over s.main e)

-- Main has returned, or one of the two can make a step, the thread with SIGQUIT for its next signal.
abbrev pub Moves : System → Type 0
Moves s =
    (s.main ≡ Main.returned)
    ⊎ (((t : System) × (main_step s.main s ≡ some t))
        ⊎ ((t : System) × (thread_step sigquit s.thread s ≡ some t)))
