-- ===== src/Threads/Quit.antt =====
-- pthread/pthread_signal.c: one thread takes the signals, and sets a flag under a mutex when SIGQUIT comes;
-- the main thread waits for the flag under a condition variable. Each call is a step; a wait may also
-- end without a signal. The lines that are printed are left out.
pub mod Places
pub mod Wakeup
use unix_demos.Base.{
  ℕ, ◌≡◌, refl, sym, subst, ap, ◌∙◌, Bool, true, false, not, ◌&&◌, ◌||◌, Option, none, some, ◌==◌,
  if◌then◌else◌, arith, inl, inr, ◌⊎◌,
}
use unix_demos.Signals.{sigint, sigquit}

-- Where `main` stands: `waiting` inside the wait, `relocking` where the wait takes the mutex again. It
-- ends with the mutex.
pub data Main : Type 0 where
  locking testing waiting relocking printing returned : Main

-- Where `thr_fn` stands.
pub data Thread : Type 0 where
  sigwaiting locking setting unlocking signalling returned : Thread

-- `lock` (whether it is held) and `quitflag`.
pub record System : Type 0 where
  pub lock : Bool
  pub quitflag : Bool
  pub main : Main
  pub thread : Thread

abbrev pub start : System
start = record { lock = false; quitflag = false; main = Main.locking; thread = sigwaiting }

-- A step that takes the mutex is none where it is held.
abbrev pub taking : Bool → System → Option System
taking true t = none
taking false t = some (record t { lock = true })

-- `while (quitflag == 0) pthread_cond_wait(&waitloc, &lock);`: the test, and the wait gives the mutex back.
abbrev pub test_flag : Bool → System → Option System
test_flag true s = some (record s { main = printing })
test_flag false s = some (record s { lock = false; main = waiting })

-- A step of `main` from where it stands; `none` where it blocks or has returned.
unfoldable pub main_step : Main → System → Option System
main_step Main.locking s = taking s.lock (record s { main = testing })
main_step testing s = test_flag s.quitflag s
main_step waiting s = none
main_step relocking s = taking s.lock (record s { main = testing })
main_step printing s = some (record s { main = Main.returned })
main_step Main.returned s = none

-- A signal, or nothing, ends the wait.
unfoldable pub woken : Main → Main
woken waiting = relocking
woken m = m

-- What `thr_fn` does with the signal that `sigwait` gives it: none where it exits.
abbrev pub take_signal : (signo : ℕ) → System → Option System
take_signal signo s =
    if signo == sigint
    then some s
    else if signo == sigquit
    then some (record s { thread = Thread.locking })
    else none

-- A step of `thr_fn` from where it stands, with the next signal.
unfoldable pub thread_step : (signo : ℕ) → Thread → System → Option System
unfolding woken
thread_step signo sigwaiting s = take_signal signo s
thread_step signo Thread.locking s = taking s.lock (record s { thread = setting })
thread_step signo setting s = some (record s { quitflag = true; thread = unlocking })
thread_step signo unlocking s = some (record s { lock = false; thread = signalling })
thread_step signo signalling s = some (record s { main = woken s.main; thread = Thread.returned })
thread_step signo Thread.returned s = none

-- A wait that ends by chance.
unfoldable pub spurious : System → System
unfolding woken
spurious s = record s { main = woken s.main }

pub data Reach : System → Type 0 where
  here : Reach start
  by_main : {s t : System} → Reach s → main_step s.main s ≡ some t → Reach t
  by_thread : {s t : System} (signo : ℕ) → Reach s → thread_step signo s.thread s ≡ some t → Reach t
  by_chance : {s : System} → Reach s → Reach (spurious s)
