-- ===== src/Threads/Quit/Places.antt =====
-- The places in which the two threads of pthread/pthread_signal.c can be at once.
use unix_demos.Base.{
  ℕ, ◌≡◌, refl, sym, subst, Bool, true, false, not, ◌&&◌, ◌||◌, Option, none, some, ◌==◌,
  if◌then◌else◌, arith,
}
use unix_demos.Signals.{sigint, sigquit}
use unix_demos.Threads.Quit.{
  Main, Thread, System, take_signal, main_step, woken, thread_step, spurious, Reach, here, by_main,
  by_thread, by_chance, testing, waiting, relocking, printing, sigwaiting, setting, unlocking,
  signalling,
}

-- Who has the mutex.
unfoldable pub holds_main : Main → Bool
holds_main Main.locking = false
holds_main testing = true
holds_main waiting = false
holds_main relocking = false
holds_main printing = true
holds_main Main.returned = true

unfoldable pub holds_thread : Thread → Bool
holds_thread sigwaiting = false
holds_thread Thread.locking = false
holds_thread setting = true
holds_thread unlocking = true
holds_thread signalling = false
holds_thread Thread.returned = false

unfoldable pub quit : Thread → Bool
quit sigwaiting = false
quit Thread.locking = false
quit setting = false
quit unlocking = true
quit signalling = true
quit Thread.returned = true

unfoldable pub waits : Main → Bool
waits waiting = true
waits m = false

unfoldable pub is_over : Main → Bool
is_over printing = true
is_over Main.returned = true
is_over m = false

unfoldable pub is_returned : Thread → Bool
is_returned Thread.returned = true
is_returned t = false

-- The places in which the two can be at once.
abbrev pub ok : Main → Thread → Bool
ok m t =
    not (holds_main m && holds_thread t)
    && (not (waits m && is_returned t) && (not (is_over m) || quit t))

-- The places give the rest.
abbrev pub state_of : Main → Thread → System
state_of m t = record {
  lock = holds_main m || holds_thread t;
  quitflag = quit t;
  main = m;
  thread = t;
}

abbrev pub Known : System → Type 0
Known s = (ok s.main s.thread ≡ true) × (s ≡ state_of s.main s.thread)

AfterStep : Option System → Type 0
AfterStep none = Unit {0}
AfterStep (some t) = Known t

main_step-Known : (m : Main) (t : Thread) → ok m t ≡ true → AfterStep (main_step m (state_of m t))
unfolding AfterStep holds_main holds_thread quit waits is_over is_returned main_step
main_step-Known Main.locking sigwaiting e = (refl, refl)
main_step-Known Main.locking Thread.locking e = (refl, refl)
main_step-Known Main.locking setting e = tt
main_step-Known Main.locking unlocking e = tt
main_step-Known Main.locking signalling e = (refl, refl)
main_step-Known Main.locking Thread.returned e = (refl, refl)
main_step-Known testing sigwaiting e = (refl, refl)
main_step-Known testing Thread.locking e = (refl, refl)
main_step-Known testing setting e = absurd (ground (arith, e))
main_step-Known testing unlocking e = absurd (ground (arith, e))
main_step-Known testing signalling e = (refl, refl)
main_step-Known testing Thread.returned e = (refl, refl)
main_step-Known waiting sigwaiting e = tt
main_step-Known waiting Thread.locking e = tt
main_step-Known waiting setting e = tt
main_step-Known waiting unlocking e = tt
main_step-Known waiting signalling e = tt
main_step-Known waiting Thread.returned e = absurd (ground (arith, e))
main_step-Known relocking sigwaiting e = (refl, refl)
main_step-Known relocking Thread.locking e = (refl, refl)
main_step-Known relocking setting e = tt
main_step-Known relocking unlocking e = tt
main_step-Known relocking signalling e = (refl, refl)
main_step-Known relocking Thread.returned e = (refl, refl)
main_step-Known printing sigwaiting e = absurd (ground (arith, e))
main_step-Known printing Thread.locking e = absurd (ground (arith, e))
main_step-Known printing setting e = absurd (ground (arith, e))
main_step-Known printing unlocking e = absurd (ground (arith, e))
main_step-Known printing signalling e = (refl, refl)
main_step-Known printing Thread.returned e = (refl, refl)
main_step-Known Main.returned sigwaiting e = absurd (ground (arith, e))
main_step-Known Main.returned Thread.locking e = absurd (ground (arith, e))
main_step-Known Main.returned setting e = absurd (ground (arith, e))
main_step-Known Main.returned unlocking e = absurd (ground (arith, e))
main_step-Known Main.returned signalling e = tt
main_step-Known Main.returned Thread.returned e = tt

signal-Known :
    (signo : ℕ) (m : Main)
    → ok m sigwaiting ≡ true
    → AfterStep (take_signal signo (state_of m sigwaiting))
unfolding AfterStep holds_main holds_thread quit waits is_over is_returned
signal-Known signo m e = go (signo == sigint) (signo == sigquit)
  where
    go :
        (b c : Bool)
        → AfterStep (
            if b
            then some (state_of m sigwaiting)
            else if c
            then some (record (state_of m sigwaiting) { thread = Thread.locking })
            else none)
    go true c = (e, refl)
    go false true = (e, refl)
    go false false = tt

thread_step-Known :
    (signo : ℕ) (m : Main) (t : Thread)
    → ok m t ≡ true
    → AfterStep (thread_step signo t (state_of m t))
unfolding AfterStep holds_main holds_thread quit waits is_over is_returned thread_step woken
thread_step-Known signo Main.locking sigwaiting e = signal-Known signo Main.locking e
thread_step-Known signo Main.locking Thread.locking e = (refl, refl)
thread_step-Known signo Main.locking setting e = (refl, refl)
thread_step-Known signo Main.locking unlocking e = (refl, refl)
thread_step-Known signo Main.locking signalling e = (refl, refl)
thread_step-Known signo Main.locking Thread.returned e = tt
thread_step-Known signo testing sigwaiting e = signal-Known signo testing e
thread_step-Known signo testing Thread.locking e = tt
thread_step-Known signo testing setting e = absurd (ground (arith, e))
thread_step-Known signo testing unlocking e = absurd (ground (arith, e))
thread_step-Known signo testing signalling e = (refl, refl)
thread_step-Known signo testing Thread.returned e = tt
thread_step-Known signo waiting sigwaiting e = signal-Known signo waiting e
thread_step-Known signo waiting Thread.locking e = (refl, refl)
thread_step-Known signo waiting setting e = (refl, refl)
thread_step-Known signo waiting unlocking e = (refl, refl)
thread_step-Known signo waiting signalling e = (refl, refl)
thread_step-Known signo waiting Thread.returned e = absurd (ground (arith, e))
thread_step-Known signo relocking sigwaiting e = signal-Known signo relocking e
thread_step-Known signo relocking Thread.locking e = (refl, refl)
thread_step-Known signo relocking setting e = (refl, refl)
thread_step-Known signo relocking unlocking e = (refl, refl)
thread_step-Known signo relocking signalling e = (refl, refl)
thread_step-Known signo relocking Thread.returned e = tt
thread_step-Known signo printing sigwaiting e = absurd (ground (arith, e))
thread_step-Known signo printing Thread.locking e = absurd (ground (arith, e))
thread_step-Known signo printing setting e = absurd (ground (arith, e))
thread_step-Known signo printing unlocking e = absurd (ground (arith, e))
thread_step-Known signo printing signalling e = (refl, refl)
thread_step-Known signo printing Thread.returned e = tt
thread_step-Known signo Main.returned sigwaiting e = absurd (ground (arith, e))
thread_step-Known signo Main.returned Thread.locking e = absurd (ground (arith, e))
thread_step-Known signo Main.returned setting e = absurd (ground (arith, e))
thread_step-Known signo Main.returned unlocking e = absurd (ground (arith, e))
thread_step-Known signo Main.returned signalling e = (refl, refl)
thread_step-Known signo Main.returned Thread.returned e = tt

spurious-Known : (m : Main) (t : Thread) → ok m t ≡ true → Known (spurious (state_of m t))
unfolding holds_main holds_thread quit waits is_over is_returned spurious woken
spurious-Known Main.locking t e = (e, refl)
spurious-Known testing t e = (e, refl)
spurious-Known relocking t e = (e, refl)
spurious-Known printing t e = (e, refl)
spurious-Known Main.returned t e = (e, refl)
spurious-Known waiting sigwaiting e = (refl, refl)
spurious-Known waiting Thread.locking e = (refl, refl)
spurious-Known waiting setting e = (refl, refl)
spurious-Known waiting unlocking e = (refl, refl)
spurious-Known waiting signalling e = (refl, refl)
spurious-Known waiting Thread.returned e = absurd (ground (arith, e))

pub Reach-Known : {s : System} → Reach s → Known s
unfolding AfterStep holds_main holds_thread quit waits is_over is_returned
Reach-Known here = (refl, refl)
Reach-Known (by_main {s} {t} r e) =
    let (o, same) = Reach-Known r in
    subst AfterStep (subst (λ x. main_step s.main x ≡ some t) same e)
      (main_step-Known s.main s.thread o)
Reach-Known (by_thread {s} {t} signo r e) =
    let (o, same) = Reach-Known r in
    subst AfterStep (subst (λ x. thread_step signo s.thread x ≡ some t) same e)
      (thread_step-Known signo s.main s.thread o)
Reach-Known (by_chance {s} r) =
    let (o, same) = Reach-Known r in
    subst (λ x. Known (spurious x)) (sym same) (spurious-Known s.main s.thread o)

pub over_quit : (m : Main) (t : Thread) → ok m t ≡ true → is_over m ≡ true → quit t ≡ true
over_quit m t o e = ground (arith, o, e)
