-- ===== src/Threads/Cleanup.antt =====
-- pthread/pthread_cleanup.c and the thread of pthread/pthread_cancel.c: the stack of clean-up handlers of a
-- thread, each of which prints a line.
use unix_demos.Base.{
  ℕ, zero, suc, ◌≡◌, refl, Bool, true, false, Option, none, some, List, [], ◌∷◌, ◌++◌, map, codes,
}
use unix_demos.Os.{Bytes}

-- What a thread does.
pub data Act : Type 0 where
  say : (line : Bytes) → Act
  push : (msg : Bytes) → Act
  pop : (execute : Bool) → Act
  testcancel : Act
  thread_exit : (value : ℕ) → Act
  thread_return : (value : ℕ) → Act

-- What was printed, and the value that a join gives: none for a thread that was cancelled.
pub record Outcome : Type 0 where
  pub printed : List Bytes
  pub value : Option ℕ

-- A return is not allowed while a handler is on the stack.
abbrev pub return_with : (stack : List Bytes) → (value : ℕ) → Option Outcome
return_with [] value = some (record { printed = []; value = some value })
return_with (msg ∷ stack) value = none

abbrev pub before : List Bytes → Option Outcome → Option Outcome
before lines none = none
before lines (some o) = some (record o { printed = lines ++ o.printed })

-- The top of the stack is taken off, and printed if it is to be run.
abbrev pub popped : (execute : Bool) → (stack : List Bytes) → List Bytes
popped true (msg ∷ stack) = msg ∷ []
popped execute stack = []

abbrev pub below : (stack : List Bytes) → List Bytes
below [] = []
below (msg ∷ stack) = stack

-- The run of a thread that may have been cancelled, with this stack of handlers. An exit and a cancellation
-- run the handlers from the top. None stands for what is not defined.
unfoldable pub run_thread : (cancelled : Bool) → List Act → (stack : List Bytes) → Option Outcome
run_thread cancelled [] stack = none
run_thread cancelled (say line ∷ acts) stack = before (line ∷ []) (run_thread cancelled acts stack)
run_thread cancelled (push msg ∷ acts) stack = run_thread cancelled acts (msg ∷ stack)
run_thread cancelled (pop execute ∷ acts) stack =
    before (popped execute stack) (run_thread cancelled acts (below stack))
run_thread true (testcancel ∷ acts) stack = some (record { printed = stack; value = none })
run_thread false (testcancel ∷ acts) stack = run_thread false acts stack
run_thread cancelled (thread_exit value ∷ acts) stack =
    some (record { printed = stack; value = some value })
run_thread cancelled (thread_return value ∷ acts) stack = return_with stack value

-- `if (arg) …`
abbrev pub when : (arg : ℕ) → Act → List Act → List Act
when zero act acts = acts
when (suc n) act acts = act ∷ acts

-- `thr_fn1` of pthread_cleanup.c
abbrev pub thr_fn1 : (arg : ℕ) → List Act
thr_fn1 arg =
    say (codes "thread 1 start")
    ∷ push (codes "thread1 first cleanup")
    ∷ push (codes "thread1 second cleanup")
    ∷ when arg (thread_return 1) (pop false ∷ pop false ∷ thread_return 1 ∷ [])

-- `thr_fn2` of pthread_cleanup.c
abbrev pub thr_fn2 : (arg : ℕ) → List Act
thr_fn2 arg =
    say (codes "thread 2 start")
    ∷ push (codes "thread2 first cleanup")
    ∷ push (codes "thread2 second cleanup")
    ∷ when arg (thread_exit 2) (pop false ∷ pop false ∷ thread_exit 2 ∷ [])

-- `thr_fn1` of pthread_cancel.c
abbrev pub cancellable : (arg : ℕ) → List Act
cancellable arg =
    say (codes "waiting for canceling.")
    ∷ push (codes "first cleanup")
    ∷ push (codes "second cleanup")
    ∷ testcancel
    ∷ when arg (thread_return 0) (pop false ∷ pop false ∷ thread_return 0 ∷ [])

abbrev pub reversed : List Bytes → List Bytes → List Bytes
reversed [] acc = acc
reversed (x ∷ xs) acc = reversed xs (x ∷ acc)

-- Handlers that were pushed are run by an exit in the opposite order, whatever stands behind it.
pub push-thread_exit :
    (cancelled : Bool) (msgs stack : List Bytes) (value : ℕ) (acts : List Act)
    → run_thread cancelled (map push msgs ++ thread_exit value ∷ acts) stack
      ≡ some (record { printed = reversed msgs stack; value = some value })
unfolding run_thread
push-thread_exit cancelled [] stack value acts = refl
push-thread_exit cancelled (msg ∷ msgs) stack value acts =
    push-thread_exit cancelled msgs (msg ∷ stack) value acts

-- The first thread of pthread_cleanup.c returns between the pushes and the pops where it is given an argument,
-- which is not defined, and ends with 1 and no handler run where it is not; the second one ends with 2,
-- and runs its two handlers, the last first, where it is given an argument.
pub thr_fns-Outcome :
    (cancelled : Bool) (n : ℕ)
    → (run_thread cancelled (thr_fn1 (suc n)) [] ≡ none)
      × (run_thread cancelled (thr_fn1 zero) []
          ≡ some (record { printed = codes "thread 1 start" ∷ []; value = some 1 }))
      × (run_thread cancelled (thr_fn2 (suc n)) []
          ≡ some (record {
            printed =
                codes "thread 2 start"
                ∷ codes "thread2 second cleanup"
                ∷ codes "thread2 first cleanup"
                ∷ [];
            value = some 2;
          }))
      × (run_thread cancelled (thr_fn2 zero) []
          ≡ some (record { printed = codes "thread 2 start" ∷ []; value = some 2 }))
unfolding run_thread
thr_fns-Outcome cancelled n = (refl, refl, refl, refl)
