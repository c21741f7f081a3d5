-- ===== src/Threads/Makethread.antt =====
-- pthread/pthread_functions.c, pthread/test_attr.c and pthread/recursive_lock.c: threads that are made
-- detached. A thread's function goes by a number.
use unix_demos.Base.{
  num, ℕ, ◌≡◌, Bool, true, not, Option, none, some, ◌++◌, ◌==◌, if◌then◌else◌, codes, arith, inl,
  inr, Bool-cases,
}
use unix_demos.Os.{
  attr_init, attr_setdetached, attr_destroy, thread_create, thread_join, mutexattr_init,
  mutexattr_recursive, mutex_init, mutex_lock, mutex_unlock, malloc, free, sleep, fprintf, stdout,
  Prog, ret, fault, ◌>>=◌, ◌>>◌, sys, skip, exit_failure,
}
use unix_demos.Os.Run.{Kernel, returned, run}

-- What `makethread` answers, and what it writes to `*tidp`: none where nothing, or an unset value.
abbrev pub Made : Type 0
Made = ℕ × Option ℕ

-- The thread itself: the answer of pthread_create is not looked at.
abbrev pub create_detached : (err fn arg : ℕ) → Prog (Option ℕ)
create_detached err fn arg = if err == 0 then sys (thread_create true fn arg) else ret none

unfoldable pub makethread : (fn arg : ℕ) → Prog Made
makethread fn arg = do
  err ← sys attr_init
  if not (err == 0) then ret (err, none) else (do
    err' ← sys attr_setdetached
    tid ← create_detached err' fn arg
    sys attr_destroy
    ret (err', tid))

-- `if (err != 0) { fprintf(stderr, …); exit(-1); }`
abbrev pub ok_or_exit : (err : ℕ) → Prog (Unit {0})
ok_or_exit err = if err == 0 then skip else exit_failure

-- pthread/test_attr.c: a detached thread cannot be joined (EINVAL is 22). A join by an unset number reads
-- memory that was never written.
unfoldable pub test_attr : Prog ℕ
unfolding makethread
test_attr = do
  made ← makethread 0 0
  ok_or_exit made.0
  tid ← elim made.1 [ some tid ↦ ret tid | none ↦ fault ]
  joined ← sys (thread_join tid)
  if joined.0 == 22 then ret 0 else fault

-- pthread/recursive_lock.c: `struct to_info`
pub record ToInfo : Type 0 where
  pub fn : ℕ → Prog (Unit {0})
  pub to_arg : ℕ
  pub to_wait : ℕ

-- The thread that waits and calls, with the memory that it frees.
unfoldable pub timer_helper : (tip : ℕ) → ToInfo → Prog ℕ
timer_helper tip info = do
  sys (fprintf stdout (codes "sleep for " ++ (num info.to_wait ++ codes " secs\n")))
  sys (sleep info.to_wait)
  info.fn info.to_arg
  sys (free tip)
  ret 0

-- `sizeof(struct to_info)`
abbrev pub to_info_size : ℕ
to_info_size = 24

-- What `tip` leads to, for the thread that was made. The source returns nothing: the answer says which
-- call is left to a thread, if there is one, and only serves to state that.
abbrev pub left_to : Option ℕ → ToInfo → Option ToInfo
left_to none info = none
left_to (some tid) info = some info

unfoldable pub timeout : (when : ℕ) → (ℕ → Prog (Unit {0})) → (arg : ℕ) → Prog (Option ToInfo)
unfolding makethread
timeout when fn arg = do
  p ← sys (malloc to_info_size)
  elim p [
    | none ↦ ret none
    | some tip ↦ do
      made ← makethread 1 tip
      if made.0 == 0
          then ret (left_to made.1 (record { fn = fn; to_arg = arg; to_wait = when }))
          else sys (free tip) >> exit_failure
  ]

-- `flag` is set between the two.
unfoldable pub retry : Prog Bool
retry = do
  sys mutex_lock
  sys (fprintf stdout (codes "Recursive lock\n"))
  sys mutex_unlock
  ret true

-- `main` of recursive_lock.c up to its loop `while (!flag)`: the call that is left to a thread,
-- which will set the flag.
unfoldable pub recursive_lock : Prog (Option ToInfo)
unfolding timeout
recursive_lock = do
  err1 ← sys mutexattr_init
  ok_or_exit err1
  err2 ← sys mutexattr_recursive
  ok_or_exit err2
  err3 ← sys mutex_init
  ok_or_exit err3
  sys mutex_lock
  started ← timeout 4 (λ arg. retry >> skip) 0
  sys mutex_unlock
  ret started

module _ {K : Type 0} (kernel : Kernel K) (s : K) where
  -- The states at the calls of makethread.
  abbrev at_detach : K
  at_detach = (kernel attr_init s).1

  abbrev at_create : K
  at_create = (kernel attr_setdetached at_detach).1

  -- Whatever the calls answer, makethread returns; it answers 0 if the attributes can be set up, and then the
  -- thread's number is what pthread_create gave, nothing where that failed, which the answer does not
  -- tell.
  pub makethread-Made :
      (fn arg : ℕ)
      → (run kernel (makethread fn arg) s).ended
        ≡ returned (
            let err = (kernel attr_init s).0 in
            let err' = (kernel attr_setdetached at_detach).0 in
            if err == 0
            then (
              err',
              (if err' == 0 then (kernel (thread_create true fn arg) at_create).0 else none),
            )
            else (err, none))
  unfolding makethread run
  makethread-Made fn arg = elim (Bool-cases ((kernel attr_init s).0 == 0)) [
    | inl e ↦ elim (Bool-cases ((kernel attr_setdetached at_detach).0 == 0)) [
      | inl e' ↦ ground (arith, e, e')
      | inr e' ↦ ground (arith, e, e')
    ]
    | inr e ↦ ground (arith, e)
  ]

module _ {K : Type 0} (kernel : Kernel K) (s : K) where
  -- The state in which pthread_create is called.
  abbrev at_thread : K
  at_thread = (kernel attr_setdetached (kernel attr_init (kernel (malloc to_info_size) s).1).1).1
