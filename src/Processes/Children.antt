-- ===== src/Processes/Children.antt =====
-- proc_demos/wait_demo.c, system_demo.c, no_zombie.c, exec_demo.c and interpreter_demo.c: a child is
-- started and waited for. `main` answers the status that it returns, 255 for -1.
use Prim.Native.String.{String}
use unix_demos.Base.{
  num, ℕ, ◌≡◌, ◌≢◌, subst, sym, Bool, true, false, none, some, List, [], ◌∷◌, ◌++◌, ◌==◌, ==_of_ne,
  ==_refl, if◌then◌else◌, codes,
}
use unix_demos.Os.{
  fork, wait, waitpid, system, exec, abort, sleep, getppid, fprintf, stdout, Prog, ret, exit, fault,
  ◌>>=◌, ◌>>◌, sys, skip, or_exit,
}
use unix_demos.Os.Run.{
  Kernel, Ended, returned, Reply, Answers, Makes, Makes-invoke, Makes-ret, Makes->>=,
}
use unix_demos.Processes.Status.{pr_exit, Fate, IsFate, status_of, line, pr_exit-line}

-- `if (wait(&status) != pid) …; pr_exit(status);`
unfoldable pub wait_for : (pid : ℕ) → (next : Prog ℕ) → Prog ℕ
wait_for pid next = do
  got ← sys wait
  elim got [
    | none ↦ ret 255
    | some (p, status) ↦ if p == pid then pr_exit status >> next else ret 255
  ]

-- A child is forked and waited for.
unfoldable pub spawn : (child next : Prog ℕ) → Prog ℕ
unfolding wait_for
spawn child next = do
  forked ← sys fork
  elim forked [ none ↦ ret 255 | some pid ↦ if pid == 0 then child else wait_for pid next ]

-- proc_demos/wait_demo.c: the last child divides by zero.
unfoldable pub wait_demo : Prog ℕ
unfolding spawn
wait_demo = spawn (exit 7) (spawn (sys abort >> fault) (spawn fault (ret 0)))

-- `if ((status = system(cmd)) < 0) …; pr_exit(status);`
unfoldable pub run_command : (cmd : String) → Prog (Unit {0})
run_command cmd = do r ← sys (system cmd); status ← or_exit 255 r; pr_exit status

-- proc_demos/system_demo.c, called with an argument.
unfoldable pub system_demo : (arg : String) → Prog ℕ
unfolding run_command
system_demo arg = do
  run_command "date"
  run_command "nosuchcommand"
  run_command "who; exit 44"
  run_command arg
  ret 0

-- proc_demos/no_zombie.c: the child leaves its own child to init.
unfoldable pub no_zombie_child : Prog ℕ
no_zombie_child = do
  forked ← sys fork
  pid ← or_exit 255 forked
  if pid == 0
      then (do
        sys (sleep 5)
        ppid ← sys getppid
        sys (fprintf stdout (codes "parent process id: " ++ (num ppid ++ codes "\n")))
        exit 0)
      else exit 0

unfoldable pub no_zombie : Prog ℕ
unfolding no_zombie_child
no_zombie = do
  forked ← sys fork
  elim forked [
    | none ↦ ret 255
    | some pid ↦ if pid == 0 then no_zombie_child else (do
      waited ← sys (waitpid pid)
      ret (elim waited [ none ↦ 255 | some p ↦ if p == pid then 0 else 255 ]))
  ]

-- A child that becomes another program, as in exec_demo.c and interpreter_demo.c: `exec` returns where it
-- fails, and only then.
unfoldable pub exec_and_wait : (path : String) → Prog (Unit {0})
exec_and_wait path = do
  forked ← sys fork
  pid ← or_exit 255 forked
  if pid == 0
      then sys (exec path) >> exit 255
      else (do waited ← sys (waitpid pid); or_exit 255 waited; skip)

-- proc_demos/exec_demo.c
unfoldable pub exec_demo : Prog ℕ
unfolding exec_and_wait
exec_demo = do
  exec_and_wait "/home/zach41/Desktop/UNIX-Demos/proc_demos/echoall"
  exec_and_wait "echoall"
  ret 0

-- proc_demos/interpreter_demo.c
unfoldable pub interpreter_demo : Prog ℕ
unfolding exec_and_wait
interpreter_demo = exec_and_wait "./testinterp" >> ret 0

-- A child with this number that ends so, and the rest.
abbrev pub born : ℕ × Fate → List Reply → List Reply
born (pid, fate) rest =
    (fork, some pid) ∷ (wait, some (pid, status_of fate)) ∷ (fprintf stdout (line fate), tt) ∷ rest

module _ {K : Type 0} (kernel : Kernel K) where
  choose :
      {b : Bool} (p q : Prog ℕ) {s : K} {rs : List Reply} {e : Ended ℕ} (c : Bool)
      → b ≡ c
      → Makes kernel (if c then p else q) s rs e
      → Makes kernel (if b then p else q) s rs e
  choose p q {s} {rs} {e} c b m = subst (λ b. Makes kernel (if b then p else q) s rs e) (sym b) m

  -- The state after a child was forked and waited for.
  abbrev waited : ℕ × Fate → K → K
  waited (pid, fate) s = (kernel (fprintf stdout (line fate)) (kernel wait (kernel fork s).1).1).1

  pr_exit-Makes :
      (fate : Fate) (s : K)
      → IsFate fate
      → Makes kernel
          (pr_exit (status_of fate))
          s
          ((fprintf stdout (line fate), tt) ∷ [])
          (returned tt)
  pr_exit-Makes fate s h =
      let (a, b, c) = pr_exit-line kernel fate s h in record { ended = a; calls = b; after = c }

  spawn-Makes :
      (child next : Prog ℕ) (pid : ℕ) (fate : Fate) (rest : List Reply) (e : Ended ℕ) (s : K)
      → pid ≢ 0
      → IsFate fate
      → Answers kernel s (born (pid, fate) rest)
      → Makes kernel next (waited (pid, fate) s) rest e
      → Makes kernel (spawn child next) s (born (pid, fate) rest) e
  unfolding spawn wait_for
  spawn-Makes child next pid fate rest e s other h (a, (b, c)) m = Makes-invoke kernel a (
      choose {b = pid == 0} _ _ false (==_of_ne pid 0 other) (
        Makes-invoke kernel b (
          choose {b = pid == pid} _ _ true (==_refl pid)
            (Makes->>= kernel (λ u. next) (pr_exit-Makes fate _ h) m))))

  -- If the forks answer in the parent, and each wait gives the child that was forked last and
  -- the status of how it ended, then wait_demo.c prints the line for each of the three and
  -- returns 0.
  pub wait_demo-lines :
      (pid1 pid2 pid3 : ℕ) (fate1 fate2 fate3 : Fate) (s : K)
      → pid1 ≢ 0
      → pid2 ≢ 0
      → pid3 ≢ 0
      → IsFate fate1
      → IsFate fate2
      → IsFate fate3
      → let rs = born (pid1, fate1) (born (pid2, fate2) (born (pid3, fate3) [])) in
        Answers kernel s rs → Makes kernel wait_demo s rs (returned 0)
  unfolding wait_demo
  wait_demo-lines pid1 pid2 pid3 fate1 fate2 fate3 s n1 n2 n3 h1 h2 h3
        (a1, (b1, (c1, (a2, (b2, (c2, (a3, (b3, (c3, u))))))))) =
      spawn-Makes _ _ pid1 fate1 _ _ s n1 h1 (a1, (b1, (c1, (a2, (b2, (c2, (a3, (b3, (c3, u)))))))))
        (spawn-Makes _ _ pid2 fate2 _ _ _ n2 h2 (a2, (b2, (c2, (a3, (b3, (c3, u))))))
          (spawn-Makes _ _ pid3 fate3 _ _ _ n3 h3 (a3, (b3, (c3, u))) (Makes-ret kernel)))
