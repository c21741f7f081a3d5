-- ===== src/Processes/Times.antt =====
-- proc_demos/time_demo.c: commands are run, and the time that each took is printed. The clock does not go
-- back between two calls of `times`, so the differences are numbers.
use Prim.Native.String.{String}
use unix_demos.Base.{
  ℕ, ◌-◌, ◌≡◌, refl, ap, ap₂, ◌∙◌, Option, none, some, List, [], ◌∷◌, ◌++◌, ◌==◌, if◌then◌else◌,
  codes, arith, inl, inr, append_assoc, append-nil, Bool-cases, Option-cases,
}
use unix_demos.Os.{
  Tms, Call, system, times, sysconf_clk_tck, print_ratio, setbuf, fprintf, stdout, Prog, R, invoke,
  ret, ◌>>=◌, ◌>>◌, sys, or_exit,
}
use unix_demos.Os.Run.{Kernel, returned, run, run->>=-returned}
use unix_demos.Processes.Status.{pr_exit}

-- The ticks of a second, which are asked for once: `clktck` is 0 before.
unfoldable pub clock_ticks : (clktck : ℕ) → Prog ℕ
clock_ticks clktck = if clktck == 0 then (do r ← sys sysconf_clk_tck; or_exit 255 r) else ret clktck

-- It answers the value that `clktck` has afterwards.
unfoldable pub pr_times : (clktck real : ℕ) → (tmsstart tmsend : Tms) → Prog ℕ
unfolding clock_ticks
pr_times clktck real tmsstart tmsend = do
  ticks ← clock_ticks clktck
  sys (print_ratio (codes "  real:  ") real ticks)
  sys (print_ratio (codes "  user:  ") (tmsend.tms_utime - tmsstart.tms_utime) ticks)
  sys (print_ratio (codes "  sys:  ") (tmsend.tms_stime - tmsstart.tms_stime) ticks)
  sys (print_ratio (codes "  child user:  ") (tmsend.tms_cutime - tmsstart.tms_cutime) ticks)
  sys (print_ratio (codes "  child sys:  ") (tmsend.tms_cstime - tmsstart.tms_cstime) ticks)
  ret ticks

unfoldable pub do_cmd : (clktck : ℕ) → (cmd : String) → Prog ℕ
unfolding pr_times
do_cmd clktck cmd = do
  sys (fprintf stdout (codes "\nCommand: " ++ (codes cmd ++ codes "\n")))
  r1 ← sys times
  t1 ← or_exit 255 r1
  r2 ← sys (system cmd)
  status ← or_exit 255 r2
  r3 ← sys times
  t2 ← or_exit 255 r3
  ticks ← pr_times clktck (t2.0 - t1.0) t1.1 t2.1
  pr_exit status
  ret ticks

-- The loop over the arguments.
unfoldable pub do_cmds : (clktck : ℕ) → List String → Prog ℕ
unfolding do_cmd
do_cmds clktck [] = ret clktck
do_cmds clktck (cmd ∷ cmds) = do ticks ← do_cmd clktck cmd; do_cmds ticks cmds

unfoldable pub main : List String → Prog ℕ
unfolding do_cmds
main cmds = sys (setbuf stdout) >> do_cmds 0 cmds >> ret 0

-- The command that a call runs.
abbrev pub command_of : Call → List String
command_of (system cmd) = cmd ∷ []
command_of _ = []

abbrev pub commands : List Call → List String
commands [] = []
commands (c ∷ cs) = command_of c ++ commands cs

commands-append : (cs ds : List Call) → commands (cs ++ ds) ≡ commands cs ++ commands ds
commands-append [] ds = refl
commands-append (c ∷ cs) ds =
    ground (arith, commands-append cs ds, append_assoc (command_of c) (commands cs) (commands ds))

module _ {K : Type 0} (kernel : Kernel K) where
  -- Where the program returns, it has run these commands.
  abbrev Runs : {A : Type 0} → Prog A → List String → Type 0
  Runs {A} p cmds =
      (s : K) (a : A) → (run kernel p s).ended ≡ returned a → commands (run kernel p s).calls ≡ cmds

  Runs-ret : {A : Type 0} (a : A) → Runs (ret a) []
  unfolding run
  Runs-ret a s b e = refl

  Runs-or_exit : {A : Type 0} (status : ℕ) (o : Option A) → Runs (or_exit status o) []
  unfolding run
  Runs-or_exit status none s b e = refl
  Runs-or_exit status (some a) s b e = refl

  Runs-invoke :
      {A : Type 0} (c : Call) (f : R c → Prog A) {cmds : List String}
      → ((r : R c) → Runs (f r) cmds)
      → Runs (invoke c f) (command_of c ++ cmds)
  unfolding run
  Runs-invoke c f h s b e = ap (λ cs. command_of c ++ cs) (h (kernel c s).0 (kernel c s).1 b e)

  Runs->>= :
      {A B : Type 0} (p : Prog A) (k : A → Prog B) {cs ds : List String}
      → Runs p cs
      → ((a : A) → Runs (k a) ds)
      → Runs (p >>= k) (cs ++ ds)
  Runs->>= p k {cs} {ds} h g s b e =
      let (a, e1, e2, e3) = run->>=-returned kernel p k s e in
      ap commands e3
      ∙ (commands-append (run kernel p s).calls (run kernel (k a) (run kernel p s).after).calls
          ∙ ap₂ (λ xs ys. xs ++ ys) (h s a e1) (g a (run kernel p s).after b e2))

  Runs-pr_exit : (status : ℕ) → Runs (pr_exit status) []
  unfolding pr_exit run
  Runs-pr_exit status s b e = ground arith

  Runs-clock_ticks : (clktck : ℕ) → Runs (clock_ticks clktck) []
  unfolding clock_ticks run
  Runs-clock_ticks clktck s b e = elim (Bool-cases (clktck == 0)) [
    | inl e1 ↦ elim (Option-cases (kernel sysconf_clk_tck s).0) [
      | inl e2 ↦ ground (arith, e1, e2)
      | inr (n, e2) ↦ ground (arith, e1, e2)
    ]
    | inr e1 ↦ ground (arith, e1)
  ]

  Runs-pr_times : (clktck real : ℕ) (t1 t2 : Tms) → Runs (pr_times clktck real t1 t2) []
  unfolding pr_times
  Runs-pr_times clktck real t1 t2 =
      Runs->>= (clock_ticks clktck) _ (Runs-clock_ticks clktck) (λ ticks. Runs-invoke _ _ (λ u1.
        Runs-invoke _ _ (λ u2.
          Runs-invoke _ _ (λ u3. Runs-invoke _ _ (λ u4. Runs-invoke _ _ (λ u5. Runs-ret ticks))))))

  Runs-do_cmd : (clktck : ℕ) (cmd : String) → Runs (do_cmd clktck cmd) (cmd ∷ [])
  unfolding do_cmd
  Runs-do_cmd clktck cmd = Runs-invoke _ _ (λ u. Runs-invoke _ _ (λ r1.
      Runs->>= (or_exit 255 r1) _ (Runs-or_exit 255 r1) (λ t1. Runs-invoke _ _ (λ r2.
        Runs->>= (or_exit 255 r2) _ (Runs-or_exit 255 r2) (λ status. Runs-invoke _ _ (λ r3.
          Runs->>= (or_exit 255 r3) _ (Runs-or_exit 255 r3) (λ t2.
            Runs->>= (pr_times clktck _ _ _) _ (Runs-pr_times clktck _ _ _) (λ ticks.
              Runs->>= (pr_exit status) _ (Runs-pr_exit status) (λ v. Runs-ret ticks)))))))))

  Runs-do_cmds : (cmds : List String) (clktck : ℕ) → Runs (do_cmds clktck cmds) cmds
  unfolding do_cmds
  Runs-do_cmds [] clktck = Runs-ret clktck
  Runs-do_cmds (cmd ∷ cmds) clktck =
      Runs->>= (do_cmd clktck cmd) (λ ticks. do_cmds ticks cmds) (Runs-do_cmd clktck cmd)
        (λ ticks. Runs-do_cmds cmds ticks)

  -- Whatever the calls answer, where time_demo.c returns it has run its arguments as commands,
  -- each once and in order.
  pub main-commands :
      (cmds : List String) (s : K)
      → (run kernel (main cmds) s).ended ≡ returned 0
      → commands (run kernel (main cmds) s).calls ≡ cmds
  unfolding main
  main-commands cmds s e =
      Runs-invoke _ _
        (λ u.
          Runs->>= (do_cmds 0 cmds) (λ ticks. ret 0) (Runs-do_cmds cmds 0) (λ ticks. Runs-ret 0))
        s 0 e
      ∙ append-nil cmds
