-- ===== src/Daemon/Startup.antt =====
-- All that daemon/daemonize.c does before the daemon's work.
use unix_demos.Base.{
  ℕ, Option, true, zero, suc, ◌≡◌, refl, ◌∙◌, ap₂, inl, inr, not, List, [], ◌∷◌, ◌++◌, ◌==◌, arith,
  if◌then◌else◌,
}
use unix_demos.Os.{
  sig_dfl, sigaction, sigmask_block_all, pthread_create, syslog, Prog, exit, ◌>>=◌, ◌>>◌, sys, skip,
}
use unix_demos.Os.Run.{Kernel, Reply, returned, run, run->>=-returned}
use unix_demos.Os.Trace.{trace, trace-invoke, trace->>=}
use unix_demos.Daemon.{sighup, daemonize, already_running, main}
use unix_demos.Daemon.Sequence.{
  bound, detach_replies, close_replies, attach_replies, daemonize-calls,
}
use unix_demos.Daemon.Lock.{locked_replies, already_running-calls}

-- What `main` does with the answer of `already_running`.
unfoldable pub signals_set : ℕ → Prog (Unit {0})
signals_set running = do
  if not (running == 0) then sys syslog >> exit 1 else skip
  restored ← sys (sigaction sighup sig_dfl)
  if not restored then sys syslog >> exit 1 else skip
  err ← sys sigmask_block_all
  if not (err == 0) then sys syslog >> exit 1 else skip
  err ← sys pthread_create
  if not (err == 0) then sys syslog else skip

-- SIGHUP as it was, all signals blocked, and pthread_create's answer.
abbrev pub signal_replies : ℕ → List Reply
signal_replies err =
    (sigaction sighup sig_dfl, true) ∷ (sigmask_block_all, 0) ∷ (pthread_create, err) ∷ []

-- A thread that could not be made is logged.
abbrev pub log_replies : ℕ → List Reply
log_replies zero = []
log_replies (suc err) = (syslog, tt) ∷ []

module _ {K : Type 0} (kernel : Kernel K) where
  log-trace :
      (err : ℕ) (s : K)
      → trace kernel (if not (err == 0) then sys syslog else skip) s ≡ log_replies err
  unfolding trace
  log-trace zero s = refl
  log-trace (suc err) s = ground arith

  signals_set-trace :
      (r : ℕ) (s : K)
      → (run kernel (signals_set r) s).ended ≡ returned tt
      → (r ≡ 0)
        × ((err : ℕ) × (trace kernel (signals_set r) s ≡ signal_replies err ++ log_replies err))
  unfolding run signals_set
  signals_set-trace (suc r) s e = absurd (ground (arith, e))
  signals_set-trace zero s e =
      let s1 = (kernel (sigaction sighup sig_dfl) s).1 in
      let s2 = (kernel sigmask_block_all s1).1 in
      let err = (kernel pthread_create s2).0 in
      let a0 : (kernel (sigaction sighup sig_dfl) s).0 ≡ true = ground arith in
      let a1 : (kernel sigmask_block_all s1).0 ≡ 0 = ground (arith, a0) in
      (
        refl,
        (
          err,
          trace-invoke kernel _ _ s a0 (
              trace-invoke kernel _ _ s1 a1
                (trace-invoke kernel _ _ s2 refl (log-trace err (kernel pthread_create s2).1))),
        ),
      )

  -- Where main gets to the daemon's work, its calls and their answers are exactly these: those
  -- of becoming a daemon, with one close for each number below the hard limit on descriptors;
  -- those of a lock that the system has given, with the file emptied and the process's number
  -- written into it; then SIGHUP restored, all signals blocked and pthread_create, whose answer
  -- is followed by a call to the log if it is not 0, and by nothing if it is.
  pub main-calls :
      (s : K)
      → (run kernel main s).ended ≡ returned tt
      → (rlim_max : Option ℕ) × (changed fd x : ℕ) × (cut : Option ℕ) × (pid : ℕ)
        × (written : Option ℕ) × (err : ℕ) × (trace kernel main s
            ≡ (detach_replies rlim_max changed
                ++ (close_replies (bound rlim_max) 0 ++ attach_replies))
              ++ (locked_replies fd x cut pid written ++ (signal_replies err ++ log_replies err)))
  unfolding main signals_set
  main-calls s e =
      let (u, e1, rest, _) =
        run->>=-returned kernel daemonize (λ _. already_running >>= signals_set) s e in
      let s1 = (run kernel daemonize s).after in
      let (r, e2, last, _) = run->>=-returned kernel already_running signals_set s1 rest in
      let (rlim_max, changed, c1) = daemonize-calls kernel s e1 in
      let (zero_r, (err, c3)) = signals_set-trace r (run kernel already_running s1).after last in
      elim (already_running-calls kernel s1 e2) [
        | inl (one, _) ↦ absurd (omega (arith, one, zero_r))
        | inr (_, (fd, x, cut, pid, written, c2)) ↦ (
          rlim_max,
          changed,
          fd,
          x,
          cut,
          pid,
          written,
          err,
          trace->>= kernel daemonize (λ _. already_running >>= signals_set) s e1
              ∙ ap₂ (λ xs ys. xs ++ ys) c1
                  (trace->>= kernel already_running signals_set s1 e2
                    ∙ ap₂ (λ xs ys. xs ++ ys) c2 c3),
        )
      ]
