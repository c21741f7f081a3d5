-- ===== src/Daemon/Sequence.antt =====
-- The order of the calls that daemon/daemonize.c makes on its way to being a daemon.
use unix_demos.Base.{
  ℕ, zero, suc, ◌+◌, ◌≡◌, refl, ◌∙◌, ap, ap₂, Option-cases, inl, inr, true, Option, none, some,
  List, [], ◌∷◌, ◌++◌, arith,
}
use unix_demos.Os.{
  sig_ign, Call, fork, setsid, umask, getrlimit_max, chdir, open_file, close, dup, sigaction,
  openlog, ◌>>◌,
}
use unix_demos.Os.Run.{Kernel, Reply, returned, run, run->>=-returned}
use unix_demos.Os.Trace.{trace, trace-ret, trace-invoke, trace->>=}
use unix_demos.Daemon.{sighup, limit, is_fd, only_child, detach, close_all, attach, daemonize}

-- The number of descriptors to close: the hard limit, or 1024 where there is none.
abbrev pub bound : Option ℕ → ℕ
bound none = 1024
bound (some n) = n

-- The detachment, with the answers that it goes on with: the limit and the new directory's.
abbrev pub detach_replies : Option ℕ → ℕ → List Reply
detach_replies rlim_max changed =
    (umask 0, tt)
    ∷ (getrlimit_max, some rlim_max)
    ∷ (fork, some 0)
    ∷ (setsid, tt)
    ∷ (sigaction sighup sig_ign, true)
    ∷ (fork, some 0)
    ∷ (chdir "/", some changed)
    ∷ []

abbrev pub close_replies : (n i : ℕ) → List Reply
close_replies zero i = []
close_replies (suc n) i = (close i, tt) ∷ close_replies n (i + 1)

abbrev pub attach_replies : List Reply
attach_replies =
    (open_file "/dev/null", some 0) ∷ (dup 0, some 1) ∷ (dup 0, some 2) ∷ (openlog, tt) ∷ []

module _ {K : Type 0} (kernel : Kernel K) where
  -- `close(0)`, `close(1)`, … one after another.
  abbrev pub closes : (n i : ℕ) → List Call
  closes zero i = []
  closes (suc n) i = close i ∷ closes n (i + 1)

  pub close_all-returned :
      (n i : ℕ) (s : K)
      → ((run kernel (close_all n i) s).ended ≡ returned tt)
        × ((run kernel (close_all n i) s).calls ≡ closes n i)
  unfolding run close_all
  close_all-returned zero i s = (refl, refl)
  close_all-returned (suc n) i s =
      ground (arith, close_all-returned n (i + 1) (kernel (close i) s).1)

  close_all-trace : (n i : ℕ) (s : K) → trace kernel (close_all n i) s ≡ close_replies n i
  unfolding close_all trace
  close_all-trace zero i s = refl
  close_all-trace (suc n) i s =
      ap (λ rs. (close i, tt) ∷ rs) (close_all-trace n (i + 1) (kernel (close i) s).1)

  limit-bound : (rlim_max : Option ℕ) → limit rlim_max ≡ bound rlim_max
  limit-bound none = refl
  limit-bound (some n) = refl

  detach-trace :
      (s : K) {n : ℕ}
      → (run kernel detach s).ended ≡ returned n
      → (rlim_max : Option ℕ) × (changed : ℕ) × (n ≡ bound rlim_max)
        × (trace kernel detach s ≡ detach_replies rlim_max changed)
  unfolding run detach only_child
  detach-trace s e =
      let s1 = (kernel (umask 0) s).1 in
      let s2 = (kernel getrlimit_max s1).1 in
      let s3 = (kernel fork s2).1 in
      let s4 = (kernel setsid s3).1 in
      let s5 = (kernel (sigaction sighup sig_ign) s4).1 in
      let s6 = (kernel fork s5).1 in
      elim (Option-cases (kernel getrlimit_max s1).0) [
        | inl no_limit ↦ absurd (ground (arith, no_limit))
        | inr (rlim_max, a2) ↦
            let a3 : (kernel fork s2).0 ≡ some 0 = ground (arith, a2) in
            let a5 : (kernel (sigaction sighup sig_ign) s4).0 ≡ true = ground (arith, a2, a3) in
            let a6 : (kernel fork s5).0 ≡ some 0 = ground (arith, a2, a3, a5) in
            elim (Option-cases (kernel (chdir "/") s6).0) [
              | inl no_dir ↦ absurd (ground (arith, a2, a3, a5, a6, no_dir))
              | inr (changed, a7) ↦ (
                rlim_max,
                changed,
                ground (arith, a2, a3, a5, a6, a7, limit-bound rlim_max),
                trace-invoke kernel _ _ s refl (
                    trace-invoke kernel _ _ s1 a2 (
                      trace-invoke kernel _ _ s2 a3 (
                        trace-invoke kernel _ _ s3 refl (
                          trace-invoke kernel _ _ s4 a5 (
                            trace-invoke kernel _ _ s5 a6 (
                              trace-invoke kernel _ _ s6 a7
                                (trace-ret kernel _ (kernel (chdir "/") s6).1))))))),
              )
            ]
      ]

  is_fd-some : (fd : Option ℕ) (n : ℕ) → is_fd fd n ≡ true → fd ≡ some n
  is_fd-some none n e = absurd (ground (arith, e))
  is_fd-some (some fd) n e = ap some (ground (arith, e))

  attach-trace :
      (s : K) → (run kernel attach s).ended ≡ returned tt → trace kernel attach s ≡ attach_replies
  unfolding run attach
  attach-trace s e =
      let s1 = (kernel (open_file "/dev/null") s).1 in
      let s2 = (kernel (dup 0) s1).1 in
      let s3 = (kernel (dup 0) s2).1 in
      let a0 : (kernel (open_file "/dev/null") s).0 ≡ some 0 = is_fd-some _ 0 (ground arith) in
      let a1 : (kernel (dup 0) s1).0 ≡ some 1 = is_fd-some _ 1 (ground arith) in
      let a2 : (kernel (dup 0) s2).0 ≡ some 2 = is_fd-some _ 2 (ground arith) in
      trace-invoke kernel _ _ s a0 (
        trace-invoke kernel _ _ s1 a1 (
          trace-invoke kernel _ _ s2 a2
            (trace-invoke kernel _ _ s3 refl (trace-ret kernel tt (kernel openlog s3).1))))

  -- Where daemonize returns, its calls and their answers are exactly these: the detachment, in
  -- the child of two forks round a setsid, with SIGHUP ignored between them and the root
  -- directory at its end; then one close for each number below the hard limit on descriptors,
  -- or below 1024 where there is no limit; then those that open the three standard descriptors
  -- again, which get the numbers 0, 1 and 2.
  pub daemonize-calls :
      (s : K)
      → (run kernel daemonize s).ended ≡ returned tt
      → (rlim_max : Option ℕ) × (changed : ℕ) × (trace kernel daemonize s
          ≡ detach_replies rlim_max changed ++ (close_replies (bound rlim_max) 0 ++ attach_replies))
  unfolding daemonize
  daemonize-calls s e =
      let (n, e1, rest, _) = run->>=-returned kernel detach (λ n. close_all n 0 >> attach) s e in
      let s1 = (run kernel detach s).after in
      let (u, e2, last, _) = run->>=-returned kernel (close_all n 0) (λ _. attach) s1 rest in
      let s2 = (run kernel (close_all n 0) s1).after in
      let (rlim_max, changed, same, d) = detach-trace s e1 in
      let closed = close_all-trace n 0 s1 in
      (
        rlim_max,
        changed,
        trace->>= kernel detach (λ n. close_all n 0 >> attach) s e1
            ∙ ap₂ (λ xs ys. xs ++ ys) d
                (trace->>= kernel (close_all n 0) (λ _. attach) s1 e2
                  ∙ ap₂ (λ xs ys. xs ++ ys) (rw (← same) closed) (attach-trace s2 last)),
      )
