-- ===== src/Signals/Sender/Sent.antt =====
-- What signal/sig_sender.c and signal/rt_signal.c send.
use unix_demos.Base.{
  ℕ, zero, suc, ◌+◌, ◌≡◌, refl, List, [], ◌∷◌, ◌++◌, ltb, if◌then◌else◌, length, get_or, arith, inl,
  inr, Option-cases, Bool-cases, append-nil, append_assoc,
}
use unix_demos.Os.{Bytes, kill, sigqueue, getpid, getuid, fprintf, stdout, Call, ret, ◌>>◌}
use unix_demos.Os.Run.{Kernel, returned, run, run->>=-returned}
use unix_demos.Signals.Sender.{
  wants_usage, announcement, greeting, send_all, queue_all, rounds_of, send_last, sig_sender,
  rt_signal,
}

-- The signal that a call sends: to whom, which, and with what number.
abbrev pub signal_of : Call → List (ℕ × ℕ × ℕ)
signal_of (kill pid sig) = (pid, sig, 0) ∷ []
signal_of (sigqueue pid sig value) = (pid, sig, value) ∷ []
signal_of _ = []

abbrev pub sent : List Call → List (ℕ × ℕ × ℕ)
sent [] = []
sent (c ∷ cs) = signal_of c ++ sent cs

sent-append : (cs ds : List Call) → sent (cs ++ ds) ≡ sent cs ++ sent ds
sent-append [] ds = refl
sent-append (c ∷ cs) ds =
    ground (arith, sent-append cs ds, append_assoc (signal_of c) (sent cs) (sent ds))

abbrev pub times : ℕ → (ℕ × ℕ × ℕ) → List (ℕ × ℕ × ℕ)
times zero x = []
times (suc n) x = x ∷ times n x

abbrev pub numbered : (n pid sig value : ℕ) → List (ℕ × ℕ × ℕ)
numbered zero pid sig value = []
numbered (suc n) pid sig value = (pid, sig, value) ∷ numbered n pid sig (value + 1)

module _ {K : Type 0} (kernel : Kernel K) where
  send_all-sent :
      (n pid sig : ℕ) (s : K)
      → (run kernel (send_all n pid sig) s).ended ≡ returned tt
      → sent (run kernel (send_all n pid sig) s).calls ≡ times n (pid, sig, 0)
  unfolding send_all run
  send_all-sent zero pid sig s e = refl
  send_all-sent (suc n) pid sig s e = elim (Option-cases (kernel (kill pid sig) s).0) [
    | inl e1 ↦ absurd (ground (arith, e, e1))
    | inr (a, e1) ↦ ground (arith, e, e1, send_all-sent n pid sig (kernel (kill pid sig) s).1)
  ]

  queue_all-sent :
      (n pid sig value : ℕ) (s : K)
      → (run kernel (queue_all n pid sig value) s).ended ≡ returned tt
      → sent (run kernel (queue_all n pid sig value) s).calls ≡ numbered n pid sig value
  unfolding queue_all run
  queue_all-sent zero pid sig value s e = refl
  queue_all-sent (suc n) pid sig value s e =
      elim (Option-cases (kernel (sigqueue pid sig value) s).0) [
        | inl e1 ↦ absurd (ground (arith, e, e1))
        | inr (a, e1) ↦ ground (
          arith,
          e,
          e1,
          queue_all-sent n pid sig (value + 1) (kernel (sigqueue pid sig value) s).1,
        )
      ]

  module _ (atoi : Bytes → ℕ) (argv : List Bytes) where
    -- Where rt_signal.c returns, it has sent the signal as often as it was asked to, once where it was
    -- not, to the one process, with the numbers from data on in order.
    pub rt_signal-sent :
        (s : K)
        → (run kernel (rt_signal atoi argv) s).ended ≡ returned 0
        → sent (run kernel (rt_signal atoi argv) s).calls
          ≡ numbered
              (rounds_of atoi argv)
              (atoi (get_or argv 1 []))
              (atoi (get_or argv 2 []))
              (atoi (get_or argv 3 []))
    unfolding rt_signal run
    rt_signal-sent s e = elim (Bool-cases (wants_usage argv)) [
      | inl e1 ↦ absurd (ground (arith, e, e1))
      | inr e1 ↦
          let pid = (kernel getpid s).0 in
          let s1 = (kernel getpid s).1 in
          let uid = (kernel getuid s1).0 in
          let s2 = (kernel getuid s1).1 in
          let s3 = (kernel (fprintf stdout (greeting argv pid uid)) s2).1 in
          let q =
            queue_all (rounds_of atoi argv) (atoi (get_or argv 1 [])) (atoi (get_or argv 2 []))
              (atoi (get_or argv 3 [])) in
          let (a, b, c, d) =
            run->>=-returned kernel {B = ℕ} q (λ u. ret 0) s3 {b = 0} (ground (arith, e, e1)) in
          ground (
            arith,
            e1,
            d,
            append-nil (run kernel q s3).calls,
            queue_all-sent (rounds_of atoi argv) (atoi (get_or argv 1 [])) (atoi (get_or argv 2 []))
                (atoi (get_or argv 3 [])) s3 b,
          )
    ]

    -- Where sig_sender.c returns, it has sent the signal as often as it was asked to, and then the
    -- second signal once if there is one.
    pub sig_sender-sent :
        (s : K)
        → (run kernel (sig_sender atoi argv) s).ended ≡ returned 0
        → sent (run kernel (sig_sender atoi argv) s).calls
          ≡ times (atoi (get_or argv 2 [])) (atoi (get_or argv 1 []), atoi (get_or argv 3 []), 0)
            ++ (if ltb 4 (length argv)
                then (atoi (get_or argv 1 []), atoi (get_or argv 4 []), 0) ∷ []
                else [])
    unfolding sig_sender send_last run
    sig_sender-sent s e = elim (Bool-cases (wants_usage argv)) [
      | inl e1 ↦ absurd (ground (arith, e, e1))
      | inr e1 ↦
          let pid = atoi (get_or argv 1 []) in
          let sig = atoi (get_or argv 3 []) in
          let n = atoi (get_or argv 2 []) in
          let s1 = (kernel (fprintf stdout (announcement argv sig pid n)) s).1 in
          let p = send_all n pid sig in
          let (a, b, c, d) =
            run->>=-returned kernel {B = ℕ} p (λ u. send_last atoi argv pid >> ret 0) s1 {b = 0}
              (ground (arith, e, e1)) in
          let s2 = (run kernel p s1).after in
          elim (Bool-cases (ltb 4 (length argv))) [
            | inl e2 ↦ elim (Option-cases (kernel (kill pid (atoi (get_or argv 4 []))) s2).0) [
              | inl e3 ↦ absurd (ground (arith, c, e2, e3))
              | inr (r, e3) ↦ ground (
                arith,
                e1,
                e2,
                e3,
                d,
                send_all-sent n pid sig s1 b,
                sent-append (run kernel p s1).calls (kill pid (atoi (get_or argv 4 [])) ∷ []),
              )
            ]
            | inr e2 ↦ ground (
              arith,
              e1,
              e2,
              d,
              send_all-sent n pid sig s1 b,
              append-nil (run kernel p s1).calls,
              append-nil (times n (pid, sig, 0)),
            )
          ]
    ]
