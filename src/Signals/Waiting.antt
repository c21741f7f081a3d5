-- ===== src/Signals/Waiting.antt =====
-- Programs that wait for signals: signal/sig_waitinfo.c, signal/sig_user.c and signal/sigaltstack.c.
use unix_demos.Base.{
  num, ℕ, zero, suc, ◌+◌, ◌-◌, ◌<◌, ◌≡◌, subst, sym, refl, Bool, true, false, not, ◌&&◌, some, List,
  [], ◌∷◌, ◌++◌, ◌==◌, ltb, if◌then◌else◌, length, get_or, codes, arith,
}
use unix_demos.Os.{
  Bytes, SigInfo, sigfillset, catch, getpid, sigaction, signal, sigmask, sigwaitinfo, sigaltstack,
  sig_setmask, sleep, pause, malloc, fflush, fprintf, stdout, Prog, exit, ◌>>=◌, ◌>>◌, sys, skip,
  or_exit, exit_failure,
}
use unix_demos.Os.Run.{Kernel, Ended, exited, run, Answers, Reply, Makes, Makes-invoke}
use unix_demos.Signals.{sigsegv, sigusr1, sigusr2}
use unix_demos.Signals.Realtime.{code_text, is_final}

-- `if (call == -1) { perror(…); exit(-1); }`, for a call that is false where it fails.
abbrev pub must : Bool → Prog (Unit {0})
must ok = if ok then skip else exit_failure

abbrev pub spaces : ℕ → Bytes
spaces zero = []
spaces (suc n) = b' ' ∷ spaces n

-- A text in a field of this width.
abbrev pub pad : (width : ℕ) → Bytes → Bytes
pad width text = spaces (width - length text) ++ text

abbrev pub print : Bytes → Prog (Unit {0})
print text = sys (fprintf stdout text)

module _ (strsignal : ℕ → Bytes) where
  abbrev pub signal_line : SigInfo → Bytes
  signal_line si =
      codes "got signal "
      ++ (num si.si_signo ++ (codes " (" ++ (strsignal si.si_signo ++ codes ")\n")))

  abbrev pub info_line : SigInfo → Bytes
  info_line si =
      codes "\t\tsi_signo = "
      ++ (num si.si_signo
          ++ (codes ", si_code = "
              ++ (code_text si.si_code
                  ++ (codes ", si_value = " ++ (num si.si_value ++ codes ", ")))))

  abbrev pub sender_line : SigInfo → Bytes
  sender_line si =
      codes "si_pid = " ++ (num si.si_pid ++ (codes ", si_uid = " ++ (num si.si_uid ++ codes "\n")))

  -- The lines for a signal.
  abbrev pub got_signal : SigInfo → Prog (Unit {0})
  got_signal si = print (signal_line si) >> print (info_line si) >> print (sender_line si)

  -- `for (;;)`, `n` rounds of it. `sigwaitinfo` answers with the number of the signal.
  unfoldable pub wait_loop : (n : ℕ) → Prog (Unit {0})
  wait_loop zero = skip
  wait_loop (suc n) = do
    got ← sys sigwaitinfo
    si ← or_exit 255 got
    if is_final si.si_signo
        then print (codes "terminating\n") >> exit 0
        else got_signal si >> wait_loop n

  unfoldable pub sig_waitinfo : (atoi : Bytes → ℕ) → (n : ℕ) → (argv : List Bytes) → Prog (Unit {0})
  unfolding wait_loop
  sig_waitinfo atoi n argv = do
    pid ← sys getpid
    print (get_or argv 0 [] ++ (codes ": PID is " ++ (num pid ++ codes "\n")))
    changed ← sys (sigmask sig_setmask (some sigfillset))
    or_exit 255 changed
    print (get_or argv 0 [] ++ codes ": all signal blocked\n")
    if ltb 1 (length argv)
        then (do
          print (
              get_or argv 0 []
              ++ (codes ": about to delay " ++ (get_or argv 1 [] ++ codes " seconds\n")))
          sys (sleep (atoi (get_or argv 1 [])))
          print (get_or argv 0 [] ++ codes ": finished delay\n"))
        else skip
    wait_loop n

  -- signal/sigaltstack.c: the handler, on its own stack. `near` is the text of the address that is
  -- printed.
  unfoldable pub sigsegv_handler : (near : Bytes) → (signo : ℕ) → Prog (Unit {0})
  sigsegv_handler near signo = do
    print
        (codes "Caught signal " ++ (num signo ++ (codes " (" ++ (strsignal signo ++ codes ")\n"))))
    print (codes "Top of handler stack near    " ++ (near ++ codes "\n"))
    sys (fflush 0)
    exit 1

  -- `overflowStack`, with a stack for `frames` more calls: then comes SIGSEGV.
  unfoldable pub overflow_stack : (near : ℕ → Bytes) → (frames call_num : ℕ) → Prog (Unit {0})
  unfolding sigsegv_handler
  overflow_stack near zero call_num = sigsegv_handler (near 0) sigsegv
  overflow_stack near (suc frames) call_num = do
    print (
        codes "Call "
        ++ (pad 4 (num call_num)
            ++ (codes " - top of stack near " ++ (near call_num ++ codes "\n"))))
    overflow_stack near frames (call_num + 1)

  unfoldable pub altstack_main :
      (sigstksz : ℕ) → (near : ℕ → Bytes) → (frames : ℕ) → Prog (Unit {0})
  unfolding overflow_stack
  altstack_main sigstksz near frames = do
    print (codes "Top of standard stack near    " ++ (near 0 ++ codes "\n"))
    p ← sys (malloc sigstksz)
    ss_sp ← or_exit 255 p
    r ← sys (sigaltstack ss_sp sigstksz)
    or_exit 255 r
    ok ← sys (sigaction sigsegv (catch 0))
    must ok
    overflow_stack near frames 1

-- signal/sig_user.c
unfoldable pub sig_user : (signo : ℕ) → Prog (Unit {0})
sig_user signo =
    if signo == sigusr1
    then print (codes "received SIGUSR1\n")
    else if signo == sigusr2
    then print (codes "received SIGUSR2\n")
    else print (codes "received signal " ++ (num signo ++ codes "\n"))

abbrev pub pauses : (n : ℕ) → Prog (Unit {0})
pauses zero = skip
pauses (suc n) = sys pause >> pauses n

-- `main`, whose endless loop makes `n` rounds.
unfoldable pub sig_user_main : (n : ℕ) → Prog (Unit {0})
sig_user_main n = do
  ok1 ← sys (signal sigusr1 (catch 0))
  must ok1
  ok2 ← sys (signal sigusr2 (catch 0))
  must ok2
  pauses n

module _ (strsignal : ℕ → Bytes) where
  -- A signal that `sigwaitinfo` answers and the lines for it.
  abbrev pub got : SigInfo → List Reply → List Reply
  got si rest =
      (sigwaitinfo, some si)
      ∷ (fprintf stdout (signal_line strsignal si), tt)
      ∷ (fprintf stdout (info_line strsignal si), tt)
      ∷ (fprintf stdout (sender_line strsignal si), tt)
      ∷ rest

  -- These signals, and then one that ends the program.
  abbrev pub heard_replies : List SigInfo → SigInfo → List Reply
  heard_replies [] final =
      (sigwaitinfo, some final) ∷ (fprintf stdout (codes "terminating\n"), tt) ∷ []
  heard_replies (si ∷ sis) final = got si (heard_replies sis final)

  abbrev pub none_final : List SigInfo → Bool
  none_final [] = true
  none_final (si ∷ sis) = not (is_final si.si_signo) && none_final sis

module _ (strsignal : ℕ → Bytes) {K : Type 0} (kernel : Kernel K) where
  -- Whatever the calls answer, the stack overflows into the handler, which ends the program with status 1,
  -- whatever the room.
  overflow_stack-exited :
      (near : ℕ → Bytes) (frames call_num : ℕ) (s : K)
      → (run kernel (overflow_stack strsignal near frames call_num) s).ended ≡ exited 1
  unfolding overflow_stack sigsegv_handler run
  overflow_stack-exited near zero call_num s = refl
  overflow_stack-exited near (suc frames) call_num s =
      overflow_stack-exited near frames (call_num + 1) (kernel (fprintf stdout _) s).1

  choose :
      {b : Bool} (p q : Prog (Unit {0})) {s : K} {rs : List Reply} {e : Ended (Unit {0})} (c : Bool)
      → b ≡ c
      → Makes kernel (if c then p else q) s rs e
      → Makes kernel (if b then p else q) s rs e
  choose p q {s} {rs} {e} c b m = subst (λ b. Makes kernel (if b then p else q) s rs e) (sym b) m

  -- If sigwaitinfo gives some signals, none of them SIGINT or SIGTERM, and then one of the two,
  -- and there are rounds enough for them, then sig_waitinfo.c prints three lines for each of
  -- the first ones, as they came, and the last one ends the program with status 0.
  pub wait_loop-heard :
      (sis : List SigInfo) (final : SigInfo) (n : ℕ) (s : K)
      → length sis < n
      → none_final strsignal sis ≡ true
      → is_final final.si_signo ≡ true
      → Answers kernel s (heard_replies strsignal sis final)
      → Makes kernel (wait_loop strsignal n) s (heard_replies strsignal sis final) (exited 0)
  unfolding wait_loop run
  wait_loop-heard [] final zero s room clean last a = absurd (omega (arith, room))
  wait_loop-heard [] final (suc n) s room clean last (a, (b, u)) = Makes-invoke kernel a (
      choose {b = is_final final.si_signo} _ _ true last
        (Makes-invoke kernel b (record { ended = refl; calls = refl; after = refl })))
  wait_loop-heard (si ∷ sis) final zero s room clean last a = absurd (omega (arith, room))
  wait_loop-heard (si ∷ sis) final (suc n) s room clean last (a, (b, (c, (d, rest)))) =
      Makes-invoke kernel a (
        choose {b = is_final si.si_signo} _ _ false (ground (arith, clean)) (
          Makes-invoke kernel b (
            Makes-invoke kernel c (
              Makes-invoke kernel d (
                wait_loop-heard sis final n _ (omega (arith, room)) (ground (arith, clean)) last
                  rest)))))
