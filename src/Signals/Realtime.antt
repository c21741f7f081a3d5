-- ===== src/Signals/Realtime.antt =====
-- signal/rt_sig_recv.c: signals that come with a number. What comes while it is blocked is queued, a
-- standard signal once and a real-time one as often as it is sent, with its numbers in order; a change
-- of the mask delivers what is queued and no longer blocked, the lowest signal first.
use unix_demos.Base.{
  num, ℕ, zero, suc, ◌+◌, Bool, true, false, not, ◌&&◌, ◌||◌, none, some, List, [], ◌∷◌, ◌++◌, ◌==◌,
  ltb, if◌then◌else◌, length, get_or, get_elem?, codes,
}
use unix_demos.Os.{
  Bytes, SigSet, sigemptyset, sigfillset, sigdelset, SigInfo, SiCode, si_user, si_queue, si_other,
  catch, getpid, sigaction, sigmask, sig_setmask, sleep, fprintf, stdout, Prog, ret, fault, ◌>>=◌,
  ◌>>◌, sys, skip, or_exit,
}
use unix_demos.Signals.{sigint, sigterm, sigtstp, sigquit}
use unix_demos.Signals.Delivery.{realtime}

-- The mask and what is queued, `sigCnt` and `allDone`, and what was printed.
pub record Receiver : Type 0 where
  pub mask : SigSet
  pub queued : List SigInfo
  pub sig_cnt : ℕ
  pub all_done : Bool
  pub caught : List SigInfo

-- `%d (%s)`
abbrev pub code_text : SiCode → Bytes
code_text si_user = codes "0 (SI_USER)"
code_text si_queue = codes "-1 (SI_QUEUE)"
code_text (si_other printed) = printed ++ codes " (other)"

abbrev pub is_final : ℕ → Bool
is_final sig = sig == sigint || sig == sigterm

unfoldable pub siginfo_handler : SigInfo → Receiver → Receiver
siginfo_handler si r =
    if is_final si.si_signo
    then record r { all_done = true }
    else record r { sig_cnt = r.sig_cnt + 1; caught = r.caught ++ si ∷ [] }

abbrev pub handle_all : List SigInfo → Receiver → Receiver
handle_all [] r = r
handle_all (si ∷ sis) r = handle_all sis (siginfo_handler si r)

abbrev pub is_queued : ℕ → List SigInfo → Bool
is_queued sig [] = false
is_queued sig (si ∷ sis) = si.si_signo == sig || is_queued sig sis

-- The queued signals of one number, in order.
abbrev pub queued_as : ℕ → List SigInfo → List SigInfo
queued_as sig [] = []
queued_as sig (si ∷ sis) = if si.si_signo == sig then si ∷ queued_as sig sis else queued_as sig sis

abbrev pub still_blocked : SigSet → List SigInfo → List SigInfo
still_blocked mask [] = []
still_blocked mask (si ∷ sis) =
    if mask si.si_signo then si ∷ still_blocked mask sis else still_blocked mask sis

-- A signal is sent to the program.
unfoldable pub arrive : SigInfo → Receiver → Receiver
unfolding siginfo_handler
arrive si r =
    if r.mask si.si_signo
    then (if realtime si.si_signo || not (is_queued si.si_signo r.queued)
        then record r { queued = r.queued ++ si ∷ [] }
        else r)
    else siginfo_handler si r

abbrev pub arrive_all : List SigInfo → Receiver → Receiver
arrive_all [] r = r
arrive_all (si ∷ sis) r = arrive_all sis (arrive si r)

-- The deliveries from `sig` on, among `n` signals.
abbrev pub deliver_queued : (n sig : ℕ) → SigSet → List SigInfo → Receiver → Receiver
deliver_queued zero sig mask queued r = r
deliver_queued (suc n) sig mask queued r =
    deliver_queued n (sig + 1) mask queued
      (if mask sig then r else handle_all (queued_as sig queued) r)

unfoldable pub change_mask : SigSet → Receiver → Receiver
unfolding siginfo_handler
change_mask mask r =
    let r' = deliver_queued 64 1 mask r.queued r in
    record r' { mask = mask; queued = still_blocked mask r.queued }

-- `blockMask`
abbrev pub block_mask : SigSet
block_mask = sigdelset (sigdelset sigfillset sigint) sigterm

abbrev pub before : Receiver
before = record { mask = sigemptyset; queued = []; sig_cnt = 0; all_done = false; caught = [] }

-- `while (!allDone) pause();`, while these signals come.
abbrev pub pause_loop : List SigInfo → Receiver → Receiver
pause_loop [] r = r
pause_loop (si ∷ sis) r = let rest = pause_loop sis (arrive si r) in if r.all_done then r else rest

-- What the program gets, with an argument: the first signals come while it sleeps, the second ones
-- while it pauses.
unfoldable pub receive_blocking : (during after : List SigInfo) → Receiver
unfolding arrive change_mask
receive_blocking during after =
    pause_loop after (change_mask sigemptyset (arrive_all during (change_mask block_mask before)))

-- What the handler prints, and how long it sleeps.
unfoldable pub siginfo_report : (handler_sleep_time : ℕ) → SigInfo → Prog (Unit {0})
siginfo_report handler_sleep_time si = do
  sys (fprintf stdout (codes "Caught signal " ++ (num si.si_signo ++ codes "\n")))
  sys (
      fprintf stdout (
        codes "\tsi_signo = "
        ++ (num si.si_signo ++ (codes ", si_code = " ++ (code_text si.si_code ++ codes ", ")))))
  sys (fprintf stdout (codes "si_value = " ++ (num si.si_value ++ codes "\n")))
  sys (
      fprintf stdout (
        codes "\tsi_pid = "
        ++ (num si.si_pid ++ (codes ", si_uid = " ++ (num si.si_uid ++ codes "\n")))))
  sys (sleep handler_sleep_time)

-- `for (sig = 1; sig<NSIG; sig++)` from `sig` on, `n` rounds of it.
unfoldable pub catch_all : (n sig : ℕ) → Prog (Unit {0})
catch_all zero sig = skip
catch_all (suc n) sig =
    if not (sig == sigtstp) && not (sig == sigquit)
    then sys (sigaction sig (catch 0)) >> catch_all n (sig + 1)
    else catch_all n (sig + 1)

module _ (atoi : Bytes → ℕ) where
  -- `main` up to its last loop: the mask is set and given back round the sleep, if there is an argument.
  unfoldable pub sleep_blocked : (argv : List Bytes) → Prog (Unit {0})
  sleep_blocked argv =
      if ltb 1 (length argv)
      then (do
        changed ← sys (sigmask sig_setmask (some block_mask))
        prev_mask ← or_exit 255 changed
        sys (
            fprintf stdout (
              get_or argv 0 []
              ++ (codes ": signals blocked - sleeping "
                  ++ (get_or argv 1 [] ++ codes " seconds\n"))))
        sys (sleep (atoi (get_or argv 1 [])))
        sys (fprintf stdout (get_or argv 0 [] ++ codes ": sleep complete\n"))
        changed' ← sys (sigmask sig_setmask (some prev_mask))
        or_exit 255 changed'
        skip)
      else skip

  -- `atoi(argv[2])` reads no argument where there is none.
  unfoldable pub prepare : (argv : List Bytes) → Prog ℕ
  unfolding catch_all sleep_blocked
  prepare argv = do
    pid ← sys getpid
    sys (fprintf stdout (get_or argv 0 [] ++ (codes ": PID is " ++ (num pid ++ codes "\n"))))
    handler_sleep_time ← elim (get_elem? argv 2) [ some text ↦ ret (atoi text) | none ↦ fault ]
    catch_all 64 1
    sleep_blocked argv
    ret handler_sleep_time
