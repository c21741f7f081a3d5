-- ===== src/Signals/Exchange.antt =====
-- signal/rt_signal.c and signal/rt_sig_recv.c together.
use unix_demos.Base.{
  ℕ, zero, suc, ◌+◌, ◌<◌, ◌≡◌, refl, ap, ◌∙◌, true, List, [], ◌∷◌, map, get_or, arith, append-nil,
}
use unix_demos.Os.{Bytes, SigInfo, si_queue}
use unix_demos.Os.Run.{Kernel, returned, run}
use unix_demos.Signals.Delivery.{realtime}
use unix_demos.Signals.Realtime.{queued_as, receive_blocking}
use unix_demos.Signals.Queue.{all_handled, receive_blocking-queued_as}
use unix_demos.Signals.Sender.{rt_signal, rounds_of}
use unix_demos.Signals.Sender.Sent.{sent, numbered, rt_signal-sent}

-- What comes with the signals that sigqueue sends.
abbrev pub infos : (from uid : ℕ) → List (ℕ × ℕ × ℕ) → List SigInfo
infos from uid [] = []
infos from uid ((pid, sig, value) ∷ xs) =
    record { si_signo = sig; si_code = si_queue; si_value = value; si_pid = from; si_uid = uid }
    ∷ infos from uid xs

abbrev pub count_up : (n value : ℕ) → List ℕ
count_up zero value = []
count_up (suc n) value = value ∷ count_up n (value + 1)

numbered-all_handled :
    (n from uid pid sig value : ℕ)
    → realtime sig ≡ true
    → sig < 65
    → all_handled (infos from uid (numbered n pid sig value)) ≡ true
numbered-all_handled zero from uid pid sig value real small = refl
numbered-all_handled (suc n) from uid pid sig value real small =
    ground (arith, real, small, numbered-all_handled n from uid pid sig (value + 1) real small)

numbered-values :
    (n from uid pid sig value : ℕ)
    → map (λ si. si.si_value) (queued_as sig (infos from uid (numbered n pid sig value)))
      ≡ count_up n value
numbered-values zero from uid pid sig value = refl
numbered-values (suc n) from uid pid sig value =
    ground (arith, numbered-values n from uid pid sig (value + 1))

-- If rt_signal.c sends a real-time signal to rt_sig_recv.c while that sleeps with the signal
-- blocked, and returns, then the receiver gets as many of the signal as were asked for, with
-- the numbers from data on in order.
pub rt_signal-caught :
    {K : Type 0} (kernel : Kernel K) (atoi : Bytes → ℕ) (argv : List Bytes) (s : K) (from uid : ℕ)
    → let sig = atoi (get_or argv 2 []) in
      realtime sig ≡ true
      → sig < 65
      → (run kernel (rt_signal atoi argv) s).ended ≡ returned 0
      → map
          (λ si. si.si_value)
          (queued_as sig
            (receive_blocking
              (infos from uid (sent (run kernel (rt_signal atoi argv) s).calls))
              []).caught)
        ≡ count_up (rounds_of atoi argv) (atoi (get_or argv 3 []))
rt_signal-caught kernel atoi argv s from uid real small e =
    let sig = atoi (get_or argv 2 []) in
    let n = rounds_of atoi argv in
    let pid = atoi (get_or argv 1 []) in
    let value = atoi (get_or argv 3 []) in
    let sis = infos from uid (numbered n pid sig value) in
    rw (rt_signal-sent kernel atoi argv s e) (
      ap (map (λ si. si.si_value)) (
        receive_blocking-queued_as sig sis [] real small
          (numbered-all_handled n from uid pid sig value real small) refl
        ∙ append-nil (queued_as sig sis))
      ∙ numbered-values n from uid pid sig value)
