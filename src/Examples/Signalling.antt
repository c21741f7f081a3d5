-- ===== src/Examples/Signalling.antt =====
-- The theorems on the programs of signal/ at concrete inputs.
use unix_demos.Base.{
  ℕ, false, ltb, ◌<◌, ◌≤◌, ◌⊎◌, ◌+◌, ◌-◌, ◌*◌, ◌≡◌, ◌≢◌, refl, true, List, [], ◌∷◌, ◌++◌, map,
  length, codes, arith,
}
use unix_demos.Os.{Bytes, SigInfo, si_queue}
use unix_demos.Os.Run.{run}
use unix_demos.Examples.Kernels.{plain}
use unix_demos.Signals.Delivery.{realtime, count}
use unix_demos.Signals.Receiver.{Event, handled, sig_handler, step, events, receive}
use unix_demos.Signals.Receiver.Counting.{sends, first, receive-sig_cnt}
use unix_demos.Signals.Realtime.{queued_as, receive_blocking}
use unix_demos.Signals.Queue.{receive_blocking-queued_as}
use unix_demos.Signals.Sender.{rt_signal}
use unix_demos.Signals.Sender.Sent.{sent}
use unix_demos.Signals.Exchange.{infos, rt_signal-caught}
use unix_demos.Signals.Suspend.{loop, start}
use unix_demos.Signals.Suspend.Loop.{start-heard}
use unix_demos.Signals.Reentrant.{Round, compare_loop, at_start, compare_loop-mismatched}

-- A decimal number.
abbrev digits : ℕ → Bytes → ℕ
digits n [] = n
digits n (c ∷ cs) = digits (n * 10 + (c - 48)) cs

abbrev argv : List Bytes
argv = codes "rt_signal" ∷ codes "42" ∷ codes "34" ∷ codes "7" ∷ codes "3" ∷ []

rt_signal-caught_example :
    map
      (λ si. si.si_value)
      (queued_as 34
        (receive_blocking
          (infos 9 0 (sent (run plain (rt_signal (digits 0) argv) tt).calls))
          []).caught)
    ≡ 7 ∷ 8 ∷ 9 ∷ []
unfolding run rt_signal
rt_signal-caught_example = rt_signal-caught plain (digits 0) argv tt 9 0 refl (omega arith) refl

abbrev info : (sig value : ℕ) → SigInfo
info sig value = record {
  si_signo = sig;
  si_code = si_queue;
  si_value = value;
  si_pid = 9;
  si_uid = 0;
}

receive_blocking-queued_as_example :
    queued_as 40 (receive_blocking (info 40 1 ∷ info 12 0 ∷ info 40 2 ∷ []) (info 40 3 ∷ [])).caught
    ≡ info 40 1 ∷ info 40 2 ∷ info 40 3 ∷ []
receive_blocking-queued_as_example =
    receive_blocking-queued_as 40 (info 40 1 ∷ info 12 0 ∷ info 40 2 ∷ []) (info 40 3 ∷ []) refl
      (omega arith) refl refl

other : {n : ℕ} → n ≡ 10 → n ≢ 2
other e e' = absurd (omega (arith, e, e'))

abbrev asleep : List Event
asleep = Event.sent 10 ∷ Event.sent 10 ∷ Event.sent 35 ∷ Event.sent 35 ∷ []

-- Of three SIGUSR1 in the loop, two coalesce.
abbrev looping : List Event
looping =
    handled 10
    ∷ Event.sent 10
    ∷ Event.sent 10
    ∷ handled 10
    ∷ Event.sent 10
    ∷ Event.sent 2
    ∷ handled 10
    ∷ handled 2
    ∷ []

counted_three : (receive true asleep looping).user.sig_cnt 10 ≡ 3
unfolding receive events step sig_handler
counted_three = refl

interrupted : (receive true asleep looping).user.got_sigint ≡ true
unfolding receive events step sig_handler
interrupted = refl

receive-sig_cnt_example :
    let p = receive true asleep looping in
    (0 < count 2 (sends asleep) + count 2 (sends looping))
    × (((realtime 10 ≡ true)
          × (p.user.sig_cnt 10 + p.pending 10 ≡ first 10 asleep + count 10 (sends looping)))
        ⊎ ((realtime 10 ≡ false)
            × (p.user.sig_cnt 10 + p.pending 10 ≤ first 10 asleep + count 10 (sends looping))
            × (ltb 0 (p.user.sig_cnt 10 + p.pending 10)
                ≡ ltb 0 (first 10 asleep + count 10 (sends looping)))))
receive-sig_cnt_example = receive-sig_cnt asleep looping 10 (other refl) interrupted

start-heard_example :
    ((loop ((2 ∷ 2 ∷ [], 2) ∷ ([], 2) ∷ (3 ∷ [], 2) ∷ ([], 2) ∷ []) start).0 ≡ 3)
    × ((loop ((2 ∷ 2 ∷ [], 2) ∷ ([], 2) ∷ (3 ∷ [], 2) ∷ ([], 2) ∷ []) start).1.user.caught 2 ≡ 2)
start-heard_example =
    start-heard ((2 ∷ 2 ∷ [], 2) ∷ ([], 2) ∷ (3 ∷ [], 2) ∷ ([], 2) ∷ []) 2 refl refl

-- The key stands for its encryption.
abbrev crypt : Bytes → Bytes → Bytes
crypt key salt = key ++ salt

abbrev rounds : List Round
rounds = record { before = 1; between = 0 } ∷ record { before = 0; between = 2 } ∷ []

compare_loop-mismatched_example :
    let u =
      compare_loop crypt (codes "a") (codes "b") rounds (at_start crypt (codes "a") (codes "b")) in
    (u.mismatched ≡ 1) × (length u.printed ≡ 1) × (u.handled ≡ 3)
compare_loop-mismatched_example = compare_loop-mismatched crypt (codes "a") (codes "b") refl rounds
