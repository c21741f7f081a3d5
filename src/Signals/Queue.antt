-- ===== src/Signals/Queue.antt =====
-- What the receiver of signal/rt_sig_recv.c gets of the real-time signals that are sent to it.
use unix_demos.Base.{
  ℕ, zero, suc, ◌+◌, ◌<◌, ◌≡◌, refl, Bool, true, false, not, ◌&&◌, ◌||◌, List, [], ◌∷◌, ◌++◌, ◌==◌,
  ltb, leb, if◌then◌else◌, arith, inl, inr, Bool-cases, append-nil, append_assoc,
}
use unix_demos.Os.{SigSet, sigemptyset, SigInfo}
use unix_demos.Signals.{sigtstp, sigquit}
use unix_demos.Signals.Delivery.{realtime, catchable}
use unix_demos.Signals.Realtime.{
  Receiver, is_final, siginfo_handler, handle_all, queued_as, arrive, arrive_all, deliver_queued,
  change_mask, block_mask, before, pause_loop, receive_blocking,
}

-- Signals for which the handler is set, and which do not end the program.
abbrev pub is_handled : ℕ → Bool
is_handled sig = catchable sig && (not (is_final sig) && not (sig == sigtstp || sig == sigquit))

abbrev pub all_handled : List SigInfo → Bool
all_handled [] = true
all_handled (si ∷ sis) = is_handled si.si_signo && all_handled sis

queued_as-append :
    (x : ℕ) (sis tis : List SigInfo) → queued_as x (sis ++ tis) ≡ queued_as x sis ++ queued_as x tis
queued_as-append x [] tis = refl
queued_as-append x (si ∷ sis) tis = ground (arith, queued_as-append x sis tis)

siginfo_handler-queued_as :
    (x : ℕ) (si : SigInfo) (r : Receiver)
    → is_final si.si_signo ≡ false
    → queued_as x (siginfo_handler si r).caught ≡ queued_as x r.caught ++ queued_as x (si ∷ [])
unfolding siginfo_handler
siginfo_handler-queued_as x si r e = ground (arith, e, queued_as-append x r.caught (si ∷ []))

all_handled-append :
    (sis tis : List SigInfo) → all_handled (sis ++ tis) ≡ (all_handled sis && all_handled tis)
all_handled-append [] tis = refl
all_handled-append (si ∷ sis) tis = ground (arith, all_handled-append sis tis)

-- While it is blocked, a real-time signal is queued behind the others.
arrive_all-queued :
    (x : ℕ) (sis : List SigInfo) (r : Receiver)
    → realtime x ≡ true
    → ((m : ℕ) → is_handled m ≡ true → r.mask m ≡ true)
    → all_handled r.queued ≡ true
    → all_handled sis ≡ true
    → let r' = arrive_all sis r in
      (r'.caught ≡ r.caught)
      × (r'.all_done ≡ r.all_done)
      × (all_handled r'.queued ≡ true)
      × (queued_as x r'.queued ≡ queued_as x r.queued ++ queued_as x sis)
unfolding arrive siginfo_handler
arrive_all-queued x [] r real e q all =
    (refl, refl, q, ground (arith, append-nil (queued_as x r.queued)))
arrive_all-queued x (si ∷ sis) r real e q all =
    let sig = si.si_signo in
    let h : is_handled sig ≡ true = ground (arith, all) in
    let (a, b, c, d) =
      arrive_all-queued x sis (arrive si r) real (λ m h'. ground (arith, e m h', e sig h))
        (ground (arith, e sig h, q, h, all_handled-append r.queued (si ∷ [])))
        (ground (arith, all)) in
    (
      ground (arith, e sig h, a),
      ground (arith, e sig h, b),
      c,
      ground (
        arith,
        e sig h,
        d,
        real,
        queued_as-append x r.queued (si ∷ []),
        append_assoc (queued_as x r.queued) (queued_as x (si ∷ [])) (queued_as x sis),
      ),
    )

handle_all-queued_as :
    (x y : ℕ) (q : List SigInfo) (r : Receiver)
    → all_handled q ≡ true
    → let r' = handle_all (queued_as y q) r in
      (r'.all_done ≡ r.all_done)
      × (queued_as x r'.caught ≡ queued_as x r.caught ++ (if x == y then queued_as x q else []))
unfolding siginfo_handler
handle_all-queued_as x y [] r all = (refl, ground (arith, append-nil (queued_as x r.caught)))
handle_all-queued_as x y (si ∷ q) r all = elim (Bool-cases (si.si_signo == y)) [
  | inl e ↦
      let (a, b) = handle_all-queued_as x y q (siginfo_handler si r) (ground (arith, all)) in
      (
        ground (arith, e, a, all),
        ground (
          arith,
          e,
          b,
          all,
          siginfo_handler-queued_as x si r,
          append-nil (queued_as x r.caught),
          append_assoc (queued_as x r.caught) (queued_as x (si ∷ [])) (queued_as x q),
        ),
      )
  | inr e ↦
      let (a, b) = handle_all-queued_as x y q r (ground (arith, all)) in
      (ground (arith, e, a), ground (arith, e, b))
]

deliver_queued-queued_as :
    (x n sig : ℕ) (mask : SigSet) (q : List SigInfo) (r : Receiver)
    → all_handled q ≡ true
    → let r' = deliver_queued n sig mask q r in
      (r'.all_done ≡ r.all_done)
      × (queued_as x r'.caught
          ≡ queued_as x r.caught
            ++ (if leb sig x && (ltb x (sig + n) && not (mask x)) then queued_as x q else []))
deliver_queued-queued_as x zero sig mask q r all =
    (refl, ground (arith, append-nil (queued_as x r.caught)))
deliver_queued-queued_as x (suc n) sig mask q r all = elim (Bool-cases (mask sig)) [
  | inl e ↦
      let (a, b) = deliver_queued-queued_as x n (sig + 1) mask q r all in
      (ground (arith, e, a), ground (arith, e, b))
  | inr e ↦
      let (c, d) = handle_all-queued_as x sig q r all in
      let (a, b) =
        deliver_queued-queued_as x n (sig + 1) mask q (handle_all (queued_as sig q) r) all in
      (
        ground (arith, e, a, c),
        ground (
          arith,
          e,
          b,
          d,
          append-nil (queued_as x r.caught),
          append-nil (queued_as x r.caught ++ queued_as x q),
        ),
      )
]

pause_loop-queued_as :
    (x : ℕ) (sis : List SigInfo) (r : Receiver)
    → ((m : ℕ) → r.mask m ≡ false)
    → r.all_done ≡ false
    → all_handled sis ≡ true
    → queued_as x (pause_loop sis r).caught ≡ queued_as x r.caught ++ queued_as x sis
unfolding arrive siginfo_handler
pause_loop-queued_as x [] r unmasked e all = ground (arith, append-nil (queued_as x r.caught))
pause_loop-queued_as x (si ∷ sis) r unmasked e all = ground (
  arith,
  e,
  unmasked si.si_signo,
  all,
  siginfo_handler-queued_as x si r,
  pause_loop-queued_as x sis (arrive si r) (λ m. ground (arith, unmasked m, unmasked si.si_signo)),
  append_assoc (queued_as x r.caught) (queued_as x (si ∷ [])) (queued_as x sis),
)

-- The signals of a real-time number are caught all and in order, with the numbers that came
-- with them: those that came while they were blocked, then the others, if all that is sent is
-- handled and none of it ends the program.
pub receive_blocking-queued_as :
    (x : ℕ) (during after : List SigInfo)
    → realtime x ≡ true
    → x < 65
    → all_handled during ≡ true
    → all_handled after ≡ true
    → queued_as x (receive_blocking during after).caught ≡ queued_as x during ++ queued_as x after
unfolding receive_blocking change_mask
receive_blocking-queued_as x during after real small all all' =
    let r0 = change_mask block_mask before in
    let (e, f) = deliver_queued-queued_as x 64 1 block_mask [] before refl in
    let (a, b, c, d) = arrive_all-queued x during r0 real (λ m h. ground (arith, h)) refl all in
    let r1 = arrive_all during r0 in
    let (g, h) = deliver_queued-queued_as x 64 1 sigemptyset r1.queued r1 c in
    ground (
      arith,
      real,
      small,
      a,
      b,
      d,
      e,
      f,
      g,
      h,
      pause_loop-queued_as x after (change_mask sigemptyset r1) (λ m. refl),
    )
