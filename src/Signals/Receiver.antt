-- ===== src/Signals/Receiver.antt =====
-- signal/sig_receiver.c: each signal is counted, until SIGINT ends the program. The handlers run
-- whenever the system lets them: a schedule says when a signal is sent, and when a pending one is
-- handled. While a standard signal waits for its handler, also because the handler still runs for
-- an earlier one, further ones of it coalesce. The signals are those that can be caught.
pub mod Counting
use unix_demos.Base.{
  ℕ, zero, suc, ◌+◌, ◌-◌, Bool, true, false, not, ◌&&◌, List, [], ◌∷◌, ◌==◌, ltb, if◌then◌else◌,
}
use unix_demos.Os.{SigSet, sigemptyset, sigfillset}
use unix_demos.Signals.{sigint}
use unix_demos.Signals.Delivery.{realtime, Process}

-- `sig_cnt` and `got_sigint`
pub record Counts : Type 0 where
  pub sig_cnt : ℕ → ℕ
  pub got_sigint : Bool

unfoldable pub sig_handler : ℕ → Counts → Counts
sig_handler signo u =
    if signo == sigint
    then record u { got_sigint = true }
    else record u { sig_cnt = λ m. if m == signo then u.sig_cnt signo + 1 else u.sig_cnt m }

-- The static variables at the start, and no signal blocked.
unfoldable pub start : Process Counts
start = record {
  mask = sigemptyset;
  pending = λ m. 0;
  user = record { sig_cnt = λ m. 0; got_sigint = false };
}

-- `sigprocmask(SIG_SETMASK, &mask, NULL)`
abbrev pub set_mask : SigSet → Process Counts → Process Counts
set_mask mask p = record p { mask = mask }

-- A signal is sent; one that is pending and not blocked is handled.
pub data Event : Type 0 where
  sent handled : ℕ → Event

-- A standard signal is pending once, however often it is sent, a real-time one as often as it is
-- sent. The handler runs for one that is pending.
unfoldable pub step : Event → Process Counts → Process Counts
unfolding sig_handler
step (sent sig) p = record p {
  pending = λ m. if m == sig then (if realtime sig then p.pending sig + 1 else 1) else p.pending m;
}
step (handled sig) p =
    if ltb 0 (p.pending sig) && not (p.mask sig)
    then record p {
      pending = λ m. if m == sig then p.pending sig - 1 else p.pending m;
      user = sig_handler sig p.user;
    }
    else p

-- What happens while `while (!got_sigint) continue;` goes round, up to its last test.
unfoldable pub events : List Event → Process Counts → Process Counts
unfolding step
events [] p = p
events (e ∷ es) p = events es (step e p)

-- With an argument, all signals are blocked during the sleep.
unfoldable pub receive : (blocking : Bool) → (asleep looping : List Event) → Process Counts
unfolding events start
receive false asleep looping = events looping start
receive true asleep looping =
    events looping (set_mask sigemptyset (events asleep (set_mask sigfillset start)))

-- What is printed at the end, signals with their counts, from `n` on among `rounds`.
unfoldable pub report : (rounds n : ℕ) → (ℕ → ℕ) → List (ℕ × ℕ)
report zero n sig_cnt = []
report (suc rounds) n sig_cnt =
    let rest = report rounds (n + 1) sig_cnt in
    if not (sig_cnt n == 0) then (n, sig_cnt n) ∷ rest else rest
