-- ===== src/Signals/Suspend.antt =====
-- signal/sig_suspend.c: SIGINT and SIGQUIT are blocked in the critical section, and sigsuspend lets them
-- in. The lines that are printed are those of Signals/Sets.
pub mod Rounds
pub mod Loop
use unix_demos.Base.{
  ℕ, zero, suc, ◌+◌, ◌≡◌, refl, ap, ◌∙◌, Bool, true, false, not, ◌&&◌, ◌||◌, List, [], ◌∷◌, ◌==◌,
  ltb, leb, if◌then◌else◌, arith, inl, inr, Bool-cases, length,
}
use unix_demos.Os.{SigSet, sigemptyset, sigaddset}
use unix_demos.Signals.{sigint, sigquit}
use unix_demos.Signals.Delivery.{
  Process, raise, raise_all, handle, deliver, set_mask, count, pending_after,
}

-- `gotSigquit`, and how often each signal was caught.
pub record Caught : Type 0 where
  pub got_sigquit : Bool
  pub caught : ℕ → ℕ

unfoldable pub handler : ℕ → Caught → Caught
handler signo u = record {
  got_sigquit = signo == sigquit || u.got_sigquit;
  caught = λ m. if m == signo then u.caught m + 1 else u.caught m;
}

-- `blockMask`
abbrev pub block_mask : SigSet
block_mask = sigaddset (sigaddset sigemptyset sigquit) sigint

-- The handlers are set, and the two signals blocked.
abbrev pub start : Process Caught
start = record {
  mask = block_mask;
  pending = λ m. 0;
  user = record { got_sigquit = false; caught = λ m. 0 };
}

-- `sigsuspend(&origMask)`: it returns after the handlers of what is pending; where nothing is, it waits
-- for the next signal. Then the mask is as before.
unfoldable pub suspend : (orig_mask : SigSet) → (next : ℕ) → Process Caught → Process Caught
unfolding set_mask raise
suspend orig_mask next p =
    let p' = set_mask handler orig_mask p in
    let p'' =
      if p.pending sigint == 0 && p.pending sigquit == 0 then raise handler next p' else p' in
    record p'' { mask = p.mask }

-- `origMask` is the mask that the program inherits, taken to block nothing. A round of the loop: the signals that come in its critical section, and the next one after it.
unfoldable pub round : List ℕ × ℕ → Process Caught → Process Caught
unfolding raise_all suspend
round (during, next) p = suspend sigemptyset next (raise_all handler during p)

-- `for (loopNum = 1; !gotSigquit; loopNum++)`, and how many rounds are made.
unfoldable pub loop : List (List ℕ × ℕ) → Process Caught → ℕ × Process Caught
unfolding round
loop [] p = (0, p)
loop (r ∷ rs) p =
    let rest = loop rs (round r p) in if p.user.got_sigquit then (0, p) else (rest.0 + 1, rest.1)

-- The signals for which a handler is set.
abbrev pub is_handled : ℕ → Bool
is_handled sig = sig == sigint || sig == sigquit

abbrev pub all_handled : List ℕ → Bool
all_handled [] = true
all_handled (sig ∷ sigs) = is_handled sig && all_handled sigs

-- Every signal that comes, in a critical section or after it.
abbrev pub rounds_handled : List (List ℕ × ℕ) → Bool
rounds_handled [] = true
rounds_handled ((during, next) ∷ rs) = all_handled during && (is_handled next && rounds_handled rs)

-- The critical section is left as it was entered: the two signals blocked, and none pending.
abbrev pub Ready : Process Caught → Type 0
Ready p = (p.mask ≡ block_mask) × ((m : ℕ) → p.pending m ≡ 0)

-- What the handlers of a round are called with, as often as they are.
abbrev pub heard : List ℕ × ℕ → ℕ → ℕ
heard (during, next) x =
    if count sigint during == 0 && count sigquit during == 0
    then (if x == next then 1 else 0)
    else if count x during == 0
    then 0
    else 1
