-- ===== src/Signals/Delivery.antt =====
-- How a process gets its signals. While a signal is blocked it is pending: a standard one once,
-- however often it is sent, a real-time one as often as it is sent. A change of the mask delivers
-- what is pending and no longer blocked, the lowest number first.
use unix_demos.Base.{
  ℕ, zero, suc, ◌+◌, Bool, not, ◌&&◌, ◌||◌, List, [], ◌∷◌, ◌==◌, ltb, leb, if◌then◌else◌,
}
use unix_demos.Os.{SigSet}

-- The signals that can be caught and blocked: all but SIGKILL and SIGSTOP.
abbrev pub catchable : ℕ → Bool
catchable sig = ltb 0 sig && (ltb sig 65 && not (sig == 9 || sig == 19))

abbrev pub realtime : ℕ → Bool
realtime sig = leb 32 sig

-- The mask, how often each signal is pending, and the variables that the handler changes.
pub record Process (S : Type 0) : Type 0 where
  pub mask : SigSet
  pub pending : ℕ → ℕ
  pub user : S

module _ {S : Type 0} (handler : ℕ → S → S) where
  unfoldable pub raise : ℕ → Process S → Process S
  raise sig p =
      if p.mask sig
      then record p {
        pending =
            λ m. if m == sig then (if realtime sig then p.pending sig + 1 else 1) else p.pending m;
      }
      else record p { user = handler sig p.user }

  unfoldable pub raise_all : List ℕ → Process S → Process S
  unfolding raise
  raise_all [] p = p
  raise_all (sig ∷ sigs) p = raise_all sigs (raise sig p)

  unfoldable pub handle : (times sig : ℕ) → S → S
  handle zero sig u = u
  handle (suc times) sig u = handle times sig (handler sig u)

  -- The deliveries from `sig` on, among `n` signals.
  unfoldable pub deliver : (n sig : ℕ) → SigSet → (pending : ℕ → ℕ) → S → S
  unfolding handle
  deliver zero sig mask pending u = u
  deliver (suc n) sig mask pending u =
      deliver n (sig + 1) mask pending (if mask sig then u else handle (pending sig) sig u)

  unfoldable pub set_mask : SigSet → Process S → Process S
  unfolding deliver
  set_mask mask p = record {
    mask = mask;
    pending = λ m. if mask m then p.pending m else 0;
    user = deliver 64 1 mask p.pending p.user;
  }

abbrev pub count : ℕ → List ℕ → ℕ
count x [] = 0
count x (y ∷ ys) = (if x == y then 1 else 0) + count x ys

-- How often a signal that is blocked throughout is pending, after these were sent.
abbrev pub pending_after : ℕ → List ℕ → ℕ → ℕ
pending_after x sent before =
    if realtime x then before + count x sent else if ltb 0 (count x sent) then 1 else before
