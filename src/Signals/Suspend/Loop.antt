-- ===== src/Signals/Suspend/Loop.antt =====
-- The loop of signal/sig_suspend.c.
use unix_demos.Base.{
  ℕ, ◌+◌, ◌≡◌, refl, ap, ◌∙◌, Bool, true, false, ◌||◌, List, [], ◌∷◌, ltb, if◌then◌else◌, arith,
  inl, inr, Bool-cases, length,
}
use unix_demos.Signals.{sigquit}
use unix_demos.Signals.Delivery.{Process}
use unix_demos.Signals.Suspend.{
  Caught, start, round, loop, is_handled, all_handled, rounds_handled, Ready, heard,
}
use unix_demos.Signals.Suspend.Rounds.{round-heard, round-Ready}

-- The rounds that are made: up to the first in which SIGQUIT is heard.
abbrev pub rounds : List (List ℕ × ℕ) → List (List ℕ × ℕ)
rounds [] = []
rounds (r ∷ rs) = if ltb 0 (heard r sigquit) then r ∷ [] else r ∷ rounds rs

abbrev pub heard_all : List (List ℕ × ℕ) → ℕ → ℕ
heard_all [] x = 0
heard_all (r ∷ rs) x = heard r x + heard_all rs x

or_lem : (a b : Bool) → b ≡ false → (a || b) ≡ a
or_lem a b e = ground (arith, e)

no_more : (n m : ℕ) → m ≡ n → m ≡ n + 0
no_more n m e = omega (arith, e)

from_zero : (n : ℕ) {m : ℕ} → m ≡ 0 + n → m ≡ n
from_zero n e = omega (arith, e)

loop-nil : (p : Process Caught) → loop [] p ≡ (0, p)
unfolding loop
loop-nil p = refl

loop-stop :
    (rs : List (List ℕ × ℕ)) (p : Process Caught) → p.user.got_sigquit ≡ true → loop rs p ≡ (0, p)
unfolding loop
loop-stop [] p e = refl
loop-stop (r ∷ rs) p e =
    ap (λ b. if b then (0, p) else ((loop rs (round r p)).0 + 1, (loop rs (round r p)).1)) e

loop-go :
    (r : List ℕ × ℕ) (rs : List (List ℕ × ℕ)) (p : Process Caught)
    → p.user.got_sigquit ≡ false
    → loop (r ∷ rs) p ≡ ((loop rs (round r p)).0 + 1, (loop rs (round r p)).1)
unfolding loop
loop-go r rs p e =
    ap (λ b. if b then (0, p) else ((loop rs (round r p)).0 + 1, (loop rs (round r p)).1)) e

-- What the rest of the loop adds to a round.
rounds_split :
    (r : List ℕ × ℕ) (rs : List (List ℕ × ℕ))
    → rounds_handled (r ∷ rs) ≡ true
    → (all_handled r.0 ≡ true) × (rounds_handled rs ≡ true)
rounds_split (during, next) rs all = (ground (arith, all), ground (arith, all))

loop_lem :
    (r : List ℕ × ℕ) (rs : List (List ℕ × ℕ)) (p p' : Process Caught) (x : ℕ)
    (rest whole : ℕ × Process Caught)
    → whole ≡ (rest.0 + 1, rest.1)
    → p'.user.caught x ≡ p.user.caught x + heard r x
    → (p'.user.got_sigquit ≡ true → rest ≡ (0, p'))
    → (p'.user.got_sigquit ≡ false
        → (rest.0 ≡ length (rounds rs))
          × (rest.1.user.caught x ≡ p'.user.caught x + heard_all (rounds rs) x))
    → p'.user.got_sigquit ≡ ltb 0 (heard r sigquit)
    → (whole.0 ≡ length (rounds (r ∷ rs)))
      × (whole.1.user.caught x ≡ p.user.caught x + heard_all (rounds (r ∷ rs)) x)
loop_lem r rs p p' x rest whole w c stop go got = elim (Bool-cases (ltb 0 (heard r sigquit))) [
  | inl e ↦
      let s = stop (got ∙ e) in
      (
        ground (arith, e, ap (λ t. t.0) w, ap (λ t. t.0) s),
        ground (arith, e, c, ap (λ t. t.1.user.caught x) w, ap (λ t. t.1.user.caught x) s),
      )
  | inr e ↦
      let (a, b) = go (got ∙ e) in
      (
        ground (arith, e, a, ap (λ t. t.0) w),
        ground (arith, e, b, c, ap (λ t. t.1.user.caught x) w),
      )
]

loop-heard_all :
    (rs : List (List ℕ × ℕ)) (p : Process Caught) (x : ℕ)
    → Ready p
    → p.user.got_sigquit ≡ false
    → rounds_handled rs ≡ true
    → is_handled x ≡ true
    → ((loop rs p).0 ≡ length (rounds rs))
      × ((loop rs p).1.user.caught x ≡ p.user.caught x + heard_all (rounds rs) x)
loop-heard_all [] p x ready e all h = (
  ap (λ t. t.0) (loop-nil p),
  no_more (p.user.caught x) ((loop [] p).1.user.caught x)
      (ap (λ t. t.1.user.caught x) (loop-nil p)),
)
loop-heard_all (r ∷ rs) p x ready e all h =
    let (all1, all2) = rounds_split r rs all in
    let (a, b) = round-heard r.0 r.1 x p ready all1 h in
    loop_lem r rs p (round r p) x (loop rs (round r p)) (loop (r ∷ rs) p) (loop-go r rs p e) a
      (loop-stop rs (round r p))
      (λ e'. loop-heard_all rs (round r p) x (round-Ready r.0 r.1 p ready all1) e' all2 h)
      (b ∙ or_lem (ltb 0 (heard r sigquit)) p.user.got_sigquit e)

-- The loop of sig_suspend.c ends with the first round in which SIGQUIT is heard, and SIGINT and
-- SIGQUIT are caught once for each critical section in which they come, and where none came in
-- it, the one that sigsuspend waits for is caught.
pub start-heard :
    (rs : List (List ℕ × ℕ)) (x : ℕ)
    → rounds_handled rs ≡ true
    → is_handled x ≡ true
    → ((loop rs start).0 ≡ length (rounds rs))
      × ((loop rs start).1.user.caught x ≡ heard_all (rounds rs) x)
start-heard rs x all h =
    let (a, b) = loop-heard_all rs start x (refl, λ m. refl) refl all h in
    (a, from_zero (heard_all (rounds rs) x) b)
