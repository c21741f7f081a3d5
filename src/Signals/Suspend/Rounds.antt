-- ===== src/Signals/Suspend/Rounds.antt =====
-- A round of the loop of signal/sig_suspend.c.
use unix_demos.Base.{
  ℕ, zero, suc, ◌+◌, ◌≡◌, refl, ap, ◌∙◌, true, not, ◌&&◌, ◌||◌, List, [], ◌∷◌, ◌==◌, ltb, leb,
  if◌then◌else◌, arith, inl, inr, Bool-cases,
}
use unix_demos.Os.{SigSet, sigemptyset}
use unix_demos.Signals.{sigint, sigquit}
use unix_demos.Signals.Delivery.{
  Process, raise, raise_all, handle, deliver, set_mask, count, pending_after,
}
use unix_demos.Signals.Suspend.{
  Caught, handler, suspend, round, is_handled, all_handled, Ready, heard,
}

raise_all-handled :
    (sent : List ℕ) (p : Process Caught)
    → p.mask sigint ≡ true
    → p.mask sigquit ≡ true
    → all_handled sent ≡ true
    → let q = raise_all handler sent p in
      (q.mask ≡ p.mask)
      × (q.user ≡ p.user)
      × ((x : ℕ) → q.pending x ≡ pending_after x sent (p.pending x))
unfolding raise_all raise
raise_all-handled [] p m1 m2 all = (refl, refl, λ x. ground arith)
raise_all-handled (sig ∷ sent) p m1 m2 all =
    let blocked : p.mask sig ≡ true = elim (Bool-cases (sig == sigint)) [
      | inl e ↦ ground (arith, e, m1)
      | inr e ↦ ground (arith, e, m2, all)
    ] in
    let (a, b, c) =
      raise_all-handled sent (raise handler sig p) (ground (arith, m1, blocked))
        (ground (arith, m2, blocked)) (ground (arith, all)) in
    (ground (arith, a, blocked), ground (arith, b, blocked), λ x. ground (arith, c x, blocked))

handle-caught :
    (times sig x : ℕ) (u : Caught)
    → let u' = handle handler times sig u in
      (u'.caught x ≡ u.caught x + (if x == sig then times else 0))
      × (u'.got_sigquit ≡ (ltb 0 times && sig == sigquit || u.got_sigquit))
unfolding handle handler
handle-caught zero sig x u = (ground arith, ground arith)
handle-caught (suc times) sig x u =
    let (a, b) = handle-caught times sig x (handler sig u) in (ground (arith, a), ground (arith, b))

deliver-caught :
    (n sig : ℕ) (mask : SigSet) (pending : ℕ → ℕ) (u : Caught) (x : ℕ)
    → let u' = deliver handler n sig mask pending u in
      (u'.caught x
        ≡ u.caught x + (if leb sig x && (ltb x (sig + n) && not (mask x)) then pending x else 0))
      × (u'.got_sigquit ≡ (
          leb sig sigquit
            && (ltb sigquit (sig + n) && (not (mask sigquit) && ltb 0 (pending sigquit)))
          || u.got_sigquit))
unfolding deliver
deliver-caught zero sig mask pending u x = (ground arith, ground arith)
deliver-caught (suc n) sig mask pending u x = elim (Bool-cases (mask sig)) [
  | inl e ↦
      let (a, b) = deliver-caught n (sig + 1) mask pending u x in
      (ground (arith, e, a), ground (arith, e, b))
  | inr e ↦
      let (a, b) = deliver-caught n (sig + 1) mask pending (handle handler (pending sig) sig u) x in
      let (c, d) = handle-caught (pending sig) sig x u in
      (ground (arith, e, a, c), ground (arith, e, b, d))
]

suspend-caught :
    (next x : ℕ) (p : Process Caught)
    → is_handled x ≡ true
    → (suspend sigemptyset next p).user.caught x
      ≡ p.user.caught x
        + (if p.pending sigint == 0 && p.pending sigquit == 0
            then (if x == next then 1 else 0)
            else p.pending x)
unfolding suspend set_mask raise handler
suspend-caught next x p h =
    let (a, b) = deliver-caught 64 1 sigemptyset p.pending p.user x in
    elim (Bool-cases (p.pending sigint == 0 && p.pending sigquit == 0)) [
      | inl e ↦ ground (arith, e, a, h)
      | inr e ↦ ground (arith, e, a, h)
    ]

suspend-got_sigquit :
    (next : ℕ) (p : Process Caught)
    → (suspend sigemptyset next p).user.got_sigquit ≡ (
        (if p.pending sigint == 0 && p.pending sigquit == 0
          then next == sigquit
          else ltb 0 (p.pending sigquit))
        || p.user.got_sigquit)
unfolding suspend set_mask raise handler
suspend-got_sigquit next p =
    let (a, b) = deliver-caught 64 1 sigemptyset p.pending p.user 0 in
    elim (Bool-cases (p.pending sigint == 0 && p.pending sigquit == 0)) [
      | inl e ↦ ground (arith, e, b)
      | inr e ↦ ground (arith, e, b)
    ]

pending_after-heard :
    (x : ℕ) (during : List ℕ)
    → is_handled x ≡ true
    → pending_after x during 0 ≡ (if count x during == 0 then 0 else 1)
pending_after-heard x during h = ground (arith, h)

heard_lem :
    (during : List ℕ) (next x : ℕ) (p p1 : Process Caught)
    → p1.user.caught x ≡ p.user.caught x
    → p1.pending x ≡ (if count x during == 0 then 0 else 1)
    → p1.pending sigint ≡ (if count sigint during == 0 then 0 else 1)
    → p1.pending sigquit ≡ (if count sigquit during == 0 then 0 else 1)
    → is_handled x ≡ true
    → (suspend sigemptyset next p1).user.caught x ≡ p.user.caught x + heard (during, next) x
heard_lem during next x p p1 a b c d h = ground (arith, suspend-caught next x p1 h)

quit_lem :
    (during : List ℕ) (next : ℕ) (p p1 : Process Caught)
    → p1.user.got_sigquit ≡ p.user.got_sigquit
    → p1.pending sigint ≡ (if count sigint during == 0 then 0 else 1)
    → p1.pending sigquit ≡ (if count sigquit during == 0 then 0 else 1)
    → (suspend sigemptyset next p1).user.got_sigquit
      ≡ (ltb 0 (heard (during, next) sigquit) || p.user.got_sigquit)
quit_lem during next p p1 a c d = ground (arith, suspend-got_sigquit next p1)

pub round-heard :
    (during : List ℕ) (next x : ℕ) (p : Process Caught)
    → Ready p
    → all_handled during ≡ true
    → is_handled x ≡ true
    → let q = round (during, next) p in
      (q.user.caught x ≡ p.user.caught x + heard (during, next) x)
      × (q.user.got_sigquit ≡ (ltb 0 (heard (during, next) sigquit) || p.user.got_sigquit))
unfolding round
round-heard during next x p (m, none) all h =
    let (a, b, c) = raise_all-handled during p (ap (λ f. f sigint) m) (ap (λ f. f sigquit) m) all in
    let p1 = raise_all handler during p in
    let at : (y : ℕ) → is_handled y ≡ true → p1.pending y ≡ (if count y during == 0 then 0 else 1) =
      λ y h'. c y ∙ (ap (pending_after y during) (none y) ∙ pending_after-heard y during h') in
    (
      heard_lem during next x p p1 (ap (λ u. u.caught x) b) (at x h) (at sigint refl)
          (at sigquit refl) h,
      quit_lem during next p p1 (ap (λ u. u.got_sigquit) b) (at sigint refl) (at sigquit refl),
    )

suspend-pending :
    (next : ℕ) (p : Process Caught) (x : ℕ) → (suspend sigemptyset next p).pending x ≡ 0
unfolding suspend set_mask raise
suspend-pending next p x = elim (Bool-cases (p.pending sigint == 0 && p.pending sigquit == 0)) [
  | inl e ↦ ground (arith, e)
  | inr e ↦ ground (arith, e)
]

suspend-mask : (next : ℕ) (p : Process Caught) → (suspend sigemptyset next p).mask ≡ p.mask
unfolding suspend
suspend-mask next p = refl

-- A round leaves the mask as it was, and nothing pending.
pub round-Ready :
    (during : List ℕ) (next : ℕ) (p : Process Caught)
    → Ready p
    → all_handled during ≡ true
    → Ready (round (during, next) p)
unfolding round
round-Ready during next p (m, none) all =
    let (a, b, c) = raise_all-handled during p (ap (λ f. f sigint) m) (ap (λ f. f sigquit) m) all in
    (
      suspend-mask next (raise_all handler during p) ∙ (a ∙ m),
      suspend-pending next (raise_all handler during p),
    )
