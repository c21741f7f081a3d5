-- ===== src/Signals/Receiver/Counting.antt =====
-- What signal/sig_receiver.c has counted when its loop ends.
use unix_demos.Base.{
  ℕ, ◌+◌, ◌≤◌, ◌<◌, ◌≡◌, ◌≢◌, ◌⊎◌, inl, inr, Bool-cases, refl, ap, true, false, ◌||◌, List, [], ◌∷◌,
  ltb, arith,
}
use unix_demos.Os.{sigemptyset, sigfillset}
use unix_demos.Signals.{sigint}
use unix_demos.Signals.Delivery.{realtime, Process, count, pending_after}
use unix_demos.Signals.Receiver.{
  Counts, sig_handler, start, set_mask, Event, sent, handled, step, events, receive,
}

-- The signals that are sent, in order.
abbrev pub sends : List Event → List ℕ
sends [] = []
sends (sent sig ∷ es) = sig ∷ sends es
sends (handled sig ∷ es) = sends es

-- How often a signal was counted or still waits for its handler.
abbrev pub total : ℕ → Process Counts → ℕ
total x p = p.user.sig_cnt x + p.pending x

module _ (x : ℕ) (other : x ≢ sigint) where
  events-realtime :
      (es : List Event) (p : Process Counts)
      → realtime x ≡ true
      → total x (events es p) ≡ total x p + count x (sends es)
  unfolding events step sig_handler
  events-realtime [] p rt = ground arith
  events-realtime (sent sig ∷ es) p rt = ground (arith, events-realtime es (step (sent sig) p) rt)
  events-realtime (handled sig ∷ es) p rt =
      ground (arith, events-realtime es (step (handled sig) p) rt)

  step-standard :
      (e : Event) (p : Process Counts)
      → realtime x ≡ false
      → (total x (step e p) ≤ total x p + count x (sends (e ∷ [])))
        × (ltb 0 (total x (step e p)) ≡ ltb 0 (total x p + count x (sends (e ∷ []))))
  unfolding step sig_handler
  step-standard (sent sig) p st = (ground arith, ground arith)
  step-standard (handled sig) p st = (ground arith, ground arith)

  events-standard :
      (es : List Event) (p : Process Counts)
      → realtime x ≡ false
      → (total x (events es p) ≤ total x p + count x (sends es))
        × (ltb 0 (total x (events es p)) ≡ ltb 0 (total x p + count x (sends es)))
  unfolding events
  events-standard [] p st = (ground arith, ground arith)
  events-standard (sent sig ∷ es) p st =
      let (a, b) = step-standard (sent sig) p st in
      let (c, d) = events-standard es (step (sent sig) p) st in (ground arith, ground arith)
  events-standard (handled sig ∷ es) p st =
      let (a, b) = step-standard (handled sig) p st in
      let (c, d) = events-standard es (step (handled sig) p) st in (ground arith, ground arith)

events-got_sigint :
    (es : List Event) (p : Process Counts)
    → (events es p).user.got_sigint ≡ true
    → (p.user.got_sigint || ltb 0 (p.pending sigint + count sigint (sends es))) ≡ true
unfolding events step sig_handler
events-got_sigint [] p e = ground arith
events-got_sigint (sent sig ∷ es) p e = ground (arith, events-got_sigint es (step (sent sig) p))
events-got_sigint (handled sig ∷ es) p e =
    ground (arith, events-got_sigint es (step (handled sig) p))

-- While all signals are blocked, none is handled.
events-blocked :
    (es : List Event) (p : Process Counts)
    → p.mask ≡ sigfillset
    → ((events es p).user ≡ p.user)
      × ((x : ℕ) → (events es p).pending x ≡ pending_after x (sends es) (p.pending x))
unfolding events step
events-blocked [] p all = (refl, λ x. ground arith)
events-blocked (sent sig ∷ es) p all =
    let (a, b) = events-blocked es (step (sent sig) p) all in (a, λ x. ground (arith, b x))
events-blocked (handled sig ∷ es) p all =
    let blocked : p.mask sig ≡ true = ap (λ m. m sig) all in
    let (a, b) = events-blocked es (step (handled sig) p) (ground (arith, blocked, all)) in
    (ground (arith, blocked, a), λ x. ground (arith, blocked, b x))

-- What is taken over from the sleep: a standard signal once, if it was sent, a real-time one as
-- often as it was sent.
abbrev pub first : ℕ → List Event → ℕ
first x asleep = pending_after x (sends asleep) 0

-- If the loop of sig_receiver.c, run with an argument, has ended, then a SIGINT was sent; and
-- of every other signal, what was counted and what still waits for its handler is together, for
-- a real-time one, as much as was sent during the sleep and the loop; for a standard one, at
-- most one for the sleep, if it was sent then, and what was sent during the loop, and nothing
-- only if it was not sent at all. This holds however the handlers are placed between the
-- sendings.
pub receive-sig_cnt :
    (asleep looping : List Event) (x : ℕ)
    → x ≢ sigint
    → (receive true asleep looping).user.got_sigint ≡ true
    → let p = receive true asleep looping in
      let sent_in_all = first x asleep + count x (sends looping) in
      (0 < count sigint (sends asleep) + count sigint (sends looping))
      × (((realtime x ≡ true) × (p.user.sig_cnt x + p.pending x ≡ sent_in_all))
          ⊎ ((realtime x ≡ false)
              × (p.user.sig_cnt x + p.pending x ≤ sent_in_all)
              × (ltb 0 (p.user.sig_cnt x + p.pending x) ≡ ltb 0 sent_in_all)))
unfolding receive start
receive-sig_cnt asleep looping x other got =
    let p0 = set_mask sigfillset start in
    let p1 = set_mask sigemptyset (events asleep p0) in
    let (users, pendings) = events-blocked asleep p0 refl in
    let before : total x p1 ≡ first x asleep =
      ground (arith, pendings x, ap (λ u. u.sig_cnt x) users) in
    let interrupted = events-got_sigint looping p1 got in
    (
      ground (arith, interrupted, pendings sigint, ap (λ u. u.got_sigint) users),
      elim (Bool-cases (realtime x)) [
        | inl rt ↦ inl (rt, ground (arith, before, events-realtime x other looping p1 rt))
        | inr st ↦
            let (a, b) = events-standard x other looping p1 st in
            inr (st, ground (arith, before), ground (arith, before))
      ],
    )
