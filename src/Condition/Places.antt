-- ===== src/Condition/Places.antt =====
-- The states that the two threads of pthread/condition_signal.c can reach.
use unix_demos.Base.{
  ◌≡◌, refl, sym, subst, Bool, true, false, not, ◌&&◌, ◌||◌, none, some, [], ◌∷◌, if◌then◌else◌,
  arith,
}
use unix_demos.Condition.{
  Consumer, Producer, testing, waiting, relocking, printing, storing, signalling, System, msg,
  task_line, start, process_task, enqueue_msg, spurious,
}

pub data Reach : System → Type 0 where
  here : Reach start
  by_consumer : {s t : System} → Reach s → process_task s ≡ some t → Reach t
  by_producer : {s t : System} → Reach s → enqueue_msg s ≡ some t → Reach t
  by_chance : {s : System} → Reach s → Reach (spurious s)

-- The consumer holds the mutex.
unfoldable pub in_lock : Consumer → Bool
in_lock testing = true
in_lock printing = true
in_lock Consumer.unlocking = true
in_lock _ = false

-- The producer holds it.
unfoldable pub has_lock : Producer → Bool
has_lock storing = true
has_lock Producer.unlocking = true
has_lock _ = false

-- `tp` is stored.
unfoldable pub stored : Producer → Bool
stored Producer.locking = false
stored storing = false
stored _ = true

-- The consumer has seen it, or has printed it.
unfoldable pub seen : Consumer → Bool
seen printing = true
seen Consumer.unlocking = true
seen Consumer.returned = true
seen _ = false

unfoldable pub printed : Consumer → Bool
printed Consumer.unlocking = true
printed Consumer.returned = true
printed _ = false

-- The consumer waits, though the signal has been given.
unfoldable pub missed : Consumer → Producer → Bool
missed waiting Producer.returned = true
missed _ _ = false

unfoldable pub state_of : Consumer → Producer → System
unfolding in_lock has_lock stored printed
state_of c p = record {
  qlock = in_lock c || has_lock p;
  tp = if stored p then some msg else none;
  out = if printed c then task_line msg ∷ [] else [];
  consumer = c;
  producer = p;
}

unfoldable pub sound : Consumer → Producer → Bool
unfolding in_lock has_lock stored seen missed
sound c p =
    not (in_lock c && has_lock p)
    && ((not (seen c) || (stored p && not (has_lock p))) && not (missed c p))

-- A state that can be reached, from its two places.
pub record Known (s : System) : Type 0 where
  pub c : Consumer
  pub p : Producer
  pub ok : sound c p ≡ true
  pub same : s ≡ state_of c p

known :
    (c : Consumer) (p : Producer) {s t : System}
    → sound c p ≡ true
    → some s ≡ some t
    → s ≡ state_of c p
    → Known t
known c p {s} {t} ok e same = record { c = c; p = p; ok = ok; same = ground (arith, e, same) }

consume-Known :
    (c : Consumer) (p : Producer) {t : System}
    → sound c p ≡ true
    → process_task (state_of c p) ≡ some t
    → Known t
unfolding process_task state_of sound
consume-Known Consumer.locking Producer.locking ok e = known testing Producer.locking refl e refl
consume-Known Consumer.locking storing ok e = absurd (ground arith)
consume-Known Consumer.locking Producer.unlocking ok e = absurd (ground arith)
consume-Known Consumer.locking signalling ok e = known testing signalling refl e refl
consume-Known Consumer.locking Producer.returned ok e = known testing Producer.returned refl e refl
consume-Known testing Producer.locking ok e = known waiting Producer.locking refl e refl
consume-Known testing storing ok e = absurd (ground arith)
consume-Known testing Producer.unlocking ok e = absurd (ground arith)
consume-Known testing signalling ok e = known printing signalling refl e refl
consume-Known testing Producer.returned ok e = known printing Producer.returned refl e refl
consume-Known waiting Producer.locking ok e = absurd (ground arith)
consume-Known waiting storing ok e = absurd (ground arith)
consume-Known waiting Producer.unlocking ok e = absurd (ground arith)
consume-Known waiting signalling ok e = absurd (ground arith)
consume-Known waiting Producer.returned ok e = absurd (ground arith)
consume-Known relocking Producer.locking ok e = known testing Producer.locking refl e refl
consume-Known relocking storing ok e = absurd (ground arith)
consume-Known relocking Producer.unlocking ok e = absurd (ground arith)
consume-Known relocking signalling ok e = known testing signalling refl e refl
consume-Known relocking Producer.returned ok e = known testing Producer.returned refl e refl
consume-Known printing Producer.locking ok e = absurd (ground arith)
consume-Known printing storing ok e = absurd (ground arith)
consume-Known printing Producer.unlocking ok e = absurd (ground arith)
consume-Known printing signalling ok e = known Consumer.unlocking signalling refl e refl
consume-Known printing Producer.returned ok e =
    known Consumer.unlocking Producer.returned refl e refl
consume-Known Consumer.unlocking Producer.locking ok e = absurd (ground arith)
consume-Known Consumer.unlocking storing ok e = absurd (ground arith)
consume-Known Consumer.unlocking Producer.unlocking ok e = absurd (ground arith)
consume-Known Consumer.unlocking signalling ok e = known Consumer.returned signalling refl e refl
consume-Known Consumer.unlocking Producer.returned ok e =
    known Consumer.returned Producer.returned refl e refl
consume-Known Consumer.returned Producer.locking ok e = absurd (ground arith)
consume-Known Consumer.returned storing ok e = absurd (ground arith)
consume-Known Consumer.returned Producer.unlocking ok e = absurd (ground arith)
consume-Known Consumer.returned signalling ok e = absurd (ground arith)
consume-Known Consumer.returned Producer.returned ok e = absurd (ground arith)

produce-Known :
    (c : Consumer) (p : Producer) {t : System}
    → sound c p ≡ true
    → enqueue_msg (state_of c p) ≡ some t
    → Known t
unfolding enqueue_msg state_of sound
produce-Known Consumer.locking Producer.locking ok e = known Consumer.locking storing refl e refl
produce-Known Consumer.locking storing ok e = known Consumer.locking Producer.unlocking refl e refl
produce-Known Consumer.locking Producer.unlocking ok e =
    known Consumer.locking signalling refl e refl
produce-Known Consumer.locking signalling ok e =
    known Consumer.locking Producer.returned refl e refl
produce-Known Consumer.locking Producer.returned ok e = absurd (ground arith)
produce-Known testing Producer.locking ok e = absurd (ground arith)
produce-Known testing storing ok e = absurd (ground arith)
produce-Known testing Producer.unlocking ok e = absurd (ground arith)
produce-Known testing signalling ok e = known testing Producer.returned refl e refl
produce-Known testing Producer.returned ok e = absurd (ground arith)
produce-Known waiting Producer.locking ok e = known waiting storing refl e refl
produce-Known waiting storing ok e = known waiting Producer.unlocking refl e refl
produce-Known waiting Producer.unlocking ok e = known waiting signalling refl e refl
produce-Known waiting signalling ok e = known relocking Producer.returned refl e refl
produce-Known waiting Producer.returned ok e = absurd (ground arith)
produce-Known relocking Producer.locking ok e = known relocking storing refl e refl
produce-Known relocking storing ok e = known relocking Producer.unlocking refl e refl
produce-Known relocking Producer.unlocking ok e = known relocking signalling refl e refl
produce-Known relocking signalling ok e = known relocking Producer.returned refl e refl
produce-Known relocking Producer.returned ok e = absurd (ground arith)
produce-Known printing Producer.locking ok e = absurd (ground arith)
produce-Known printing storing ok e = absurd (ground arith)
produce-Known printing Producer.unlocking ok e = absurd (ground arith)
produce-Known printing signalling ok e = known printing Producer.returned refl e refl
produce-Known printing Producer.returned ok e = absurd (ground arith)
produce-Known Consumer.unlocking Producer.locking ok e = absurd (ground arith)
produce-Known Consumer.unlocking storing ok e = absurd (ground arith)
produce-Known Consumer.unlocking Producer.unlocking ok e = absurd (ground arith)
produce-Known Consumer.unlocking signalling ok e =
    known Consumer.unlocking Producer.returned refl e refl
produce-Known Consumer.unlocking Producer.returned ok e = absurd (ground arith)
produce-Known Consumer.returned Producer.locking ok e = absurd (ground arith)
produce-Known Consumer.returned storing ok e = absurd (ground arith)
produce-Known Consumer.returned Producer.unlocking ok e = absurd (ground arith)
produce-Known Consumer.returned signalling ok e =
    known Consumer.returned Producer.returned refl e refl
produce-Known Consumer.returned Producer.returned ok e = absurd (ground arith)

spurious-Known : (c : Consumer) (p : Producer) → sound c p ≡ true → Known (spurious (state_of c p))
unfolding spurious state_of sound
spurious-Known Consumer.locking p ok = record { c = Consumer.locking; p = p; ok = ok; same = refl }
spurious-Known testing p ok = record { c = testing; p = p; ok = ok; same = refl }
spurious-Known waiting Producer.locking ok = record {
  c = relocking;
  p = Producer.locking;
  ok = refl;
  same = refl;
}
spurious-Known waiting storing ok = record { c = relocking; p = storing; ok = refl; same = refl }
spurious-Known waiting Producer.unlocking ok = record {
  c = relocking;
  p = Producer.unlocking;
  ok = refl;
  same = refl;
}
spurious-Known waiting signalling ok = record {
  c = relocking;
  p = signalling;
  ok = refl;
  same = refl;
}
spurious-Known waiting Producer.returned ok = absurd (ground arith)
spurious-Known relocking p ok = record { c = relocking; p = p; ok = ok; same = refl }
spurious-Known printing p ok = record { c = printing; p = p; ok = ok; same = refl }
spurious-Known Consumer.unlocking p ok = record {
  c = Consumer.unlocking;
  p = p;
  ok = ok;
  same = refl;
}
spurious-Known Consumer.returned p ok = record {
  c = Consumer.returned;
  p = p;
  ok = ok;
  same = refl;
}

pub Reach-Known : {s : System} → Reach s → Known s
unfolding state_of sound
Reach-Known here = record { c = Consumer.locking; p = Producer.locking; ok = refl; same = refl }
Reach-Known (by_consumer r e) = let k = Reach-Known r in consume-Known k.c k.p k.ok (rw k.same at e)
Reach-Known (by_producer r e) = let k = Reach-Known r in produce-Known k.c k.p k.ok (rw k.same at e)
Reach-Known (by_chance r) =
    let k = Reach-Known r in
    subst (λ s. Known (spurious s)) (sym k.same) (spurious-Known k.c k.p k.ok)
