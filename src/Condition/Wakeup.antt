-- ===== src/Condition/Wakeup.antt =====
-- No wake-up is lost in pthread/condition_signal.c, and what is printed is the message.
use unix_demos.Base.{◌≡◌, ◌⊎◌, refl, true, some, arith, inl, inr}
use unix_demos.Condition.{
  Consumer, Producer, testing, waiting, relocking, printing, storing, signalling, System,
  process_task, enqueue_msg,
}
use unix_demos.Condition.Places.{state_of, sound}

goes :
    (c : Consumer) (p : Producer)
    → sound c p ≡ true
    → ((c ≡ Consumer.returned) × (p ≡ Producer.returned))
      ⊎ (((t : System) × (process_task (state_of c p) ≡ some t))
          ⊎ ((t : System) × (enqueue_msg (state_of c p) ≡ some t)))
unfolding process_task enqueue_msg state_of sound
goes Consumer.locking Producer.locking ok = inr (inl (_, refl))
goes Consumer.locking storing ok = inr (inr (_, refl))
goes Consumer.locking Producer.unlocking ok = inr (inr (_, refl))
goes Consumer.locking signalling ok = inr (inl (_, refl))
goes Consumer.locking Producer.returned ok = inr (inl (_, refl))
goes testing Producer.locking ok = inr (inl (_, refl))
goes testing storing ok = absurd (ground arith)
goes testing Producer.unlocking ok = absurd (ground arith)
goes testing signalling ok = inr (inl (_, refl))
goes testing Producer.returned ok = inr (inl (_, refl))
goes waiting Producer.locking ok = inr (inr (_, refl))
goes waiting storing ok = inr (inr (_, refl))
goes waiting Producer.unlocking ok = inr (inr (_, refl))
goes waiting signalling ok = inr (inr (_, refl))
goes waiting Producer.returned ok = absurd (ground arith)
goes relocking Producer.locking ok = inr (inl (_, refl))
goes relocking storing ok = inr (inr (_, refl))
goes relocking Producer.unlocking ok = inr (inr (_, refl))
goes relocking signalling ok = inr (inl (_, refl))
goes relocking Producer.returned ok = inr (inl (_, refl))
goes printing Producer.locking ok = absurd (ground arith)
goes printing storing ok = absurd (ground arith)
goes printing Producer.unlocking ok = absurd (ground arith)
goes printing signalling ok = inr (inl (_, refl))
goes printing Producer.returned ok = inr (inl (_, refl))
goes Consumer.unlocking Producer.locking ok = absurd (ground arith)
goes Consumer.unlocking storing ok = absurd (ground arith)
goes Consumer.unlocking Producer.unlocking ok = absurd (ground arith)
goes Consumer.unlocking signalling ok = inr (inl (_, refl))
goes Consumer.unlocking Producer.returned ok = inr (inl (_, refl))
goes Consumer.returned Producer.locking ok = absurd (ground arith)
goes Consumer.returned storing ok = absurd (ground arith)
goes Consumer.returned Producer.unlocking ok = absurd (ground arith)
goes Consumer.returned signalling ok = inr (inr (_, refl))
goes Consumer.returned Producer.returned ok = inl (refl, refl)
