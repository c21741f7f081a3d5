-- ===== src/Examples/Locks.antt =====
-- flock/deadlock.c at concrete schedules.
use unix_demos.Base.{◌≡◌, ◌⊎◌, refl, none, some, []}
use unix_demos.Flock.Deadlock.{
  System, Reach, here, by_parent, by_child, parent_fails, stuck, step_parent, step_child,
  fail_parent,
}
use unix_demos.Flock.Deadlock.Progress.{Ended, Reach-stuck}

-- The parent's three acts after the child's first two, and the child's third.
stuck-Reach : Reach stuck
unfolding step_parent step_child
stuck-Reach =
    by_child (by_parent (by_parent (by_parent (by_child (by_child here refl) refl) refl) refl) refl)
      refl

-- Behind it, the parent's F_SETLKW fails, and the child gets its second byte and ends.
both_ended : System
both_ended = record stuck {
  byte0 = none;
  byte1 = none;
  parent_left = [];
  child_left = [];
  parent_exit = some 255;
  child_exit = some 0;
}

both_ended-Reach : Reach both_ended
unfolding step_child fail_parent both_ended
both_ended-Reach = by_child (by_child (parent_fails stuck-Reach refl) refl) refl

Reach-stuck_example :
    ((t : System) × (step_parent stuck ≡ some t))
    ⊎ (((t : System) × (step_child stuck ≡ some t)) ⊎ ((stuck ≡ stuck) ⊎ Ended stuck))
Reach-stuck_example = Reach-stuck stuck-Reach
