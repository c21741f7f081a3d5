-- ===== src/Flock/Deadlock/Progress.antt =====
-- How far the two processes of flock/deadlock.c get.
use unix_demos.Base.{◌≡◌, ◌⊎◌, refl, sym, subst, true, some, arith, inl, inr}
use unix_demos.Flock.Deadlock.{System, Reach, stuck, step_parent, step_child}
use unix_demos.Flock.Deadlock.Places.{
  Pos, before_first, before_tell, before_await, before_second, next, state_of, sound, goes,
  step_parent-state_of, step_child-state_of,
}
use unix_demos.Flock.Deadlock.Ends.{
  Stage, waiting, holding, ended, on, is_ended, parent_gone, child_gone, running, parent_failed,
  child_failed, step_child-parent_gone, step_parent-child_gone, Reach-Known,
}

goes-cases :
    (i j : Pos)
    → sound i j ≡ true
    → (goes i j ≡ true) ⊎ ((goes j i ≡ true) ⊎ (state_of i j ≡ stuck))
unfolding sound goes state_of
goes-cases before_first before_first e = inl refl
goes-cases before_first before_tell e = inl refl
goes-cases before_first before_await e = inl refl
goes-cases before_first before_second e = absurd (ground arith)
goes-cases before_tell before_first e = inl refl
goes-cases before_tell before_tell e = inl refl
goes-cases before_tell before_await e = inl refl
goes-cases before_tell before_second e = absurd (ground arith)
goes-cases before_await before_first e = inr (inl refl)
goes-cases before_await before_tell e = inr (inl refl)
goes-cases before_await before_await e = inl refl
goes-cases before_await before_second e = inl refl
goes-cases before_second before_first e = absurd (ground arith)
goes-cases before_second before_tell e = absurd (ground arith)
goes-cases before_second before_await e = inr (inl refl)
goes-cases before_second before_second e = inr (inr refl)

-- Both processes have exited, one with `exit(-1)` and the other with 0.
abbrev pub Ended : System → Type 0
Ended s =
    ((s.parent_exit ≡ some 255) × (s.child_exit ≡ some 0))
    ⊎ ((s.parent_exit ≡ some 0) × (s.child_exit ≡ some 255))

abbrev Outcome : System → Type 0
Outcome s =
    ((t : System) × (step_parent s ≡ some t))
    ⊎ (((t : System) × (step_child s ≡ some t)) ⊎ ((s ≡ stuck) ⊎ Ended s))

state_of-Outcome : (i j : Pos) → sound i j ≡ true → Outcome (state_of i j)
state_of-Outcome i j ok = elim (goes-cases i j ok) [
  | inl g ↦ inl (state_of (next i) j, ground (arith, step_parent-state_of i j ok, g))
  | inr (inl g) ↦ inr (inl (state_of i (next j), ground (arith, step_child-state_of i j ok, g)))
  | inr (inr e) ↦ inr (inr (inl e))
]

parent_gone-Outcome : (k : Stage) → Outcome (parent_gone k)
unfolding is_ended parent_gone
parent_gone-Outcome waiting = inr (inl (parent_gone (on waiting), step_child-parent_gone waiting))
parent_gone-Outcome holding = inr (inl (parent_gone (on holding), step_child-parent_gone holding))
parent_gone-Outcome ended = inr (inr (inr (inl (refl, refl))))

child_gone-Outcome : (k : Stage) → Outcome (child_gone k)
unfolding is_ended child_gone
child_gone-Outcome waiting = inl (child_gone (on waiting), step_parent-child_gone waiting)
child_gone-Outcome holding = inl (child_gone (on holding), step_parent-child_gone holding)
child_gone-Outcome ended = inr (inr (inr (inr (refl, refl))))

-- In every reachable state of the two processes of deadlock.c one of them can make a step, or
-- each holds the byte that the other waits for, or both have exited, one with status 255 and
-- the other with 0. F_SETLKW fails only with EDEADLK, in a deadlock, and need not fail there.
pub Reach-stuck :
    {s : System}
    → Reach s
    → ((t : System) × (step_parent s ≡ some t))
      ⊎ (((t : System) × (step_child s ≡ some t)) ⊎ ((s ≡ stuck) ⊎ Ended s))
Reach-stuck r = elim (Reach-Known r) [
  | running i j ok same ↦ subst Outcome (sym same) (state_of-Outcome i j ok)
  | parent_failed k same ↦ subst Outcome (sym same) (parent_gone-Outcome k)
  | child_failed k same ↦ subst Outcome (sym same) (child_gone-Outcome k)
]
