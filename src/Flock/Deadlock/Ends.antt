-- ===== src/Flock/Deadlock/Ends.antt =====
-- The states of flock/deadlock.c behind a F_SETLKW that failed with EDEADLK, and with them all that
-- can be reached.
use unix_demos.Base.{
  ◌≡◌, refl, Bool, true, false, none, some, [], ◌∷◌, if◌then◌else◌, arith, inl, inr, Bool-cases,
}
use unix_demos.Flock.Deadlock.{
  lock_byte0, lock_byte1, the_parent, the_child, System, Reach, here, by_parent, by_child,
  parent_fails, child_fails, step_parent, step_child, fail_parent, fail_child,
}
use unix_demos.Flock.Deadlock.Places.{
  Pos, before_first, before_tell, before_await, before_second, next, state_of, sound, goes,
  sound-next, sound-sym, step_parent-state_of, step_child-state_of,
}

-- How far the process that goes on has come.
pub data Stage : Type 0 where
  waiting holding ended : Stage

unfoldable pub on : Stage → Stage
on waiting = holding
on _ = ended

unfoldable pub is_ended : Stage → Bool
is_ended ended = true
is_ended _ = false

-- The parent has failed, or the child.
unfoldable pub parent_gone : Stage → System
parent_gone k = record {
  byte0 = elim k [ ended ↦ none | _ ↦ some the_child ];
  byte1 = elim k [ holding ↦ some the_child | _ ↦ none ];
  told_parent = false;
  told_child = false;
  parent_left = [];
  child_left = elim k [ waiting ↦ lock_byte1 ∷ [] | _ ↦ [] ];
  parent_exit = some 255;
  child_exit = elim k [ ended ↦ some 0 | _ ↦ none ];
}

unfoldable pub child_gone : Stage → System
child_gone k = record {
  byte0 = elim k [ holding ↦ some the_parent | _ ↦ none ];
  byte1 = elim k [ ended ↦ none | _ ↦ some the_parent ];
  told_parent = false;
  told_child = false;
  parent_left = elim k [ waiting ↦ lock_byte0 ∷ [] | _ ↦ [] ];
  child_left = [];
  parent_exit = elim k [ ended ↦ some 0 | _ ↦ none ];
  child_exit = some 255;
}

pub step_child-parent_gone :
    (k : Stage)
    → step_child (parent_gone k) ≡ (if is_ended k then none else some (parent_gone (on k)))
unfolding step_child parent_gone is_ended on
step_child-parent_gone waiting = refl
step_child-parent_gone holding = refl
step_child-parent_gone ended = refl

pub step_parent-child_gone :
    (k : Stage)
    → step_parent (child_gone k) ≡ (if is_ended k then none else some (child_gone (on k)))
unfolding step_parent child_gone is_ended on
step_parent-child_gone waiting = refl
step_parent-child_gone holding = refl
step_parent-child_gone ended = refl

past_both : Pos → Pos → Bool
past_both before_second before_second = true
past_both _ _ = false

fail_parent-state_of :
    (i j : Pos)
    → fail_parent (state_of i j) ≡ (if past_both i j then some (parent_gone waiting) else none)
unfolding fail_parent state_of past_both parent_gone
fail_parent-state_of before_first before_first = refl
fail_parent-state_of before_first before_tell = refl
fail_parent-state_of before_first before_await = refl
fail_parent-state_of before_first before_second = refl
fail_parent-state_of before_tell before_first = refl
fail_parent-state_of before_tell before_tell = refl
fail_parent-state_of before_tell before_await = refl
fail_parent-state_of before_tell before_second = refl
fail_parent-state_of before_await before_first = refl
fail_parent-state_of before_await before_tell = refl
fail_parent-state_of before_await before_await = refl
fail_parent-state_of before_await before_second = refl
fail_parent-state_of before_second before_first = refl
fail_parent-state_of before_second before_tell = refl
fail_parent-state_of before_second before_await = refl
fail_parent-state_of before_second before_second = refl

fail_child-state_of :
    (i j : Pos)
    → fail_child (state_of i j) ≡ (if past_both i j then some (child_gone waiting) else none)
unfolding fail_child state_of past_both child_gone
fail_child-state_of before_first before_first = refl
fail_child-state_of before_first before_tell = refl
fail_child-state_of before_first before_await = refl
fail_child-state_of before_first before_second = refl
fail_child-state_of before_tell before_first = refl
fail_child-state_of before_tell before_tell = refl
fail_child-state_of before_tell before_await = refl
fail_child-state_of before_tell before_second = refl
fail_child-state_of before_await before_first = refl
fail_child-state_of before_await before_tell = refl
fail_child-state_of before_await before_await = refl
fail_child-state_of before_await before_second = refl
fail_child-state_of before_second before_first = refl
fail_child-state_of before_second before_tell = refl
fail_child-state_of before_second before_await = refl
fail_child-state_of before_second before_second = refl

-- The states that can be reached.
pub data Known (s : System) : Type 0 where
  running : (i j : Pos) → sound i j ≡ true → s ≡ state_of i j → Known s
  parent_failed : (k : Stage) → s ≡ parent_gone k → Known s
  child_failed : (k : Stage) → s ≡ child_gone k → Known s

parent_gone-step_child :
    (k : Stage) {t : System} → step_child (parent_gone k) ≡ some t → t ≡ parent_gone (on k)
unfolding is_ended
parent_gone-step_child ended e = absurd (ground (arith, e, step_child-parent_gone ended))
parent_gone-step_child waiting e = ground (arith, e, step_child-parent_gone waiting)
parent_gone-step_child holding e = ground (arith, e, step_child-parent_gone holding)

child_gone-step_parent :
    (k : Stage) {t : System} → step_parent (child_gone k) ≡ some t → t ≡ child_gone (on k)
unfolding is_ended
child_gone-step_parent ended e = absurd (ground (arith, e, step_parent-child_gone ended))
child_gone-step_parent waiting e = ground (arith, e, step_parent-child_gone waiting)
child_gone-step_parent holding e = ground (arith, e, step_parent-child_gone holding)

parent_gone-still :
    (k : Stage)
    → (step_parent (parent_gone k) ≡ none)
      × (fail_parent (parent_gone k) ≡ none)
      × (fail_child (parent_gone k) ≡ none)
unfolding step_parent parent_gone fail_parent fail_child
parent_gone-still waiting = (refl, refl, refl)
parent_gone-still holding = (refl, refl, refl)
parent_gone-still ended = (refl, refl, refl)

child_gone-still :
    (k : Stage)
    → (step_child (child_gone k) ≡ none)
      × (fail_parent (child_gone k) ≡ none)
      × (fail_child (child_gone k) ≡ none)
unfolding step_child child_gone fail_parent fail_child
child_gone-still waiting = (refl, refl, refl)
child_gone-still holding = (refl, refl, refl)
child_gone-still ended = (refl, refl, refl)

Known-by_parent : {s t : System} → Known s → step_parent s ≡ some t → Known t
Known-by_parent (running i j ok same) e =
    let st = step_parent-state_of i j ok in
    let e' = rw same at e in
    elim (Bool-cases (goes i j)) [
      | inl g ↦ running (next i) j (sound-next i j ok g) (ground (arith, e', st, g))
      | inr g ↦ absurd (ground (arith, e', st, g))
    ]
Known-by_parent (parent_failed k same) e =
    absurd (ground (arith, rw same at e, parent_gone-still k))
Known-by_parent (child_failed k same) e =
    child_failed (on k) (child_gone-step_parent k (rw same at e))

Known-by_child : {s t : System} → Known s → step_child s ≡ some t → Known t
Known-by_child (running i j ok same) e =
    let st = step_child-state_of i j ok in
    let e' = rw same at e in
    elim (Bool-cases (goes j i)) [
      | inl g ↦
          running i (next j) (sound-sym _ _ (sound-next j i (sound-sym _ _ ok) g))
            (ground (arith, e', st, g))
      | inr g ↦ absurd (ground (arith, e', st, g))
    ]
Known-by_child (parent_failed k same) e =
    parent_failed (on k) (parent_gone-step_child k (rw same at e))
Known-by_child (child_failed k same) e = absurd (ground (arith, rw same at e, child_gone-still k))

Known-parent_fails : {s t : System} → Known s → fail_parent s ≡ some t → Known t
Known-parent_fails (running i j ok same) e =
    let e' = rw same at e in
    elim (Bool-cases (past_both i j)) [
      | inl g ↦ parent_failed waiting (ground (arith, e', fail_parent-state_of i j, g))
      | inr g ↦ absurd (ground (arith, e', fail_parent-state_of i j, g))
    ]
Known-parent_fails (parent_failed k same) e =
    absurd (ground (arith, rw same at e, parent_gone-still k))
Known-parent_fails (child_failed k same) e =
    absurd (ground (arith, rw same at e, child_gone-still k))

Known-child_fails : {s t : System} → Known s → fail_child s ≡ some t → Known t
Known-child_fails (running i j ok same) e =
    let e' = rw same at e in
    elim (Bool-cases (past_both i j)) [
      | inl g ↦ child_failed waiting (ground (arith, e', fail_child-state_of i j, g))
      | inr g ↦ absurd (ground (arith, e', fail_child-state_of i j, g))
    ]
Known-child_fails (parent_failed k same) e =
    absurd (ground (arith, rw same at e, parent_gone-still k))
Known-child_fails (child_failed k same) e =
    absurd (ground (arith, rw same at e, child_gone-still k))

pub Reach-Known : {s : System} → Reach s → Known s
unfolding state_of sound
Reach-Known here = running before_first before_first refl refl
Reach-Known (by_parent r e) = Known-by_parent (Reach-Known r) e
Reach-Known (by_child r e) = Known-by_child (Reach-Known r) e
Reach-Known (parent_fails r e) = Known-parent_fails (Reach-Known r) e
Reach-Known (child_fails r e) = Known-child_fails (Reach-Known r) e
