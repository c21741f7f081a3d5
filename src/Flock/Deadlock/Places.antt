-- ===== src/Flock/Deadlock/Places.antt =====
-- The states that the two processes of flock/deadlock.c can reach.
use unix_demos.Base.{
  ◌≡◌, refl, Bool, true, false, not, ◌&&◌, ◌||◌, none, some, List, [], ◌∷◌, if◌then◌else◌, arith,
}
use unix_demos.Flock.Deadlock.{
  Act, lock_byte0, lock_byte1, tell, await, the_parent, the_child, System, step_parent, step_child,
}

-- How far a side has come.
pub data Pos : Type 0 where
  before_first before_tell before_await before_second : Pos

unfoldable pub next : Pos → Pos
next before_first = before_tell
next before_tell = before_await
next _ = before_second

holds : Pos → Bool
holds before_first = false
holds _ = true

has_told : Pos → Bool
has_told before_first = false
has_told before_tell = false
has_told _ = true

past : Pos → Bool
past before_second = true
past _ = false

unfoldable pub left : Act → Act → Pos → List Act
left a b before_first = a ∷ tell ∷ await ∷ b ∷ []
left a b before_tell = tell ∷ await ∷ b ∷ []
left a b before_await = await ∷ b ∷ []
left a b before_second = b ∷ []

unfoldable pub state_of : Pos → Pos → System
unfolding holds has_told past left
state_of i j = record {
  byte0 = if holds j then some the_child else none;
  byte1 = if holds i then some the_parent else none;
  told_parent = has_told j && not (past i);
  told_child = has_told i && not (past j);
  parent_left = left lock_byte1 lock_byte0 i;
  child_left = left lock_byte0 lock_byte1 j;
  parent_exit = none;
  child_exit = none;
}

-- A side that was told something knows that the other has told it.
unfoldable pub sound : Pos → Pos → Bool
unfolding has_told past
sound i j = (not (past i) || has_told j) && (not (past j) || has_told i)

-- The side at `i` goes on, where the other is at `j`.
unfoldable pub goes : Pos → Pos → Bool
unfolding has_told
goes before_first j = true
goes before_tell j = true
goes before_await j = has_told j
goes before_second j = false

pub step_parent-state_of :
    (i j : Pos)
    → sound i j ≡ true
    → step_parent (state_of i j) ≡ (if goes i j then some (state_of (next i) j) else none)
unfolding step_parent state_of sound goes next
step_parent-state_of before_first before_first e = refl
step_parent-state_of before_first before_tell e = refl
step_parent-state_of before_first before_await e = refl
step_parent-state_of before_first before_second e = absurd (ground arith)
step_parent-state_of before_tell before_first e = refl
step_parent-state_of before_tell before_tell e = refl
step_parent-state_of before_tell before_await e = refl
step_parent-state_of before_tell before_second e = absurd (ground arith)
step_parent-state_of before_await before_first e = refl
step_parent-state_of before_await before_tell e = refl
step_parent-state_of before_await before_await e = refl
step_parent-state_of before_await before_second e = refl
step_parent-state_of before_second before_first e = absurd (ground arith)
step_parent-state_of before_second before_tell e = absurd (ground arith)
step_parent-state_of before_second before_await e = refl
step_parent-state_of before_second before_second e = refl

pub step_child-state_of :
    (i j : Pos)
    → sound i j ≡ true
    → step_child (state_of i j) ≡ (if goes j i then some (state_of i (next j)) else none)
unfolding step_child state_of sound goes next
step_child-state_of before_first before_first e = refl
step_child-state_of before_first before_tell e = refl
step_child-state_of before_first before_await e = refl
step_child-state_of before_first before_second e = absurd (ground arith)
step_child-state_of before_tell before_first e = refl
step_child-state_of before_tell before_tell e = refl
step_child-state_of before_tell before_await e = refl
step_child-state_of before_tell before_second e = absurd (ground arith)
step_child-state_of before_await before_first e = refl
step_child-state_of before_await before_tell e = refl
step_child-state_of before_await before_await e = refl
step_child-state_of before_await before_second e = refl
step_child-state_of before_second before_first e = absurd (ground arith)
step_child-state_of before_second before_tell e = absurd (ground arith)
step_child-state_of before_second before_await e = refl
step_child-state_of before_second before_second e = refl

pub sound-next : (i j : Pos) → sound i j ≡ true → goes i j ≡ true → sound (next i) j ≡ true
unfolding sound goes next
sound-next before_first before_first e g = refl
sound-next before_first before_tell e g = refl
sound-next before_first before_await e g = refl
sound-next before_first before_second e g = absurd (ground arith)
sound-next before_tell before_first e g = refl
sound-next before_tell before_tell e g = refl
sound-next before_tell before_await e g = refl
sound-next before_tell before_second e g = absurd (ground arith)
sound-next before_await before_first e g = absurd (ground arith)
sound-next before_await before_tell e g = absurd (ground arith)
sound-next before_await before_await e g = refl
sound-next before_await before_second e g = refl
sound-next before_second before_first e g = absurd (ground arith)
sound-next before_second before_tell e g = absurd (ground arith)
sound-next before_second before_await e g = absurd (ground arith)
sound-next before_second before_second e g = absurd (ground arith)

pub sound-sym : (i j : Pos) → sound i j ≡ true → sound j i ≡ true
unfolding sound
sound-sym i j e = ground arith
