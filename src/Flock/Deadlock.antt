-- ===== src/Flock/Deadlock.antt =====
-- The two processes of flock/deadlock.c together: they end up waiting for each other, until F_SETLKW
-- fails with EDEADLK in one of them, if the system finds the deadlock.
pub mod Places
pub mod Ends
pub mod Progress
use unix_demos.Base.{
  ℕ, ◌≡◌, ◌≢◌, ◌⊎◌, refl, ◌∙◌, Bool, true, false, not, ◌&&◌, ◌||◌, Option, none, some, List, [],
  ◌∷◌, if◌then◌else◌, arith, inl, inr, Bool-cases,
}
use unix_demos.Os.{Bytes, Call, read, write, setlkw, printf, f_wrlck, seek_set, Flock}
use unix_demos.Os.Run.{read_cases, Kernel, run, Called, Called->>=}
use unix_demos.Flock
use unix_demos.Flock.{lockabyte, Pipes, parent, child, got_text, parent_name, child_name}

-- What a process does: it waits for the lock on a byte and takes it, tells the other, waits to be told.
pub data Act : Type 0 where
  lock_byte0 lock_byte1 tell await : Act

abbrev pub parent_acts : List Act
parent_acts = lock_byte1 ∷ tell ∷ await ∷ lock_byte0 ∷ []

abbrev pub child_acts : List Act
child_acts = lock_byte0 ∷ tell ∷ await ∷ lock_byte1 ∷ []

-- The lock that `lockabyte` asks for.
abbrev pub one_byte : ℕ → Flock
one_byte offset = record {
  l_type = f_wrlck;
  l_whence = seek_set;
  l_start = offset;
  l_len = 1;
  l_pid = 0;
}

-- The calls of the acts, for the process with this name, telling and told on these descriptors.
abbrev pub act_calls : Bytes → (fd to c from : ℕ) → List Act → List Call
act_calls name fd to c from [] = []
act_calls name fd to c from (lock_byte0 ∷ acts) =
    setlkw fd (one_byte 0) ∷ printf (got_text name 0) ∷ act_calls name fd to c from acts
act_calls name fd to c from (lock_byte1 ∷ acts) =
    setlkw fd (one_byte 1) ∷ printf (got_text name 1) ∷ act_calls name fd to c from acts
act_calls name fd to c from (tell ∷ acts) = write to (c ∷ []) ∷ act_calls name fd to c from acts
act_calls name fd to c from (await ∷ acts) = read from 1 ∷ act_calls name fd to c from acts

module _ {K : Type 0} (kernel : Kernel K) where
  lockabyte-Called :
      (name : Bytes) (fd offset : ℕ)
      → Called kernel
          (lockabyte name fd offset)
          (setlkw fd (one_byte offset) ∷ printf (got_text name offset) ∷ [])
  unfolding run lockabyte
  lockabyte-Called name fd offset s a e = ground arith

  tell-Called : (fd c : ℕ) → Called kernel (Flock.tell fd c) (write fd (c ∷ []) ∷ [])
  unfolding run Flock.tell
  tell-Called fd c s a e = ground arith

  await-Called : (fd c : ℕ) → Called kernel (Flock.await fd c) (read fd 1 ∷ [])
  unfolding run Flock.await
  await-Called fd c s a e = elim (read_cases (kernel (read fd 1) s).0) [
    | inl e1 ↦ absurd (ground (arith, e1))
    | inr (inl e1) ↦ absurd (ground (arith, e1))
    | inr (inr (b, bs, e1)) ↦ ground (arith, e1)
  ]

  -- If a process of deadlock.c returns, then its calls were those of its acts, in order.
  pub parent-child-Called :
      (pipes : Pipes) (fd : ℕ)
      → Called kernel
          (parent pipes fd)
          (act_calls parent_name fd pipes.pipefd2.1 b'c' pipes.pipefd1.0 parent_acts)
        × Called kernel
            (child pipes fd)
            (act_calls child_name fd pipes.pipefd1.1 b'p' pipes.pipefd2.0 child_acts)
  unfolding parent child
  parent-child-Called pipes fd = (
    Called->>= kernel _ _ (lockabyte-Called parent_name fd 1) (λ _.
        Called->>= kernel _ _ (tell-Called _ _)
          (λ _. Called->>= kernel _ _ (await-Called _ _) (λ _. lockabyte-Called parent_name fd 0))),
    Called->>= kernel _ _ (lockabyte-Called child_name fd 0) (λ _.
        Called->>= kernel _ _ (tell-Called _ _)
          (λ _. Called->>= kernel _ _ (await-Called _ _) (λ _. lockabyte-Called child_name fd 1))),
  )

pub data Side : Type 0 where
  the_parent the_child : Side

-- The owners of the bytes, what was told, what is left to do, and the status of a process that has
-- exited.
pub record System : Type 0 where
  pub byte0 : Option Side
  pub byte1 : Option Side
  pub told_parent : Bool
  pub told_child : Bool
  pub parent_left : List Act
  pub child_left : List Act
  pub parent_exit : Option ℕ
  pub child_exit : Option ℕ

abbrev pub start : System
start = record {
  byte0 = none;
  byte1 = none;
  told_parent = false;
  told_child = false;
  parent_left = parent_acts;
  child_left = child_acts;
  parent_exit = none;
  child_exit = none;
}

-- A byte that is free, or one's own, can be locked.
abbrev pub locked : Side → Option Side → Option (Option Side)
locked me none = some (some me)
locked the_parent (some the_parent) = some (some the_parent)
locked the_child (some the_child) = some (some the_child)
locked me (some other) = none

-- An act of a side, where nothing is in its way.
unfoldable pub act : Side → Act → System → Option System
act me lock_byte0 s = elim (locked me s.byte0) [
  | none ↦ none
  | some o ↦ some (record s { byte0 = o })
]
act me lock_byte1 s = elim (locked me s.byte1) [
  | none ↦ none
  | some o ↦ some (record s { byte1 = o })
]
act the_parent tell s = some (record s { told_child = true })
act the_child tell s = some (record s { told_parent = true })
act the_parent await s = if s.told_parent then some (record s { told_parent = false }) else none
act the_child await s = if s.told_child then some (record s { told_child = false }) else none

-- The end of a process gives its locks back.
unfoldable pub released : Side → Option Side → Option Side
released me none = none
released the_parent (some the_parent) = none
released the_child (some the_child) = none
released me (some other) = some other

unfoldable pub exit_parent : (status : ℕ) → System → System
unfolding released
exit_parent status s = record s {
  byte0 = released the_parent s.byte0;
  byte1 = released the_parent s.byte1;
  parent_left = [];
  parent_exit = some status;
}

unfoldable pub exit_child : (status : ℕ) → System → System
unfolding released
exit_child status s = record s {
  byte0 = released the_child s.byte0;
  byte1 = released the_child s.byte1;
  child_left = [];
  child_exit = some status;
}

-- The next act of a process that has not exited; behind the last, `return 0`.
unfoldable pub step_parent : System → Option System
unfolding act exit_parent
step_parent s = elim s.parent_exit [
  | some status ↦ none
  | none ↦ elim s.parent_left [
    | [] ↦ some (exit_parent 0 s)
    | ◌∷◌ a acts ↦ elim (act the_parent a s) [
      | none ↦ none
      | some t ↦ some (record t { parent_left = acts })
    ]
  ]
]

unfoldable pub step_child : System → Option System
unfolding act exit_child
step_child s = elim s.child_exit [
  | some status ↦ none
  | none ↦ elim s.child_left [
    | [] ↦ some (exit_child 0 s)
    | ◌∷◌ a acts ↦ elim (act the_child a s) [
      | none ↦ none
      | some t ↦ some (record t { child_left = acts })
    ]
  ]
]

-- The owner of the byte that a process waits for.
abbrev pub owner : System → List Act → Option Side
owner s [] = none
owner s (lock_byte0 ∷ acts) = s.byte0
owner s (lock_byte1 ∷ acts) = s.byte1
owner s (tell ∷ acts) = none
owner s (await ∷ acts) = none

abbrev pub by_each_other : Option Side → Option Side → Bool
by_each_other (some the_child) (some the_parent) = true
by_each_other _ _ = false

-- Each process waits for a byte of the other.
unfoldable pub deadlocked : System → Bool
deadlocked s = by_each_other (owner s s.parent_left) (owner s s.child_left)

-- In a deadlock the F_SETLKW of either process may fail with EDEADLK, and `lockabyte` then exits with
-- -1. For no other reason does it fail here.
unfoldable pub fail_parent : System → Option System
unfolding deadlocked exit_parent
fail_parent s = if deadlocked s then some (exit_parent 255 s) else none

unfoldable pub fail_child : System → Option System
unfolding deadlocked exit_child
fail_child s = if deadlocked s then some (exit_child 255 s) else none

pub data Reach : System → Type 0 where
  here : Reach start
  by_parent : {s t : System} → Reach s → step_parent s ≡ some t → Reach t
  by_child : {s t : System} → Reach s → step_child s ≡ some t → Reach t
  parent_fails : {s t : System} → Reach s → fail_parent s ≡ some t → Reach t
  child_fails : {s t : System} → Reach s → fail_child s ≡ some t → Reach t

-- Each has locked its first byte, and waits for that of the other.
abbrev pub stuck : System
stuck = record {
  byte0 = some the_child;
  byte1 = some the_parent;
  told_parent = false;
  told_child = false;
  parent_left = lock_byte0 ∷ [];
  child_left = lock_byte1 ∷ [];
  parent_exit = none;
  child_exit = none;
}
