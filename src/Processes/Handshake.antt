-- ===== src/Processes/Handshake.antt =====
-- proc_demos/race_cond.c: the parent waits on a pipe until the child has printed its line. Each call is a
-- step of one of the two, in any order; the parent keeps its own end of the pipe for writing open. A
-- read of the pipe is taken not to fail, and only the "p" is ever written to it, so that the two exits
-- of `wait_child` (a failed read, another character) are left out.
use unix_demos.Base.{
  ℕ, ◌≡◌, refl, sym, subst, ap, ◌∙◌, Bool, true, false, Option, none, some, [], ◌∷◌, ◌++◌,
  append-nil, append_assoc, codes, arith, inl, inr, ◌⊎◌,
}
use unix_demos.Os.{Bytes}

-- `charatatime` with what is left to print, `tell_parent`, and the end.
pub data Child : Type 0 where
  putting : (rest : Bytes) → Child
  telling : Child
  exited : Child

-- `wait_child`, `charatatime` with what is left to print, and the end.
pub data Parent : Type 0 where
  waiting : Parent
  putting : (rest : Bytes) → Parent
  exited : Parent

-- What is printed, and whether the pipe holds the "p".
pub record System : Type 0 where
  pub out : Bytes
  pub told : Bool
  pub child : Child
  pub parent : Parent

abbrev pub child_text : Bytes
child_text = codes "output from child\n"

abbrev pub parent_text : Bytes
parent_text = codes "output from parent\n"

-- After `tell_wait` and `fork`.
abbrev pub start : System
start = record { out = []; told = false; child = Child.putting child_text; parent = waiting }

-- `tell_parent`: where the write fails the child exits.
abbrev pub tell_parent : (written : Bool) → System → System
tell_parent true s = record s { told = true; child = Child.exited }
tell_parent false s = record s { child = Child.exited }

-- A step of the child from where it stands.
unfoldable pub child_step : (written : Bool) → Child → System → Option System
child_step written (Child.putting []) s = some (record s { child = telling })
child_step written (Child.putting (c ∷ cs)) s =
    some (record s { out = s.out ++ c ∷ []; child = Child.putting cs })
child_step written telling s = some (tell_parent written s)
child_step written Child.exited s = none

-- `wait_child`: the read blocks while the pipe is empty, as it has a writer.
abbrev pub wait_child : (told : Bool) → System → Option System
wait_child true s = some (record s { told = false; parent = Parent.putting parent_text })
wait_child false s = none

-- A step of the parent.
unfoldable pub parent_step : Parent → System → Option System
parent_step waiting s = wait_child s.told s
parent_step (Parent.putting []) s = some (record s { parent = Parent.exited })
parent_step (Parent.putting (c ∷ cs)) s =
    some (record s { out = s.out ++ c ∷ []; parent = Parent.putting cs })
parent_step Parent.exited s = none

pub data Reach : System → Type 0 where
  here : Reach start
  by_child :
      {s t : System} (written : Bool) → Reach s → child_step written s.child s ≡ some t → Reach t
  by_parent : {s t : System} → Reach s → parent_step s.parent s ≡ some t → Reach t

-- What is printed at each place.
Good : (out : Bytes) → (told : Bool) → Child → Parent → Type 0
Good out told (Child.putting rest) waiting = (told ≡ false) × (out ++ rest ≡ child_text)
Good out told telling waiting = (told ≡ false) × (out ≡ child_text)
Good out told Child.exited waiting = out ≡ child_text
Good out told Child.exited (Parent.putting rest) =
    (told ≡ false) × (out ++ rest ≡ child_text ++ parent_text)
Good out told Child.exited Parent.exited = (told ≡ false) × (out ≡ child_text ++ parent_text)
Good out told (Child.putting rest) (Parent.putting rest') = ⊥
Good out told (Child.putting rest) Parent.exited = ⊥
Good out told telling (Parent.putting rest) = ⊥
Good out told telling Parent.exited = ⊥

abbrev GoodSystem : System → Type 0
GoodSystem s = Good s.out s.told s.child s.parent

abbrev AfterStep : Option System → Type 0
AfterStep none = Unit {0}
AfterStep (some t) = GoodSystem t

moved :
    (out : Bytes) (c : ℕ) (rest : Bytes) {text : Bytes}
    → out ++ c ∷ rest ≡ text
    → (out ++ c ∷ []) ++ rest ≡ text
moved out c rest e = append_assoc out (c ∷ []) rest ∙ e

child_step-Good :
    (written told : Bool) (out : Bytes) (c : Child) (p : Parent)
    → Good out told c p
    → AfterStep (child_step written c (record { out = out; told = told; child = c; parent = p }))
unfolding child_step Good
child_step-Good written told out (Child.putting []) waiting (e, g) = (e, sym (append-nil out) ∙ g)
child_step-Good written told out (Child.putting (c ∷ cs)) waiting (e, g) = (e, moved out c cs g)
child_step-Good true told out telling waiting (e, g) = g
child_step-Good false told out telling waiting (e, g) = g
child_step-Good written told out Child.exited p g = tt
child_step-Good written told out (Child.putting rest) (Parent.putting rest') g = absurd g
child_step-Good written told out (Child.putting rest) Parent.exited g = absurd g
child_step-Good written told out telling (Parent.putting rest) g = absurd g
child_step-Good written told out telling Parent.exited g = absurd g

parent_step-Good :
    (told : Bool) (out : Bytes) (c : Child) (p : Parent)
    → Good out told c p
    → AfterStep (parent_step p (record { out = out; told = told; child = c; parent = p }))
unfolding parent_step Good
parent_step-Good false out c waiting g = tt
parent_step-Good true out (Child.putting rest) waiting (e, g) = absurd (ground (arith, e))
parent_step-Good true out telling waiting (e, g) = absurd (ground (arith, e))
parent_step-Good true out Child.exited waiting g = (refl, ap (λ xs. xs ++ parent_text) g)
parent_step-Good told out Child.exited (Parent.putting []) (e, g) = (e, sym (append-nil out) ∙ g)
parent_step-Good told out Child.exited (Parent.putting (c ∷ cs)) (e, g) = (e, moved out c cs g)
parent_step-Good told out c Parent.exited g = tt
parent_step-Good told out (Child.putting rest) (Parent.putting rest') g = absurd g
parent_step-Good told out telling (Parent.putting rest) g = absurd g

Reach-Good : {s : System} → Reach s → GoodSystem s
unfolding Good
Reach-Good here = (refl, refl)
Reach-Good (by_child {s} written r e) =
    subst AfterStep e (child_step-Good written s.told s.out s.child s.parent (Reach-Good r))
Reach-Good (by_parent {s} r e) =
    subst AfterStep e (parent_step-Good s.told s.out s.child s.parent (Reach-Good r))

-- How a list goes on to another one.
abbrev pub Prefix : Bytes → Bytes → Type 0
Prefix xs ys = (rest : Bytes) × (xs ++ rest ≡ ys)

Good-Prefix :
    (told : Bool) (out : Bytes) (c : Child) (p : Parent)
    → Good out told c p
    → Prefix out (child_text ++ parent_text)
unfolding Good
Good-Prefix told out (Child.putting rest) waiting (e, g) =
    (rest ++ parent_text, sym (append_assoc out rest parent_text) ∙ ap (λ xs. xs ++ parent_text) g)
Good-Prefix told out telling waiting (e, g) = (parent_text, ap (λ xs. xs ++ parent_text) g)
Good-Prefix told out Child.exited waiting g = (parent_text, ap (λ xs. xs ++ parent_text) g)
Good-Prefix told out Child.exited (Parent.putting rest) (e, g) = (rest, g)
Good-Prefix told out Child.exited Parent.exited (e, g) = ([], append-nil out ∙ g)
Good-Prefix told out (Child.putting rest) (Parent.putting rest') g = absurd g
Good-Prefix told out (Child.putting rest) Parent.exited g = absurd g
Good-Prefix told out telling (Parent.putting rest) g = absurd g
Good-Prefix told out telling Parent.exited g = absurd g

-- In every order of the steps of race_cond.c, write errors included, what is printed is a
-- beginning of the line of the child followed by that of the parent.
pub Reach-Prefix : {s : System} → Reach s → Prefix s.out (child_text ++ parent_text)
Reach-Prefix {s} r = Good-Prefix s.told s.out s.child s.parent (Reach-Good r)

-- One of the two can make a step.
abbrev pub Moves : System → Type 0
Moves s =
    ((t : System) × (child_step true s.child s ≡ some t))
    ⊎ ((t : System) × (parent_step s.parent s ≡ some t))

-- Both have ended, and both lines are printed.
abbrev pub Finished : System → Type 0
Finished s =
    (s.child ≡ Child.exited) × (s.parent ≡ Parent.exited) × (s.out ≡ child_text ++ parent_text)

-- The child has ended without a word, and the parent waits for it on the empty pipe.
abbrev pub Forgotten : System → Type 0
Forgotten s =
    (s.child ≡ Child.exited) × (s.parent ≡ waiting) × (s.told ≡ false) × (s.out ≡ child_text)

Good-Moves :
    (told : Bool) (out : Bytes) (c : Child) (p : Parent)
    → Good out told c p
    → let s : System = record { out = out; told = told; child = c; parent = p } in
      Moves s ⊎ (Finished s ⊎ Forgotten s)
unfolding Good child_step parent_step
Good-Moves told out (Child.putting []) p g = inl (inl (_, refl))
Good-Moves told out (Child.putting (c ∷ cs)) p g = inl (inl (_, refl))
Good-Moves told out telling p g = inl (inl (_, refl))
Good-Moves true out Child.exited waiting g = inl (inr (_, refl))
Good-Moves false out Child.exited waiting g = inr (inr (refl, refl, refl, g))
Good-Moves told out Child.exited (Parent.putting []) g = inl (inr (_, refl))
Good-Moves told out Child.exited (Parent.putting (c ∷ cs)) g = inl (inr (_, refl))
Good-Moves told out Child.exited Parent.exited (e, g) = inr (inl (refl, refl, g))

-- In every reachable state of race_cond.c one of the two processes can make a step, or both
-- have ended and the two lines are printed, that of the child first, or the child could not
-- write to the pipe and the parent waits for it for ever.
pub Reach-Moves : {s : System} → Reach s → Moves s ⊎ (Finished s ⊎ Forgotten s)
Reach-Moves {s} r = Good-Moves s.told s.out s.child s.parent (Reach-Good r)
