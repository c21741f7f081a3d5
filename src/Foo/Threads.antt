-- ===== src/Foo/Threads.antt =====
-- The two threads of pthread/pthread_mutex.c over both objects: what their interleavings do.
use unix_demos.Base.{
  ◌≡◌, refl, ◌∙◌, ap, inl, inr, none, some, List, [], ◌∷◌, ◌++◌, arith, take, drop, Option-cases,
}
use unix_demos.Foo.{
  Cell, freed, foo_hold, foo_rele, Op, hold, rele, call, run, Val, foo_val1, foo_val2, Call, Store,
  step, run_all, times, thr_fn1, thr_fn2,
}
use unix_demos.Foo.Interleaving.{Interleaving, stop, left, right}
use unix_demos.Foo.Counting.{counted, script, run-Interleaving}

-- The calls on one of the objects.
unfoldable pub proj : Val → List Call → List Op
proj v [] = []
proj foo_val1 ((foo_val1, op) ∷ cs) = op ∷ proj foo_val1 cs
proj foo_val1 ((foo_val2, op) ∷ cs) = proj foo_val1 cs
proj foo_val2 ((foo_val1, op) ∷ cs) = proj foo_val2 cs
proj foo_val2 ((foo_val2, op) ∷ cs) = op ∷ proj foo_val2 cs

Interleaving-proj :
    (v : Val) {xs ys zs : List Call}
    → Interleaving xs ys zs
    → Interleaving (proj v xs) (proj v ys) (proj v zs)
unfolding proj
Interleaving-proj foo_val1 stop = stop
Interleaving-proj foo_val2 stop = stop
Interleaving-proj foo_val1 (left {a = (foo_val1, op)} il) = left (Interleaving-proj foo_val1 il)
Interleaving-proj foo_val1 (left {a = (foo_val2, op)} il) = Interleaving-proj foo_val1 il
Interleaving-proj foo_val2 (left {a = (foo_val1, op)} il) = Interleaving-proj foo_val2 il
Interleaving-proj foo_val2 (left {a = (foo_val2, op)} il) = left (Interleaving-proj foo_val2 il)
Interleaving-proj foo_val1 (right {a = (foo_val1, op)} il) = right (Interleaving-proj foo_val1 il)
Interleaving-proj foo_val1 (right {a = (foo_val2, op)} il) = Interleaving-proj foo_val1 il
Interleaving-proj foo_val2 (right {a = (foo_val1, op)} il) = Interleaving-proj foo_val2 il
Interleaving-proj foo_val2 (right {a = (foo_val2, op)} il) = right (Interleaving-proj foo_val2 il)

run_all-proj :
    (cs : List Call) (s : Store) (c1 c2 : Cell)
    → run (proj foo_val1 cs) s.at1 ≡ some c1
    → run (proj foo_val2 cs) s.at2 ≡ some c2
    → run_all cs s ≡ some (record { at1 = c1; at2 = c2 })
unfolding run run_all proj step
run_all-proj [] s c1 c2 e1 e2 = ground arith
run_all-proj ((foo_val1, op) ∷ cs) s c1 c2 e1 e2 = elim (Option-cases (call op s.at1)) [
  | inl e ↦ cc (rw (e, run) at e1)
  | inr (c, e) ↦
      rw (e, run_all) (run_all-proj cs (record s { at1 = c }) c1 c2 (rw (e, run) at e1) e2)
]
run_all-proj ((foo_val2, op) ∷ cs) s c1 c2 e1 e2 = elim (Option-cases (call op s.at2)) [
  | inl e ↦ cc (rw (e, run) at e2)
  | inr (c, e) ↦
      rw (e, run_all) (run_all-proj cs (record s { at2 = c }) c1 c2 e1 (rw (e, run) at e2))
]

run-append : (xs ys : List Op) (c d : Cell) → run xs c ≡ some d → run (xs ++ ys) c ≡ run ys d
unfolding run
run-append [] ys c d e = ground arith
run-append (x ∷ xs) ys c d e = elim (Option-cases (call x c)) [
  | inl e' ↦ cc (rw (e', run) at e)
  | inr (c', e') ↦ rw (e', run) (run-append xs ys c' d (rw (e', run) at e))
]

abbrev pub start : Store
start = record { at1 = counted 1 1; at2 = counted 2 1 }

-- The calls of `thr_fn1` up to its first hold of `foo_val2`, and the calls behind that.
abbrev pub first_calls : List Call
first_calls = take 21 thr_fn1

abbrev pub other_calls : List Call
other_calls = drop 21 thr_fn1

-- If thread 1 holds both objects before thread 2 starts, then every interleaving of the rest of
-- thread 1 with thread 2 stays clear of freed memory, and gives both objects back.
pub thr_fn1_first-freed :
    (zs : List Call)
    → Interleaving other_calls thr_fn2 zs
    → run_all (first_calls ++ zs) start ≡ some (record { at1 = freed; at2 = freed })
unfolding thr_fn1 thr_fn2 times proj run call foo_hold script
thr_fn1_first-freed zs il =
    run_all-proj (first_calls ++ zs) start freed freed
      (run-Interleaving 1 {h1 = 0} {r1 = 20} {h2 = 20} {r2 = 21} {n = 21}
        (Interleaving-proj foo_val1 il) refl refl
        (record {
          sum = refl;
          pos = omega arith;
          small = omega arith;
          owes1 = inl (omega arith);
          owes2 = inl (omega arith);
        }))
      (run-Interleaving 2 {h1 = 21} {r1 = 22} {h2 = 22} {r2 = 23} {n = 2}
        (Interleaving-proj foo_val2 il) refl refl
        (record {
          sum = refl;
          pos = omega arith;
          small = omega arith;
          owes1 = inl (omega arith);
          owes2 = inl (omega arith);
        }))

proj-append : (v : Val) (xs ys : List Call) → proj v (xs ++ ys) ≡ proj v xs ++ proj v ys
unfolding proj
proj-append foo_val1 [] ys = refl
proj-append foo_val2 [] ys = refl
proj-append foo_val1 ((foo_val1, op) ∷ xs) ys = ap (λ ops. op ∷ ops) (proj-append foo_val1 xs ys)
proj-append foo_val1 ((foo_val2, op) ∷ xs) ys = proj-append foo_val1 xs ys
proj-append foo_val2 ((foo_val1, op) ∷ xs) ys = proj-append foo_val2 xs ys
proj-append foo_val2 ((foo_val2, op) ∷ xs) ys = ap (λ ops. op ∷ ops) (proj-append foo_val2 xs ys)

-- Where the calls on the second object are at fault, the whole is.
run_all-none :
    (cs : List Call) (s : Store) → run (proj foo_val2 cs) s.at2 ≡ none → run_all cs s ≡ none
unfolding run run_all proj step
run_all-none [] s e = cc
run_all-none ((foo_val1, op) ∷ cs) s e = elim (Option-cases (call op s.at1)) [
  | inl e' ↦ rw (e', run_all)
  | inr (c, e') ↦ rw (e', run_all) (run_all-none cs (record s { at1 = c }) e)
]
run_all-none ((foo_val2, op) ∷ cs) s e = elim (Option-cases (call op s.at2)) [
  | inl e' ↦ rw (e', run_all)
  | inr (c, e') ↦ rw (e', run_all) (run_all-none cs (record s { at2 = c }) (rw (e', run) at e))
]

freed-none : (op : Op) (ops : List Op) → run (op ∷ ops) freed ≡ none
unfolding run call foo_hold foo_rele
freed-none hold ops = refl
freed-none rele ops = refl

-- If thread 2 runs through before thread 1 has made a call for foo_val2, in whatever order with
-- calls of thread 1 for foo_val1, then the calls for foo_val2 up to there stay clear of freed
-- memory and have given it back at their end, and the run is at fault if any call for foo_val2
-- follows.
pub late_hold-none :
    (xs ys : List Call) (op : Op) (cs : List Call)
    → proj foo_val2 xs ≡ []
    → Interleaving xs thr_fn2 ys
    → (run (proj foo_val2 ys) start.at2 ≡ some freed)
      × (run_all (ys ++ (foo_val2, op) ∷ cs) start ≡ none)
unfolding thr_fn2 times proj script
late_hold-none xs ys op cs other il =
    let gone : run (proj foo_val2 ys) start.at2 ≡ some freed =
      run-Interleaving 2 {h1 = 0} {r1 = 0} {h2 = 22} {r2 = 23} {n = 1}
        (Interleaving-proj foo_val2 il) other refl
        (record {
          sum = refl;
          pos = omega arith;
          small = omega arith;
          owes1 = inr (refl, refl);
          owes2 = inl (omega arith);
        }) in
    let fault : run (proj foo_val2 (ys ++ (foo_val2, op) ∷ cs)) start.at2 ≡ none =
      rw (proj-append foo_val2 ys ((foo_val2, op) ∷ cs)) (
        run-append (proj foo_val2 ys) (op ∷ proj foo_val2 cs) start.at2 freed gone
        ∙ freed-none op (proj foo_val2 cs)) in
    (gone, run_all-none (ys ++ (foo_val2, op) ∷ cs) start fault)
