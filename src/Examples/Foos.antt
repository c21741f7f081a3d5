-- ===== src/Examples/Foos.antt =====
-- pthread/pthread_mutex.c at concrete interleavings.
use unix_demos.Base.{◌≡◌, refl, none, some, List, [], ◌∷◌, ◌++◌}
use unix_demos.Foo.{run, freed, hold, foo_val1, foo_val2, run_all, thr_fn2, Call}
use unix_demos.Foo.Interleaving.{Interleaving, left, right, stop}
use unix_demos.Foo.Threads.{
  proj, first_calls, other_calls, start, thr_fn1_first-freed, late_hold-none,
}

one_after_other : (xs ys : List Call) → Interleaving xs ys (xs ++ ys)
one_after_other [] [] = stop
one_after_other [] (y ∷ ys) = right (one_after_other [] ys)
one_after_other (x ∷ xs) ys = left (one_after_other xs ys)

thr_fn1_first-freed_example :
    run_all (first_calls ++ (other_calls ++ thr_fn2)) start
    ≡ some (record { at1 = freed; at2 = freed })
thr_fn1_first-freed_example =
    thr_fn1_first-freed (other_calls ++ thr_fn2) (one_after_other other_calls thr_fn2)

-- Thread 1 has taken two references of foo_val1.
abbrev two_holds : List Call
two_holds = (foo_val1, hold) ∷ (foo_val1, hold) ∷ []

late_hold-none_example :
    (run (proj foo_val2 (two_holds ++ thr_fn2)) start.at2 ≡ some freed)
    × (run_all ((two_holds ++ thr_fn2) ++ (foo_val2, hold) ∷ []) start ≡ none)
unfolding proj
late_hold-none_example =
    late_hold-none two_holds (two_holds ++ thr_fn2) hold [] refl (one_after_other two_holds thr_fn2)
