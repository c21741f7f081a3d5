-- ===== src/Examples/Processing.antt =====
-- The theorems on the programs of proc_demos/ at concrete inputs.
use unix_demos.Base.{◌≡◌, refl, true, false, [], ◌∷◌, ◌++◌, codes, arith, ◌⊎◌}
use unix_demos.Os.{fprintf, stdout}
use unix_demos.Os.Run.{returned, run}
use unix_demos.Examples.Kernels.{plain}
use unix_demos.Processes.Status.{Fate, status_of, line, pr_exit, pr_exit-line}
use unix_demos.Processes.Times.{commands, main, main-commands}
use unix_demos.Processes.Handshake.{
  System, Child, child_text, parent_text, child_step, Reach, here, by_child, waiting, Prefix,
  Reach-Prefix, Moves, Finished, Forgotten, Reach-Moves,
}

pr_exit-line_example :
    let d = run plain (pr_exit (status_of (Fate.killed 6 true))) tt in
    (d.ended ≡ returned tt)
    × (d.calls ≡ fprintf stdout (line (Fate.killed 6 true)) ∷ [])
    × (d.after ≡ tt)
pr_exit-line_example = pr_exit-line plain (Fate.killed 6 true) tt (omega arith, omega arith)

main-commands_example :
    commands (run plain (main ("date" ∷ "who" ∷ [])) tt).calls ≡ "date" ∷ "who" ∷ []
unfolding run main pr_exit
main-commands_example = main-commands plain ("date" ∷ "who" ∷ []) tt refl

-- The child has printed its first character.
abbrev after_o : System
after_o = record {
  out = b'o' ∷ [];
  told = false;
  child = Child.putting (codes "utput from child\n");
  parent = waiting;
}

after_o-Reach : Reach after_o
unfolding child_step
after_o-Reach = by_child true here refl

Reach-Prefix_example : Prefix (b'o' ∷ []) (child_text ++ parent_text)
Reach-Prefix_example = Reach-Prefix after_o-Reach

Reach-Moves_example : Moves after_o ⊎ (Finished after_o ⊎ Forgotten after_o)
Reach-Moves_example = Reach-Moves after_o-Reach
