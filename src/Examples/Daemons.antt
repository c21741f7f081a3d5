-- ===== src/Examples/Daemons.antt =====
-- daemon/daemonize.c against concrete kernels.
use unix_demos.Base.{
  ℕ, Option, zero, suc, ◌<◌, ◌≡◌, refl, Bool, true, false, not, ◌&&◌, ◌||◌, List, [], ◌∷◌, ◌++◌,
  arith, ◌==◌, ltb, ◌⊎◌,
}
use unix_demos.Os.{Errno, eacces, eagain, ◌>>◌}
use unix_demos.Os.Run.{returned, run}
use unix_demos.Os.Trace.{trace}
use unix_demos.Daemon.{main, daemonize, detach, close_all, attach, already_running}
use unix_demos.Daemon.Sequence.{
  bound, detach_replies, close_replies, attach_replies, daemonize-calls,
}
use unix_demos.Daemon.Descriptors.{Lowest, Descriptors, close_all-attach}
use unix_demos.Daemon.Lock.{refused_replies, locked_replies, already_running-calls}
use unix_demos.Daemon.Startup.{signal_replies, log_replies, main-calls}
use unix_demos.Examples.Kernels.{plain, table_kernel, free_at, lowest, take_lowest}

daemonize-returned : (run table_kernel daemonize []).ended ≡ returned tt
unfolding run daemonize detach close_all attach
daemonize-returned = refl

daemonize-calls_example :
    (rlim_max : Option ℕ) × (changed : ℕ) × (trace table_kernel daemonize []
      ≡ detach_replies rlim_max changed ++ (close_replies (bound rlim_max) 0 ++ attach_replies))
daemonize-calls_example = daemonize-calls table_kernel [] daemonize-returned

taken : List Bool → ℕ → Bool
taken [] j = false
taken (b ∷ bs) zero = b
taken (b ∷ bs) (suc j) = taken bs j

taken-free_at : (s : List Bool) (fd j : ℕ) → taken (free_at s fd) j ≡ (not (j == fd) && taken s j)
unfolding taken
taken-free_at [] fd j = ground arith
taken-free_at (b ∷ bs) zero zero = refl
taken-free_at (b ∷ bs) zero (suc j) = ground arith
taken-free_at (b ∷ bs) (suc fd) zero = ground arith
taken-free_at (b ∷ bs) (suc fd) (suc j) = ground (arith, taken-free_at bs fd j)

lowest-free : (s : List Bool) → taken s (lowest s) ≡ false
unfolding taken
lowest-free [] = refl
lowest-free (false ∷ bs) = refl
lowest-free (true ∷ bs) = lowest-free bs

lowest-taken : (s : List Bool) (m : ℕ) → m < lowest s → taken s m ≡ true
unfolding taken
lowest-taken [] m h = absurd (omega arith)
lowest-taken (false ∷ bs) m h = absurd (omega arith)
lowest-taken (true ∷ bs) zero h = refl
lowest-taken (true ∷ bs) (suc m) h = lowest-taken bs m (omega arith)

taken-take_lowest : (s : List Bool) (j : ℕ) → taken (take_lowest s) j ≡ (j == lowest s || taken s j)
unfolding taken
taken-take_lowest [] zero = refl
taken-take_lowest [] (suc j) = ground arith
taken-take_lowest (false ∷ bs) zero = refl
taken-take_lowest (false ∷ bs) (suc j) = ground arith
taken-take_lowest (true ∷ bs) zero = ground arith
taken-take_lowest (true ∷ bs) (suc j) = ground (arith, taken-take_lowest bs j)

lowest-Lowest : (s : List Bool) → Lowest (taken s) (taken (take_lowest s)) (lowest s)
lowest-Lowest s = record {
  free = lowest-free s;
  lowest = lowest-taken s;
  taken = taken-take_lowest s;
}

table : Descriptors table_kernel
table = record {
  fds = taken;
  closes = taken-free_at;
  opens = λ s path. (lowest s, refl, lowest-Lowest s);
  dups = λ s fd e. (lowest s, refl, lowest-Lowest s);
  logs = λ s j. refl;
}

abbrev four_open : List Bool
four_open = true ∷ true ∷ false ∷ true ∷ []

four_open_within : (j : ℕ) → taken four_open j ≡ true → j < 8
unfolding taken
four_open_within (suc (suc (suc (suc (suc j))))) e = absurd (ground arith)
four_open_within (suc (suc (suc (suc zero)))) e = omega arith
four_open_within (suc (suc (suc zero))) e = omega arith
four_open_within (suc (suc zero)) e = omega arith
four_open_within (suc zero) e = omega arith
four_open_within zero e = omega arith

close_all-attach_example :
    ((run table_kernel (close_all 8 0 >> attach) four_open).ended ≡ returned tt)
    × ((j : ℕ) → taken (run table_kernel (close_all 8 0 >> attach) four_open).after j ≡ ltb j 3)
unfolding table taken
close_all-attach_example = close_all-attach table_kernel table 8 four_open four_open_within

already_running-returned : (run plain already_running tt).ended ≡ returned 0
unfolding run already_running
already_running-returned = refl

already_running-calls_example :
    ((◌≡◌ {A = ℕ} 0 1)
      × ((fd : ℕ) × (e : Errno) × ((e ≡ eacces) ⊎ (e ≡ eagain))
          × (trace plain already_running tt ≡ refused_replies fd e)))
    ⊎ ((◌≡◌ {A = ℕ} 0 0)
        × ((fd x : ℕ) × (cut : Option ℕ) × (pid : ℕ) × (written : Option ℕ) × (trace plain
                already_running tt
              ≡ locked_replies fd x cut pid written)))
already_running-calls_example = already_running-calls plain tt already_running-returned

main-returned : (run table_kernel main []).ended ≡ returned tt
unfolding run main daemonize detach close_all attach already_running
main-returned = refl

main-calls_example :
    (rlim_max : Option ℕ) × (changed fd x : ℕ) × (cut : Option ℕ) × (pid : ℕ) × (written : Option ℕ)
    × (err : ℕ) × (trace table_kernel main []
        ≡ (detach_replies rlim_max changed ++ (close_replies (bound rlim_max) 0 ++ attach_replies))
          ++ (locked_replies fd x cut pid written ++ (signal_replies err ++ log_replies err)))
main-calls_example = main-calls table_kernel [] main-returned
