-- ===== src/Daemon/Name.antt =====
-- The name under which daemon/daemonize.c logs, and the signals of its thread.
use unix_demos.Base.{
  ℕ, ◌≡◌, refl, inl, inr, Bool, false, ◌||◌, List, [], ◌∷◌, ◌++◌, append_assoc, arith, ◌==◌,
  Bool-cases, if◌then◌else◌, length,
}
use unix_demos.Os.{Bytes, sigwait, syslog}
use unix_demos.Os.Run.{Kernel, returned, exited, run}
use unix_demos.Daemon.{command_name, thr_fn, sigterm}

abbrev pub has_slash : Bytes → Bool
has_slash [] = false
has_slash (c ∷ cs) = c == b'/' || has_slash cs

has_slash-append : (xs ys : Bytes) → has_slash (xs ++ ys) ≡ (has_slash xs || has_slash ys)
has_slash-append [] ys = refl
has_slash-append (x ∷ xs) ys = ground (arith, has_slash-append xs ys)

-- The name is a part at the end of the path, with no slash in it.
pub record IsName (path name : Bytes) : Type 0 where
  pub before : Bytes
  pub parts : path ≡ before ++ name
  pub no_slash : has_slash name ≡ false

moved :
    (before mid : Bytes) (c : ℕ) (cs : Bytes) {name : Bytes}
    → IsName ((before ++ (mid ++ c ∷ [])) ++ cs) name
    → IsName (before ++ (mid ++ c ∷ cs)) name
moved before mid c cs is = record {
  before = is.before;
  parts = simp append_assoc at is.parts;
  no_slash = is.no_slash;
}

command_name_rest :
    (before mid cs : Bytes)
    → has_slash mid ≡ false
    → IsName (before ++ (mid ++ cs)) (command_name (mid ++ cs) cs)
unfolding command_name
command_name_rest before mid [] h = record {
  before = before;
  parts = refl;
  no_slash = ground (arith, has_slash-append mid []);
}
command_name_rest before mid (c ∷ cs) h = elim (Bool-cases (c == b'/')) [
  | inl slash ↦
      rw slash (moved before mid c cs (command_name_rest (before ++ (mid ++ c ∷ [])) [] cs refl))
  | inr other ↦
      let rest =
        command_name_rest before (mid ++ c ∷ []) cs
          (ground (arith, has_slash-append mid (c ∷ []))) in
      rw other (rw (append_assoc mid (c ∷ []) cs) at rest)
]

-- The daemon's name is the part of argv[0] behind its last slash.
pub command_name-IsName : (path : Bytes) → IsName path (command_name path path)
command_name-IsName path = command_name_rest [] [] path refl

-- The kernel hands out these signals, one for each wait of the thread.
abbrev pub Delivers : {K : Type 0} → Kernel K → K → List ℕ → Type 0
Delivers kernel s [] = Unit {0}
Delivers kernel s (g ∷ gs) =
    ((kernel sigwait s).0 ≡ (0, g)) × Delivers kernel (kernel syslog (kernel sigwait s).1).1 gs

abbrev pub any_term : List ℕ → Bool
any_term [] = false
any_term (g ∷ gs) = g == sigterm || any_term gs

-- The thread, handed these signals one for each wait, runs through them until the first SIGTERM,
-- which ends the daemon with status 0; without one it comes to the end of its rounds, one for each
-- signal.
pub thr_fn-sigterm :
    {K : Type 0} (kernel : Kernel K) (gs : List ℕ) (s : K)
    → Delivers kernel s gs
    → (run kernel (thr_fn (length gs)) s).ended ≡ (if any_term gs then exited 0 else returned tt)
unfolding run thr_fn
thr_fn-sigterm kernel [] s d = refl
thr_fn-sigterm kernel (g ∷ gs) s d =
    ground (arith, d.0, thr_fn-sigterm kernel gs (kernel syslog (kernel sigwait s).1).1 d.1)
