-- ===== src/Signals/Sets.antt =====
-- signal/signal_demo.c and signal/signal_test.c: a signal set is printed, a line for each of its signals.
use unix_demos.Base.{
  ℕ, zero, suc, ◌+◌, ◌≡◌, refl, Bool, true, false, Option, none, some, List, [], ◌∷◌, ◌++◌, ◌==◌,
  if◌then◌else◌, length, digits_of, codes, arith, inl, inr, Bool-cases, append-nil,
}
use unix_demos.Os.{
  Bytes, SigSet, sigfillset, sig_block, sigmask, sigpending, fprintf, stdout, Call, Prog, ret,
  ◌>>=◌, ◌>>◌, sys, skip,
}
use unix_demos.Os.Run.{Kernel, returned, run, and_then, run->>=}

module _ (strsignal : ℕ → Bytes) where
  -- `"%s%d (%s)\n"`
  unfoldable pub signal_line : (prefix : Bytes) (sig : ℕ) → Bytes
  signal_line prefix sig =
      prefix ++ (digits_of (suc sig) sig (codes " (") ++ (strsignal sig ++ codes ")\n"))

  -- The loop of `print_sigset` from `sig` on, `n` rounds of it; the answer is `cnt`.
  unfoldable pub print_members : (of : ℕ) → (prefix : Bytes) → SigSet → (n sig cnt : ℕ) → Prog ℕ
  print_members of prefix sigset zero sig cnt = ret cnt
  print_members of prefix sigset (suc n) sig cnt = elim (sigset sig) [
    | true ↦
        sys (fprintf of (signal_line prefix sig))
        >> print_members of prefix sigset n (sig + 1) (cnt + 1)
    | false ↦ print_members of prefix sigset n (sig + 1) cnt
  ]

  unfoldable pub print_sigset : (of : ℕ) → (prefix : Bytes) → SigSet → Prog (Unit {0})
  unfolding print_members
  print_sigset of prefix sigset = do
    cnt ← print_members of prefix sigset 64 1 0
    if cnt == 0 then sys (fprintf of (prefix ++ codes "<empty signal set>\n")) else skip

  -- `if (msg != NULL) fprintf(of, "%s", msg);`
  abbrev pub print_message : (of : ℕ) → Option Bytes → Prog (Unit {0})
  print_message of none = skip
  print_message of (some msg) = sys (fprintf of msg)

  abbrev pub tabs : Bytes
  tabs = codes "\t\t"

  -- What follows the call that asks for a set: false stands for the answer -1.
  unfoldable pub print_answer : (of : ℕ) → Option SigSet → Prog Bool
  unfolding print_sigset
  print_answer of none = ret false
  print_answer of (some set) = print_sigset of tabs set >> ret true

  unfoldable pub print_sigmask : (of : ℕ) → Option Bytes → Prog Bool
  unfolding print_answer
  print_sigmask of msg = do
    print_message of msg
    curr_mask ← sys (sigmask sig_block none)
    print_answer of curr_mask

  unfoldable pub print_pendingsigs : (of : ℕ) → Option Bytes → Prog Bool
  unfolding print_answer
  print_pendingsigs of msg = do
    print_message of msg
    pending_sigs ← sys sigpending
    print_answer of pending_sigs

  -- signal/signal_test.c
  unfoldable pub signal_test : Prog (Unit {0})
  unfolding print_sigset
  signal_test = print_sigset stdout tabs sigfillset

  -- The members of a set from `sig` on, in order, among `n` signals.
  abbrev pub members : SigSet → (n sig : ℕ) → List ℕ
  members sigset zero sig = []
  members sigset (suc n) sig =
      let rest = members sigset n (sig + 1) in if sigset sig then sig ∷ rest else rest

  abbrev pub lines : (of : ℕ) → (prefix : Bytes) → List ℕ → List Call
  lines of prefix [] = []
  lines of prefix (sig ∷ sigs) = fprintf of (signal_line prefix sig) ∷ lines of prefix sigs

  -- The lines for the members, or the one for the empty set.
  abbrev pub report : (of : ℕ) → (prefix : Bytes) → List ℕ → List Call
  report of prefix [] = fprintf of (prefix ++ codes "<empty signal set>\n") ∷ []
  report of prefix (sig ∷ sigs) = lines of prefix (sig ∷ sigs)

  module _ {K : Type 0} (kernel : Kernel K) (of : ℕ) (prefix : Bytes) (sigset : SigSet) where
    print_members-lines :
        (n sig cnt : ℕ) (s : K)
        → let d = run kernel (print_members of prefix sigset n sig cnt) s in
          let sigs = members sigset n sig in
          (d.ended ≡ returned (cnt + length sigs)) × (d.calls ≡ lines of prefix sigs)
    unfolding run print_members
    print_members-lines zero sig cnt s = (ground arith, refl)
    print_members-lines (suc n) sig cnt s = elim (Bool-cases (sigset sig)) [
      | inl e ↦
          let (a, b) =
            print_members-lines n (sig + 1) (cnt + 1)
              (kernel (fprintf of (signal_line prefix sig)) s).1 in
          (ground (arith, e, a), ground (arith, e, b))
      | inr e ↦
          let (a, b) = print_members-lines n (sig + 1) cnt s in
          (ground (arith, e, a), ground (arith, e, b))
    ]

    -- What `print_sigset` does after its loop.
    abbrev finish : ℕ → Prog (Unit {0})
    finish cnt =
        if cnt == 0 then sys (fprintf of (prefix ++ codes "<empty signal set>\n")) else skip

    finish-report :
        (p : Prog ℕ) (sigs : List ℕ) (s : K)
        → (run kernel p s).ended ≡ returned (0 + length sigs)
        → (run kernel p s).calls ≡ lines of prefix sigs
        → let d = run kernel (p >>= finish) s in
          (d.ended ≡ returned tt) × (d.calls ≡ report of prefix sigs)
    unfolding run and_then
    finish-report p [] s a b = (
      ground (arith, run->>= kernel p finish s, a),
      ground (arith, run->>= kernel p finish s, a, b),
    )
    finish-report p (sig ∷ sigs) s a b = (
      ground (arith, run->>= kernel p finish s, a),
      ground (arith, run->>= kernel p finish s, a, b, append-nil (lines of prefix (sig ∷ sigs))),
    )

    -- print_sigset prints one line for each signal of the set, in order, or the line for the empty
    -- set, and returns.
    pub print_sigset-report :
        (s : K)
        → let d = run kernel (print_sigset of prefix sigset) s in
          (d.ended ≡ returned tt) × (d.calls ≡ report of prefix (members sigset 64 1))
    unfolding print_sigset
    print_sigset-report s =
        let (a, b) = print_members-lines 64 1 0 s in
        finish-report (print_members of prefix sigset 64 1 0) (members sigset 64 1) s a b
