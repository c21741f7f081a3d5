-- ===== src/Ipc/Lower.antt =====
-- IPC/myuclc.c: what is typed, in small letters.
use unix_demos.Base.{
  ℕ, zero, suc, ◌+◌, ◌<◌, ◌≡◌, Bool, true, false, ◌&&◌, none, some, List, [], ◌∷◌, ◌==◌, leb,
  if◌then◌else◌, length, arith, inl, inr, Bool-cases,
}
use unix_demos.Os.{
  Bytes, stdin, stdout, getc, putc, fflush, Prog, exit, ◌>>=◌, ◌>>◌, sys, skip, exit_failure,
}
use unix_demos.Os.Run.{Kernel, exited, run, Reply, Answers, Makes}

-- `isupper` and `tolower`, in the C locale.
unfoldable pub isupper : ℕ → Bool
isupper c = leb b'A' c && leb c b'Z'

unfoldable pub tolower : ℕ → ℕ
unfolding isupper
tolower c = if isupper c then c + 32 else c

unfoldable pub lower : ℕ → ℕ
unfolding tolower isupper
lower c = if isupper c then tolower c else c

-- At most `n` characters.
unfoldable pub main : ℕ → Prog (Unit {0})
unfolding lower
main zero = skip
main (suc n) = do
  got ← sys (getc stdin)
  elim got [
    | none ↦ exit 0
    | some c ↦ do
      printed ← sys (putc (lower c) stdout)
      if printed then skip else exit_failure
      if lower c == b'\n' then sys (fflush stdout) else skip
      main n
  ]

abbrev pub lowered : Bytes → List Reply
lowered [] = (getc stdin, none) ∷ []
lowered (c ∷ cs) =
    if c == b'\n'
    then (getc stdin, some c) ∷ (putc (lower c) stdout, true) ∷ (fflush stdout, tt) ∷ lowered cs
    else (getc stdin, some c) ∷ (putc (lower c) stdout, true) ∷ lowered cs

lower-newline : (c : ℕ) → (lower c == b'\n') ≡ (c == b'\n')
unfolding lower tolower isupper
lower-newline c = ground arith

-- `lower` leaves no capital and is the identity but for the 26 of them.
pub lower-isupper :
    (c : ℕ)
    → (isupper (lower c) ≡ false) × (isupper c ≡ false → lower c ≡ c) × (lower (lower c) ≡ lower c)
unfolding lower tolower isupper
lower-isupper c = (ground arith, λ h. ground arith, ground arith)

-- If no call fails, the program, given more rounds than characters, prints the small letter of each
-- character before it reads the next one, flushes behind each newline, and exits with status 0 at
-- the end of the input.
pub main-lowered :
    {K : Type 0} (kernel : Kernel K) (n : ℕ) (cs : Bytes) (s : K)
    → Answers kernel s (lowered cs)
    → length cs < n
    → Makes kernel (main n) s (lowered cs) (exited 0)
unfolding run main
main-lowered kernel zero cs s a h = absurd (omega arith)
main-lowered kernel (suc n) [] s a h = record {
  ended = ground (arith, a.0);
  calls = ground (arith, a.0);
  after = ground (arith, a.0);
}
main-lowered kernel (suc n) (c ∷ cs) s a h = elim (Bool-cases (c == b'\n')) [
  | inl e ↦
      let (a1, (a2, (a3, b))) = rw e at a in
      let ih = main-lowered kernel n cs _ b (omega arith) in
      record {
        ended = ground (arith, e, a1, a2, lower-newline c, ih.ended);
        calls = ground (arith, e, a1, a2, lower-newline c, ih.calls);
        after = ground (arith, e, a1, a2, lower-newline c, ih.after);
      }
  | inr e ↦
      let (a1, (a2, b)) = rw e at a in
      let ih = main-lowered kernel n cs _ b (omega arith) in
      record {
        ended = ground (arith, e, a1, a2, lower-newline c, ih.ended);
        calls = ground (arith, e, a1, a2, lower-newline c, ih.calls);
        after = ground (arith, e, a1, a2, lower-newline c, ih.after);
      }
]
