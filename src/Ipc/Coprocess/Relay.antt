-- ===== src/Ipc/Coprocess/Relay.antt =====
-- What the parent of IPC/coprocess.c passes on.
use unix_demos.Base.{
  ℕ, zero, suc, ◌<◌, ◌≡◌, refl, true, false, none, some, List, [], ◌∷◌, ◌++◌, arith, length,
}
use unix_demos.Os.{Bytes, close, fgets, fputs, ferror, read, write, stdin, stdout}
use unix_demos.Os.Run.{
  Kernel, returned, exited, crashed, run, Reply, Answers, Answers-split, Makes, Makes->>=,
  Makes-invoke,
}
use unix_demos.Ipc.{maxline}
use unix_demos.Os.Text.{text}
use unix_demos.Ipc.Coprocess.{relay, parent}

-- A line that is typed, and the first byte of the reply and the others.
pub record Exchange : Type 0 where
  pub line : Bytes
  pub first : ℕ
  pub others : Bytes

abbrev pub reply : Exchange → Bytes
reply x = x.first ∷ x.others

-- The calls for these exchanges, all successful, and the end of the input.
abbrev pub talk : (to from : ℕ) → List Exchange → List Reply
talk to from [] = (fgets stdin maxline, none) ∷ []
talk to from (x ∷ xs) =
    (fgets stdin maxline, some x.line)
    ∷ (write to (text x.line), some (length (text x.line)))
    ∷ (read from maxline, some (reply x))
    ∷ (fputs stdout (text (reply x)), true)
    ∷ talk to from xs

-- Each reply leaves room for the NUL behind it.
abbrev pub Fit : List Exchange → Type 0
Fit [] = Unit {0}
Fit (x ∷ xs) = (length (reply x) < maxline) × Fit xs

module _ {K : Type 0} (kernel : Kernel K) (to from : ℕ) where
  relay-talk :
      (xs : List Exchange) (n : ℕ) (s : K)
      → Answers kernel s (talk to from xs)
      → Fit xs
      → length xs < n
      → Makes kernel (relay n to from) s (talk to from xs) (returned tt)
  unfolding run relay
  relay-talk xs zero s a fit h = absurd (omega arith)
  relay-talk [] (suc n) s a fit h = record {
    ended = ground (arith, a.0);
    calls = ground (arith, a.0);
    after = ground (arith, a.0);
  }
  relay-talk (x ∷ xs) (suc n) s (a1, (a2, (a3, (a4, a)))) (fit1, fit) h =
      let ih = relay-talk xs n _ a fit (omega arith) in
      record {
        ended = ground (arith, a1, a2, a3, a4, fit1, ih.ended);
        calls = ground (arith, a1, a2, a3, a4, fit1, ih.calls);
        after = ground (arith, a1, a2, a3, a4, fit1, ih.after);
      }

  -- If the replies leave room for a NUL in the line and no call fails, then the parent of
  -- coprocess.c, given more rounds than lines, closes the two ends that it does not use, sends
  -- each line and prints its reply before the next line is read, and exits with status 0.
  pub parent-talk :
      (other1 other2 n : ℕ) (xs : List Exchange) (s : K)
      → Answers kernel s (
          (close other1, tt) ∷ (close other2, tt) ∷ (talk to from xs ++ (ferror stdin, false) ∷ []))
      → Fit xs
      → length xs < n
      → Makes kernel
          (parent n (other1, to) (from, other2))
          s
          ((close other1, tt)
            ∷ (close other2, tt)
            ∷ (talk to from xs ++ (ferror stdin, false) ∷ []))
          (exited 0)
  unfolding run parent
  parent-talk other1 other2 n xs s (a1, (a2, a)) fit h =
      let (b, (b', _)) = Answers-split kernel _ (talk to from xs) _ a in
      Makes-invoke kernel refl (
        Makes-invoke kernel refl (
          Makes->>= kernel _ (relay-talk xs n _ b fit h) (record {
            ended = ground (arith, b');
            calls = ground (arith, b');
            after = ground (arith, b');
          })))

  -- If a line is sent whole, a reply of MAXLINE bytes makes the parent of coprocess.c write behind
  -- the end of its array.
  pub relay-crashed :
      (n : ℕ) (s : K) (x : Exchange)
      → Answers kernel s (
          (fgets stdin maxline, some x.line)
          ∷ (write to (text x.line), some (length (text x.line)))
          ∷ (read from maxline, some (reply x))
          ∷ [])
      → length (reply x) ≡ maxline
      → (run kernel (relay (suc n) to from) s).ended ≡ crashed
  unfolding run relay
  relay-crashed n s x (a1, (a2, (a3, a))) full = ground (arith, a1, a2, a3, full)
