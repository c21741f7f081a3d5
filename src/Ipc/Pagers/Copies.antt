-- ===== src/Ipc/Pagers/Copies.antt =====
-- What the pagers of IPC/ pass on.
use Prim.Native.String.{String}
use unix_demos.Base.{
  ℕ, zero, suc, ◌<◌, ◌≢◌, refl, true, false, Bool, none, some, List, [], ◌∷◌, ◌++◌, arith, length,
  ==_of_ne,
}
use unix_demos.Os.{
  Bytes, stdout, close, fork, pipe, waitpid, popen, fopen, fgets, fputs, ferror, pclose, putc,
  fflush, write,
}
use unix_demos.Os.Run.{
  Kernel, returned, exited, run, Reply, Answers, Answers-split, Makes, Makes->>=, Makes-invoke,
}
use unix_demos.Ipc.{maxline}
use unix_demos.Os.Text.{text}
use unix_demos.Ipc.Pagers.{
  copy_lines, pipe_pager, put_lines, popen_pager, prompt, prompt_lines, pipe_filter,
}

-- Each line of the file is written to the pipe, whole.
abbrev pub copied : (fp to : ℕ) → List Bytes → List Reply
copied fp to [] = (fgets fp maxline, none) ∷ []
copied fp to (l ∷ ls) =
    (fgets fp maxline, some l) ∷ (write to (text l), some (length (text l))) ∷ copied fp to ls

-- Each line of the file is given to the stream, which takes it or not.
abbrev pub put : (fpin fpout : ℕ) → List (Bytes × Bool) → List Reply
put fpin fpout [] = (fgets fpin maxline, none) ∷ []
put fpin fpout ((l, taken) ∷ ls) =
    (fgets fpin maxline, some l) ∷ (fputs fpout (text l), taken) ∷ put fpin fpout ls

-- Each line of the pipe is printed behind a prompt, and so is its end.
abbrev pub prompted : (fpin : ℕ) → Bool → List Bytes → List Reply
prompted fpin p [] =
    (fputs stdout prompt, p) ∷ (fflush stdout, tt) ∷ (fgets fpin maxline, none) ∷ []
prompted fpin p (l ∷ ls) =
    (fputs stdout prompt, p)
    ∷ (fflush stdout, tt)
    ∷ (fgets fpin maxline, some l)
    ∷ (fputs stdout (text l), true)
    ∷ prompted fpin p ls

module _ {K : Type 0} (kernel : Kernel K) where
  copy_lines-copied :
      (fp to n : ℕ) (ls : List Bytes) (s : K)
      → Answers kernel s (copied fp to ls)
      → length ls < n
      → Makes kernel (copy_lines n fp to) s (copied fp to ls) (returned tt)
  unfolding run copy_lines
  copy_lines-copied fp to zero ls s a h = absurd (omega arith)
  copy_lines-copied fp to (suc n) [] s a h = record {
    ended = ground (arith, a.0);
    calls = ground (arith, a.0);
    after = ground (arith, a.0);
  }
  copy_lines-copied fp to (suc n) (l ∷ ls) s (a1, (a2, a)) h =
      let ih = copy_lines-copied fp to n ls _ a (omega arith) in
      record {
        ended = ground (arith, a1, a2, ih.ended);
        calls = ground (arith, a1, a2, ih.calls);
        after = ground (arith, a1, a2, ih.after);
      }

  put_lines-put :
      (fpin fpout n : ℕ) (ls : List (Bytes × Bool)) (s : K)
      → Answers kernel s (put fpin fpout ls)
      → length ls < n
      → Makes kernel (put_lines n fpin fpout) s (put fpin fpout ls) (returned tt)
  unfolding run put_lines
  put_lines-put fpin fpout zero ls s a h = absurd (omega arith)
  put_lines-put fpin fpout (suc n) [] s a h = record {
    ended = ground (arith, a.0);
    calls = ground (arith, a.0);
    after = ground (arith, a.0);
  }
  put_lines-put fpin fpout (suc n) ((l, taken) ∷ ls) s (a1, (a2, a)) h =
      let ih = put_lines-put fpin fpout n ls _ a (omega arith) in
      record {
        ended = ground (arith, a1, ih.ended);
        calls = ground (arith, a1, ih.calls);
        after = ground (arith, a1, ih.after);
      }

  prompt_lines-prompted :
      (fpin n : ℕ) (p : Bool) (ls : List Bytes) (s : K)
      → Answers kernel s (prompted fpin p ls)
      → length ls < n
      → Makes kernel (prompt_lines n fpin) s (prompted fpin p ls) (returned tt)
  unfolding run prompt_lines
  prompt_lines-prompted fpin zero p ls s a h = absurd (omega arith)
  prompt_lines-prompted fpin (suc n) p [] s (a1, (a2, (a3, _))) h = record {
    ended = ground (arith, a3);
    calls = ground (arith, a3);
    after = ground (arith, a3);
  }
  prompt_lines-prompted fpin (suc n) p (l ∷ ls) s (a1, (a2, (a3, (a4, a)))) h =
      let ih = prompt_lines-prompted fpin n p ls _ a (omega arith) in
      record {
        ended = ground (arith, a3, a4, ih.ended);
        calls = ground (arith, a3, a4, ih.calls);
        after = ground (arith, a3, a4, ih.after);
      }

  abbrev pub opened : (path : String) → (fp pid : ℕ) → (fd : ℕ × ℕ) → List Reply
  opened path fp pid fd =
      (fopen path, some fp) ∷ (pipe, some fd) ∷ (fork, some pid) ∷ (close fd.0, tt) ∷ []

  -- The parent is done: it closes the pipe before it waits for the child.
  abbrev pub shown : (fp pid pid' : ℕ) → (fd : ℕ × ℕ) → List Reply
  shown fp pid pid' fd = (ferror fp, false) ∷ (close fd.1, tt) ∷ (waitpid pid, some pid') ∷ []

  -- If no call fails and the fork answers in the parent, then pipe_pager with one argument, given
  -- more rounds than lines, writes the lines of the file to the pipe, in order, closes the pipe,
  -- only then waits for the pager, and exits with status 0.
  pub pipe_pager-copied :
      (path : String) (fp pid pid' n : ℕ) (fd : ℕ × ℕ) (ls : List Bytes) (s : K)
      → pid ≢ 0
      → Answers kernel s (opened path fp pid fd ++ (copied fp fd.1 ls ++ shown fp pid pid' fd))
      → length ls < n
      → Makes kernel
          (pipe_pager n (path ∷ []))
          s
          (opened path fp pid fd ++ (copied fp fd.1 ls ++ shown fp pid pid' fd))
          (exited 0)
  unfolding run pipe_pager
  pipe_pager-copied path fp pid pid' n fd ls s parent (a1, (a2, (a3, (a4, a)))) h =
      let (b, (b1, (b2, (b3, _)))) = Answers-split kernel _ (copied fp fd.1 ls) _ a in
      Makes-invoke kernel a1 (
        Makes-invoke kernel a2 (
          Makes-invoke kernel a3 (
            rw (==_of_ne pid 0 parent) (
              Makes-invoke kernel refl (
                Makes->>= kernel _ (copy_lines-copied fp fd.1 n ls _ b h) (record {
                  ended = ground (arith, b1, b3);
                  calls = ground (arith, b1, b3);
                  after = ground (arith, b1, b3);
                }))))))

  -- If the file, the pager and the reads do not fail, then popen_pager, given more rounds than lines,
  -- passes on every line, whatever the stream answers, and returns once the pager is closed.
  pub popen_pager-put :
      (path : String) (fpin fpout n r : ℕ) (ls : List (Bytes × Bool)) (s : K)
      → Answers kernel s (
          (fopen path, some fpin)
          ∷ (popen "${PAGER:-more}", some fpout)
          ∷ (put fpin fpout ls ++ (ferror fpin, false) ∷ (pclose fpout, some r) ∷ []))
      → length ls < n
      → Makes kernel
          (popen_pager n (path ∷ []))
          s
          ((fopen path, some fpin)
            ∷ (popen "${PAGER:-more}", some fpout)
            ∷ (put fpin fpout ls ++ (ferror fpin, false) ∷ (pclose fpout, some r) ∷ []))
          (returned tt)
  unfolding run popen_pager
  popen_pager-put path fpin fpout n r ls s (a1, (a2, a)) h =
      let (b, (b1, (b2, _))) = Answers-split kernel _ (put fpin fpout ls) _ a in
      Makes-invoke kernel a1 (
        Makes-invoke kernel a2 (
          Makes->>= kernel _ (put_lines-put fpin fpout n ls _ b h) (record {
            ended = ground (arith, b1, b2);
            calls = ground (arith, b1, b2);
            after = ground (arith, b1, b2);
          })))

  -- If no call fails but perhaps the printing of the prompt, then pipe_filter, given more rounds than
  -- lines, prints each line of the pipe behind a prompt, and a newline behind the last prompt, and
  -- exits with status 0.
  pub pipe_filter-prompted :
      (fpin n : ℕ) (p q : Bool) (ls : List Bytes) (s : K)
      → Answers kernel s (
          (popen "./myuclc", some fpin)
          ∷ (prompted fpin p ls ++ (ferror fpin, false) ∷ (putc b'\n' stdout, q) ∷ []))
      → length ls < n
      → Makes kernel
          (pipe_filter n)
          s
          ((popen "./myuclc", some fpin)
            ∷ (prompted fpin p ls ++ (ferror fpin, false) ∷ (putc b'\n' stdout, q) ∷ []))
          (exited 0)
  unfolding run pipe_filter
  pipe_filter-prompted fpin n p q ls s (a1, a) h =
      let (b, (b1, (b2, _))) = Answers-split kernel _ (prompted fpin p ls) _ a in
      Makes-invoke kernel a1 (
        Makes->>= kernel _ (prompt_lines-prompted fpin n p ls _ b h) (record {
          ended = ground (arith, b1);
          calls = ground (arith, b1);
          after = ground (arith, b1);
        }))
