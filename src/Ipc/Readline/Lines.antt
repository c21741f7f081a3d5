-- ===== src/Ipc/Readline/Lines.antt =====
-- Which lines `readline` of IPC/fifo_demo.c gives, and which characters it loses.
use unix_demos.Base.{
  ℕ, zero, suc, ◌+◌, ◌-◌, ◌≤◌, ◌<◌, ◌≡◌, Bool, false, ◌||◌, Option, none, some, List, [], ◌∷◌, ◌++◌,
  ◌==◌, length, arith, append-nil, append_assoc, length-append, Bool-cases, inl, inr,
}
use unix_demos.Os.{Bytes, read}
use unix_demos.Os.Run.{
  read_cases, Kernel, returned, run, Reply, Answers, Makes, Makes-invoke, Makes-ret,
}
use unix_demos.Ipc.Readline.{read_loop, readline}

-- One character a read, and then another answer.
abbrev pub reads : (fd : ℕ) → Bytes → Bytes → List Reply
reads fd [] last = (read fd 1, some last) ∷ []
reads fd (c ∷ cs) last = (read fd 1, some (c ∷ [])) ∷ reads fd cs last

abbrev pub has_newline : Bytes → Bool
has_newline [] = false
has_newline (c ∷ cs) = c == b'\n' || has_newline cs

module _ {K : Type 0} (kernel : Kernel K) (fd : ℕ) where
  read_loop-reads :
      (room left : ℕ) (front cs last : Bytes) (s : K) (r : Option Bytes)
      → has_newline cs ≡ false
      → room ≡ length cs + left
      → Answers kernel s (reads fd cs last)
      → ((t : K)
          → (kernel (read fd 1) t).0 ≡ some last
          → Makes kernel
              (read_loop fd left (front ++ cs))
              t
              ((read fd 1, some last) ∷ [])
              (returned r))
      → Makes kernel (read_loop fd room front) s (reads fd cs last) (returned r)
  unfolding read_loop
  read_loop-reads room left front [] last s r clean fit a final =
      let same : room ≡ left = omega arith in rw same (rw append-nil at (final s a.0))
  read_loop-reads zero left front (c ∷ cs) last s r clean fit a final = absurd (omega arith)
  read_loop-reads (suc room) left front (c ∷ cs) last s r clean fit (a1, a) final =
      let no : (c == b'\n') ≡ false = ground arith in
      let clean' : has_newline cs ≡ false = ground arith in
      Makes-invoke kernel a1 (
        rw no (
          read_loop-reads room left (front ++ c ∷ []) cs last _ r clean' (omega arith) a
            (λ t e. rw (append_assoc front (c ∷ []) cs) (final t e))))

  at_end :
      (left : ℕ) (front : Bytes) (t : K)
      → (kernel (read fd 1) t).0 ≡ some []
      → Makes kernel (read_loop fd left front) t ((read fd 1, some []) ∷ []) (returned none)
  unfolding read_loop
  at_end zero front t e = Makes-invoke kernel e (Makes-ret kernel)
  at_end (suc left) front t e = Makes-invoke kernel e (Makes-ret kernel)

  -- Characters other than a newline, read one by one, and a newline that leaves room for a NUL are
  -- what readline answers, and no more is read.
  pub readline-newline :
      (size : ℕ) (cs : Bytes) (s : K)
      → has_newline cs ≡ false
      → length cs + 1 < size
      → Answers kernel s (reads fd cs (b'\n' ∷ []))
      → Makes kernel
          (readline fd size)
          s
          (reads fd cs (b'\n' ∷ []))
          (returned (some (cs ++ b'\n' ∷ [])))
  unfolding readline read_loop
  readline-newline size cs s clean fit a =
      read_loop-reads (size - 1) (suc (size - length cs - 2)) [] cs _ s _ clean (omega arith) a
        (λ t e. Makes-invoke kernel e (Makes-ret kernel))

  -- If characters other than a newline fill the buffer of readline but for the NUL, then the next
  -- character is read, whatever it is, and is not in the answer.
  pub readline-full :
      (size c : ℕ) (cs : Bytes) (s : K)
      → has_newline cs ≡ false
      → length cs + 1 ≡ size
      → Answers kernel s (reads fd cs (c ∷ []))
      → Makes kernel (readline fd size) s (reads fd cs (c ∷ [])) (returned (some cs))
  unfolding readline read_loop
  readline-full size c cs s clean full a =
      read_loop-reads (size - 1) 0 [] cs _ s _ clean (omega arith) a
        (λ t e. Makes-invoke kernel e (Makes-ret kernel))

  -- If characters other than a newline, with room for them and a NUL, stand in front of the end of
  -- the input, then readline reads them and answers NULL.
  pub readline-end :
      (size : ℕ) (cs : Bytes) (s : K)
      → has_newline cs ≡ false
      → length cs < size
      → Answers kernel s (reads fd cs [])
      → Makes kernel (readline fd size) s (reads fd cs []) (returned none)
  unfolding readline read_loop
  readline-end size cs s clean fit a =
      read_loop-reads (size - 1) (size - length cs - 1) [] cs _ s _ clean (omega arith) a
        (at_end _ _)

  read_loop-length :
      (room : ℕ) (front : Bytes) (s : K) {t : Bytes}
      → (run kernel (read_loop fd room front) s).ended ≡ returned (some t)
      → length t ≤ length front + room
  unfolding run read_loop
  read_loop-length zero front s {t} e = elim (read_cases (kernel (read fd 1) s).0) [
    | inl e1 ↦ absurd (ground (arith, e1))
    | inr (inl e1) ↦ absurd (ground (arith, e1))
    | inr (inr (c, cs, e1)) ↦ ground (arith, e1)
  ]
  read_loop-length (suc room) front s {t} e = elim (read_cases (kernel (read fd 1) s).0) [
    | inl e1 ↦ absurd (ground (arith, e1))
    | inr (inl e1) ↦ absurd (ground (arith, e1))
    | inr (inr (c, cs, e1)) ↦
        let ih = read_loop-length room (front ++ c ∷ []) (kernel (read fd 1) s).1 {t = t} in
        elim (Bool-cases (c == b'\n')) [
          | inl nl ↦ ground (arith, e1, nl, length-append front (c ∷ []))
          | inr other ↦ ground (arith, e1, other, ih, length-append front (c ∷ []))
        ]
  ]

  -- Whatever is read, the line that readline answers and its NUL stay in the buffer, if that is
  -- not empty.
  pub readline-length :
      (size : ℕ) (s : K) {t : Bytes}
      → 0 < size
      → (run kernel (readline fd size) s).ended ≡ returned (some t)
      → length t < size
  unfolding readline
  readline-length size s pos e = omega (arith, read_loop-length (size - 1) [] s e)
