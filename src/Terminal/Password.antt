-- ===== src/Terminal/Password.antt =====
-- What term_io/getpass_demo.c keeps of a password, and how it leaves the terminal.
use unix_demos.Base.{
  ℕ, zero, suc, ◌+◌, ◌-◌, ◌≤◌, ◌<◌, ◌≡◌, refl, sym, ◌∙◌, ap, Bool, true, false, not, ◌&&◌, some,
  List, [], ◌∷◌, ◌++◌, ◌==◌, ltb, length, take, arith, append-nil, append_assoc, length-append,
}
use unix_demos.Os.{
  Bytes, Termios, sig_block, sig_setmask, setbuf, getc, putc, fputs, fclose, fopen_terminal,
  tcgetattr, tcsetattr, sigprocmask,
}
use unix_demos.Os.Run.{
  Kernel, returned, Reply, Answers, Answers-split, Makes, Makes->>=, Makes-invoke, Makes-ret,
}
use unix_demos.Os.Text.{zeros, no_nul}
use unix_demos.Terminal.{
  max_pass_len, blocked, no_echo, keep, ends, read_chars, array, getpass, wipe,
}

abbrev pub typed : (fp : ℕ) → Bytes → List Reply
typed fp [] = (getc fp, some b'\n') ∷ []
typed fp (c ∷ cs) = (getc fp, some c) ∷ typed fp cs

abbrev pub no_end : Bytes → Bool
no_end [] = true
no_end (c ∷ cs) = not (ends c) && no_end cs

keeps : Bytes → Bytes → Bytes
unfolding keep
keeps buf [] = buf
keeps buf (c ∷ cs) = keeps (keep buf c) cs

keeps-take :
    (left : ℕ) (buf cs : Bytes)
    → length buf + left ≡ max_pass_len
    → keeps buf cs ≡ buf ++ take left cs
unfolding keeps keep
keeps-take zero buf [] e = sym (append-nil buf)
keeps-take (suc left) buf [] e = sym (append-nil buf)
keeps-take zero buf (c ∷ cs) e =
    let full : ltb (length buf) max_pass_len ≡ false = ground arith in
    rw full (keeps-take zero buf cs e)
keeps-take (suc left) buf (c ∷ cs) e =
    let room : ltb (length buf) max_pass_len ≡ true = ground arith in
    rw room (
      keeps-take left (buf ++ c ∷ []) cs (ground (arith, length-append buf (c ∷ [])))
      ∙ append_assoc buf (c ∷ []) (take left cs))

module _ {K : Type 0} (kernel : Kernel K) where
  read_chars-typed :
      (n fp : ℕ) (buf cs : Bytes) (s : K)
      → no_end cs ≡ true
      → length cs < n
      → Answers kernel s (typed fp cs)
      → Makes kernel (read_chars n fp buf) s (typed fp cs) (returned (keeps buf cs))
  unfolding read_chars keeps
  read_chars-typed zero fp buf cs s clean h a = absurd (omega arith)
  read_chars-typed (suc n) fp buf [] s clean h a = Makes-invoke kernel a.0 (Makes-ret kernel)
  read_chars-typed (suc n) fp buf (c ∷ cs) s clean h (a1, a) =
      let go : ends c ≡ false = ground arith in
      let clean' : no_end cs ≡ true = ground arith in
      Makes-invoke kernel a1
        (rw go (read_chars-typed n fp (keep buf c) cs _ clean' (omega arith) a))

  abbrev pub silenced : (fp : ℕ) → (osig : List ℕ) → Termios → (prompt : Bytes) → Bool → List Reply
  silenced fp osig ts prompt p =
      (fopen_terminal, some fp)
      ∷ (setbuf fp, tt)
      ∷ (sigprocmask sig_block blocked, osig)
      ∷ (tcgetattr fp, some ts)
      ∷ (tcsetattr fp (no_echo ts), tt)
      ∷ (fputs fp prompt, p)
      ∷ []

  abbrev pub restored : (fp : ℕ) → (osig mask : List ℕ) → Termios → Bool → List Reply
  restored fp osig mask ts p =
      (putc b'\n' fp, p)
      ∷ (tcsetattr fp ts, tt)
      ∷ (sigprocmask sig_setmask osig, mask)
      ∷ (fclose fp, tt)
      ∷ []

  -- If the terminal can be opened and asked for its settings, and characters other than a
  -- newline and 255, fewer than the rounds, are typed and a newline, then getpass answers the
  -- first eight of them; before the first is read, the echo is off and SIGINT and SIGTSTP are
  -- blocked, and at the end the settings and the mask are again what they were.
  pub getpass-take :
      (n fp : ℕ) (prompt cs : Bytes) (osig mask : List ℕ) (ts : Termios) (p q : Bool) (s : K)
      → no_end cs ≡ true
      → length cs < n
      → Answers kernel s
          (silenced fp osig ts prompt p ++ (typed fp cs ++ restored fp osig mask ts q))
      → Makes kernel
          (getpass n prompt)
          s
          (silenced fp osig ts prompt p ++ (typed fp cs ++ restored fp osig mask ts q))
          (returned (some (array (take max_pass_len cs))))
  unfolding getpass
  getpass-take n fp prompt cs osig mask ts p q s clean h (a1, (a2, (a3, (a4, (a5, (a6, a)))))) =
      let (b, (b1, (b2, (b3, (b4, _))))) = Answers-split kernel _ (typed fp cs) _ a in
      Makes-invoke kernel a1 (
        Makes-invoke kernel a2 (
          Makes-invoke kernel a3 (
            Makes-invoke kernel a4 (
              Makes-invoke kernel a5 (
                Makes-invoke kernel a6 (
                  Makes->>= kernel _
                    (rw (keeps-take max_pass_len [] cs refl) at
                      (read_chars-typed n fp [] cs _ clean h b))
                    (Makes-invoke kernel b1 (
                      Makes-invoke kernel b2
                        (Makes-invoke kernel b3 (Makes-invoke kernel b4 (Makes-ret kernel)))))))))))

wipe-zeros :
    (cs : Bytes) (n m : ℕ) → no_nul cs ≡ true → length cs + n ≡ m → wipe (cs ++ zeros n) ≡ zeros m
unfolding wipe zeros
wipe-zeros [] zero zero clean e = refl
wipe-zeros [] zero (suc m) clean e = absurd (omega arith)
wipe-zeros [] (suc n) zero clean e = absurd (omega arith)
wipe-zeros [] (suc n) (suc m) clean e = let same : n ≡ m = omega arith in ap (λ k. 0 ∷ zeros k) same
wipe-zeros (c ∷ cs) n zero clean e = absurd (omega arith)
wipe-zeros (c ∷ cs) n (suc m) clean e =
    let other : (c == 0) ≡ false = ground arith in
    let clean' : no_nul cs ≡ true = ground arith in
    rw other (ap (λ t. 0 ∷ t) (wipe-zeros cs n m clean' (omega arith)))

-- After the wiping nothing of a password without NUL, at most eight characters long, is left in
-- the array.
pub wipe-array :
    (cs : Bytes)
    → no_nul cs ≡ true
    → length cs ≤ max_pass_len
    → wipe (array cs) ≡ zeros (max_pass_len + 1)
unfolding array
wipe-array cs clean short =
    wipe-zeros cs (max_pass_len + 1 - length cs) (max_pass_len + 1) clean (omega arith)
