-- ===== src/Daemon/Lock.antt =====
-- `already_running` of daemon/daemonize.c: the lock on the file with the daemon's number, and the
-- text that is written into it.
use Prim.Native.String.{String}
use unix_demos.Base.{
  digits_of, ℕ, Option, some, true, List, zero, suc, ◌+◌, ◌*◌, ◌-◌, ◌/◌, ◌%◌, ◌<◌, ◌≡◌, ◌⊎◌, refl,
  ◌∙◌, inl, inr, [], ◌∷◌, arith, ◌==◌, ltb, Bool-cases, Option-cases, if◌then◌else◌,
}
use unix_demos.Os.{
  Bytes, Answer, success, failure, Errno, einval, enoent, eintr, eexist, edeadlk, other, eacces,
  eagain, getpid, open_file, close, write, ftruncate, setlk,
}
use unix_demos.Os.Run.{Kernel, Reply, returned, run}
use unix_demos.Os.Trace.{trace, trace-ret, trace-invoke}
use unix_demos.Daemon.{locked, holds_lock, whole_file, already_running, pid_text}

abbrev pub lock_path : String
lock_path = "/var/run/daemon.pid"

Answer-cases : (a : Answer) → ((e : Errno) × (a ≡ failure e)) ⊎ ((r : ℕ) × (a ≡ success r))
Answer-cases (failure e) = inl (e, refl)
Answer-cases (success r) = inr (r, refl)

-- The lock was refused, since another process holds it.
abbrev pub refused_replies : (fd : ℕ) → Errno → List Reply
refused_replies fd e =
    (open_file lock_path, some fd) ∷ (setlk fd whole_file, failure e) ∷ (close fd, tt) ∷ []

-- The lock was given, and the file's text replaced by this process's number.
abbrev pub locked_replies : (fd x : ℕ) → Option ℕ → (pid : ℕ) → Option ℕ → List Reply
locked_replies fd x cut pid written =
    (open_file lock_path, some fd)
    ∷ (setlk fd whole_file, success x)
    ∷ (ftruncate fd 0, cut)
    ∷ (getpid, pid)
    ∷ (write fd (pid_text pid), written)
    ∷ []

module _ {K : Type 0} (kernel : Kernel K) where
  holds_lock-true : (e : Errno) → holds_lock e ≡ true → (e ≡ eacces) ⊎ (e ≡ eagain)
  holds_lock-true eacces h = inl refl
  holds_lock-true eagain h = inr refl
  holds_lock-true einval h = absurd (ground (arith, h))
  holds_lock-true enoent h = absurd (ground (arith, h))
  holds_lock-true eintr h = absurd (ground (arith, h))
  holds_lock-true eexist h = absurd (ground (arith, h))
  holds_lock-true edeadlk h = absurd (ground (arith, h))
  holds_lock-true other h = absurd (ground (arith, h))

  refused-trace :
      (fd : ℕ) (e : Errno) (s : K)
      → holds_lock e ≡ true
      → trace kernel (locked fd (failure e)) s ≡ (close fd, tt) ∷ []
  unfolding locked trace
  refused-trace fd e s h = rw h refl

  -- Where already_running returns 1, the system has refused the lock of the opened file with
  -- EACCES or EAGAIN, and the file is closed; where it returns 0, the system has given the
  -- lock, and then the file is emptied and the process's number, as getpid answers it, written
  -- into it. It returns no other number, and makes no other call.
  pub already_running-calls :
      (s : K) {r : ℕ}
      → (run kernel already_running s).ended ≡ returned r
      → ((r ≡ 1)
          × ((fd : ℕ) × (e : Errno) × ((e ≡ eacces) ⊎ (e ≡ eagain))
              × (trace kernel already_running s ≡ refused_replies fd e)))
        ⊎ ((r ≡ 0)
            × ((fd x : ℕ) × (cut : Option ℕ) × (pid : ℕ) × (written : Option ℕ) × (trace kernel
                    already_running s
                  ≡ locked_replies fd x cut pid written)))
  unfolding run already_running
  already_running-calls s e = elim (Option-cases (kernel (open_file lock_path) s).0) [
    | inl no_file ↦ absurd (ground (arith, no_file))
    | inr (fd, file) ↦
        let s1 = (kernel (open_file lock_path) s).1 in
        let s2 = (kernel (setlk fd whole_file) s1).1 in
        let s3 = (kernel (ftruncate fd 0) s2).1 in
        let s4 = (kernel getpid s3).1 in
        let pid = (kernel getpid s3).0 in
        let s5 = (kernel (write fd (pid_text pid)) s4).1 in
        elim (Answer-cases (kernel (setlk fd whole_file) s1).0) [
          | inl (err, refused) ↦
              let held : holds_lock err ≡ true = ground (arith, file, refused) in
              inl (
                ground (arith, file, refused, held),
                (
                  fd,
                  err,
                  holds_lock-true err held,
                  trace-invoke kernel _ _ s file
                      (trace-invoke kernel _ _ s1 refused (refused-trace fd err s2 held)),
                ),
              )
          | inr (x, got) ↦ inr (
            ground (arith, file, got),
            (
              fd,
              x,
              (kernel (ftruncate fd 0) s2).0,
              pid,
              (kernel (write fd (pid_text pid)) s4).0,
              trace-invoke kernel _ _ s file (
                  trace-invoke kernel _ _ s1 got (
                    trace-invoke kernel _ _ s2 refl (
                      trace-invoke kernel _ _ s3 refl
                        (trace-invoke kernel _ _ s4 refl (trace-ret kernel 0 s5))))),
            ),
          )
        ]
  ]

-- The number that decimal digits up to a NUL stand for.
pub value : ℕ → Bytes → ℕ
value acc [] = acc
value acc (c ∷ cs) = if c == 0 then acc else value (acc * 10 + (c - b'0')) cs

value-digits_of :
    (fuel n : ℕ) (rest : Bytes) → n < fuel → value 0 (digits_of fuel n rest) ≡ value n rest
unfolding value digits_of
value-digits_of zero n rest h = absurd (omega arith)
value-digits_of (suc fuel) n rest h = elim (Bool-cases (ltb n 10)) [
  | inl small ↦ rw small (ground arith)
  | inr large ↦
      rw large
        (value-digits_of fuel (n / 10) ((b'0' + n % 10) ∷ rest) (ground arith) ∙ ground arith)
]

-- The digits that are written into the lock file, up to their NUL, read as the number of the
-- process.
pub value-pid_text : (pid : ℕ) → value 0 (pid_text pid) ≡ pid
unfolding pid_text value
value-pid_text pid = value-digits_of (suc pid) pid (0 ∷ []) (omega arith)
