-- ===== src/Signals/Sender.antt =====
-- signal/sig_sender.c and signal/rt_signal.c: programs that send a signal several times.
pub mod Sent
use unix_demos.Base.{
  num, ℕ, zero, suc, ◌+◌, ◌≡◌, refl, Bool, ◌||◌, List, [], ◌∷◌, ◌++◌, ltb, if◌then◌else◌, length,
  get_or, same_text, digits_of, codes, arith, inl, inr, Option-cases, Bool-cases, append-nil,
  append_assoc,
}
use unix_demos.Os.{
  Bytes, kill, sigqueue, getpid, getuid, fprintf, stdout, Call, Prog, ret, exit, ◌>>=◌, ◌>>◌, sys,
  skip, or_exit,
}
use unix_demos.Os.Run.{Kernel, returned, run, run->>=-returned}

-- Both programs ask for three arguments.
abbrev pub wants_usage : List Bytes → Bool
wants_usage argv = ltb (length argv) 4 || same_text (get_or argv 1 []) (codes "--help")

abbrev pub announcement : List Bytes → (sig pid num_sigs : ℕ) → Bytes
announcement argv sig pid num_sigs =
    get_or argv 0 []
    ++ (codes ": sending signal "
        ++ (num sig
            ++ (codes " to process "
                ++ (num pid ++ (codes " " ++ (num num_sigs ++ codes " times\n"))))))

abbrev pub greeting : List Bytes → (pid uid : ℕ) → Bytes
greeting argv pid uid =
    get_or argv 0 []
    ++ (codes ": PID is " ++ (num pid ++ (codes ", UID is " ++ (num uid ++ codes "\n"))))

-- `if (kill(pid, sig) == -1) { perror(…); exit(-1); }`
abbrev pub send_or_exit : (pid sig : ℕ) → Prog ℕ
send_or_exit pid sig = do r ← sys (kill pid sig); or_exit 255 r

-- The loop, `num_sigs` rounds of it.
unfoldable pub send_all : (num_sigs pid sig : ℕ) → Prog (Unit {0})
send_all zero pid sig = skip
send_all (suc num_sigs) pid sig = do send_or_exit pid sig; send_all num_sigs pid sig

-- The loop of rt_signal.c from `data` on, `num_sigs` rounds of it.
unfoldable pub queue_all : (num_sigs pid sig data0 : ℕ) → Prog (Unit {0})
queue_all zero pid sig data0 = skip
queue_all (suc num_sigs) pid sig data0 = do
  r ← sys (sigqueue pid sig data0)
  or_exit 255 r
  queue_all num_sigs pid sig (data0 + 1)

-- `numSigs` of rt_signal.c
abbrev pub rounds_of : (atoi : Bytes → ℕ) → List Bytes → ℕ
rounds_of atoi argv = if ltb 4 (length argv) then atoi (get_or argv 4 []) else 1

module _ (atoi : Bytes → ℕ) where
  -- `if (argc > 4) …`
  unfoldable pub send_last : (argv : List Bytes) → (pid : ℕ) → Prog (Unit {0})
  send_last argv pid =
      if ltb 4 (length argv) then (do send_or_exit pid (atoi (get_or argv 4 [])); skip) else skip

  unfoldable pub sig_sender : (argv : List Bytes) → Prog ℕ
  unfolding send_all send_last
  sig_sender argv =
      if wants_usage argv
      then sys (
          fprintf stdout
            (codes "usage: " ++ (get_or argv 0 [] ++ codes " pid num-sigs sig-num [sig-num-2]\n")))
        >> exit 0
      else (let sig = atoi (get_or argv 3 []) in
          let num_sigs = atoi (get_or argv 2 []) in
          let pid = atoi (get_or argv 1 []) in
          do
            sys (fprintf stdout (announcement argv sig pid num_sigs))
            send_all num_sigs pid sig
            send_last argv pid
            ret 0)

  unfoldable pub rt_signal : (argv : List Bytes) → Prog ℕ
  unfolding queue_all
  rt_signal argv =
      if wants_usage argv
      then sys (
          fprintf stdout
            (codes "Usage: " ++ (get_or argv 0 [] ++ codes " pid sig-num data [num-sigs]\n")))
        >> exit 0
      else do
        pid ← sys getpid
        uid ← sys getuid
        sys (fprintf stdout (greeting argv pid uid))
        queue_all (rounds_of atoi argv) (atoi (get_or argv 1 [])) (atoi (get_or argv 2 []))
            (atoi (get_or argv 3 []))
        ret 0
