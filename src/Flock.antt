-- ===== src/Flock.antt =====
-- flock/: record locks on the bytes of a file, the handshake of two processes, and the program that makes
-- them wait for each other.
pub mod Deadlock
use Prim.Native.String.{String}
use unix_demos.Base.{
  ℕ, zero, suc, Bool, true, false, not, Option, none, some, List, [], ◌∷◌, ◌++◌, ◌==◌,
  if◌then◌else◌, digits_of,
}
use unix_demos.Os.{
  Bytes, LockType, f_rdlck, f_wrlck, f_unlck, Whence, seek_set, Flock, Answer, success, failure,
  fork, creat, pipe, read, write, setlk, setlkw, getlk, printf, Prog, ret, exit, ◌>>=◌, ◌>>◌, sys,
  skip, exit_failure, or_exit,
}

pub data Cmd : Type 0 where
  f_setlk f_setlkw : Cmd

unfoldable pub lock_reg :
    (fd : ℕ) → Cmd → LockType → (offset : ℕ) → Whence → (len : ℕ) → Prog Answer
lock_reg fd f_setlk type offset whence len = sys (
    setlk fd
      (record { l_type = type; l_whence = whence; l_start = offset; l_len = len; l_pid = 0 }))
lock_reg fd f_setlkw type offset whence len = sys (
    setlkw fd
      (record { l_type = type; l_whence = whence; l_start = offset; l_len = len; l_pid = 0 }))

abbrev pub is_unlck : LockType → Bool
is_unlck f_unlck = true
is_unlck _ = false

unfoldable pub lock_test : (fd : ℕ) → LockType → (offset : ℕ) → Whence → (len : ℕ) → Prog ℕ
lock_test fd type offset whence len = do
  got ← sys (
      getlk fd
        (record { l_type = type; l_whence = whence; l_start = offset; l_len = len; l_pid = 0 }))
  fl ← or_exit 255 got
  if is_unlck fl.l_type then ret 0 else ret fl.l_pid

unfoldable pub writew_lock : (fd offset : ℕ) → Whence → (len : ℕ) → Prog Answer
unfolding lock_reg
writew_lock fd offset whence len = lock_reg fd f_setlkw f_wrlck offset whence len

-- The two pipes of flock/tell_wait.c.
pub record Pipes : Type 0 where
  pub pipefd1 : ℕ × ℕ
  pub pipefd2 : ℕ × ℕ

unfoldable pub tell_wait : Prog Pipes
tell_wait = do
  one ← sys pipe
  pipefd1 ← or_exit 255 one
  two ← sys pipe
  pipefd2 ← or_exit 255 two
  ret (record { pipefd1 = pipefd1; pipefd2 = pipefd2 })

-- `if (write(fd, "c", 1) != 1) exit(-1);`
unfoldable pub tell : (fd c : ℕ) → Prog (Unit {0})
tell fd c = do
  sent ← sys (write fd (c ∷ []))
  n ← or_exit 255 sent
  if n == 1 then skip else exit_failure

-- One character is read, and it has to be this one.
unfoldable pub await : (fd c : ℕ) → Prog (Unit {0})
await fd c = do
  got ← sys (read fd 1)
  bs ← or_exit 255 got
  elim bs [ [] ↦ exit_failure | ◌∷◌ b rest ↦ if b == c then skip else exit_failure ]

unfoldable pub tell_parent : Pipes → Prog (Unit {0})
unfolding tell
tell_parent pipes = tell pipes.pipefd1.1 b'p'

unfoldable pub wait_child : Pipes → Prog (Unit {0})
unfolding await
wait_child pipes = await pipes.pipefd1.0 b'p'

unfoldable pub tell_child : Pipes → Prog (Unit {0})
unfolding tell
tell_child pipes = tell pipes.pipefd2.1 b'c'

unfoldable pub wait_parent : Pipes → Prog (Unit {0})
unfolding await
wait_parent pipes = await pipes.pipefd2.0 b'c'

-- `"%s: got the lock, byte %lld\n"`
abbrev pub got_text : Bytes → ℕ → Bytes
got_text name offset =
    name
    ++ b':'
      ∷ b' '
      ∷ b'g'
      ∷ b'o'
      ∷ b't'
      ∷ b' '
      ∷ b't'
      ∷ b'h'
      ∷ b'e'
      ∷ b' '
      ∷ b'l'
      ∷ b'o'
      ∷ b'c'
      ∷ b'k'
      ∷ b','
      ∷ b' '
      ∷ b'b'
      ∷ b'y'
      ∷ b't'
      ∷ b'e'
      ∷ b' '
      ∷ digits_of (suc offset) offset (b'\n' ∷ [])

unfoldable pub lockabyte : Bytes → (fd offset : ℕ) → Prog (Unit {0})
unfolding writew_lock
lockabyte name fd offset = do
  r ← writew_lock fd offset seek_set 1
  elim r [ failure e ↦ exit_failure | success v ↦ sys (printf (got_text name offset)) ]

abbrev pub parent_name : Bytes
parent_name = b'p' ∷ b'a' ∷ b'r' ∷ b'e' ∷ b'n' ∷ b't' ∷ []

abbrev pub child_name : Bytes
child_name = b'c' ∷ b'h' ∷ b'i' ∷ b'l' ∷ b'd' ∷ []

unfoldable pub parent : Pipes → (fd : ℕ) → Prog (Unit {0})
unfolding lockabyte tell_child wait_child
parent pipes fd = do
  lockabyte parent_name fd 1
  tell_child pipes
  wait_child pipes
  lockabyte parent_name fd 0

unfoldable pub child : Pipes → (fd : ℕ) → Prog (Unit {0})
unfolding lockabyte tell_parent wait_parent
child pipes fd = do
  lockabyte child_name fd 0
  tell_parent pipes
  wait_parent pipes
  lockabyte child_name fd 1

unfoldable pub main : Prog (Unit {0})
unfolding tell_wait parent child
main = do
  made ← sys (creat "tmplock")
  fd ← or_exit 255 made
  sent ← sys (write fd (b'a' ∷ b'b' ∷ []))
  n ← or_exit 255 sent
  if n == 2 then skip else exit_failure
  pipes ← tell_wait
  forked ← sys fork
  pid ← or_exit 255 forked
  if not (pid == 0) then parent pipes fd else child pipes fd
