-- ===== src/Terminal.antt =====
-- term_io/getpass_demo.c: a password is read from the terminal without an echo, and wiped after its use.
pub mod Password
pub mod Settings
use unix_demos.Base.{
  ℕ, zero, suc, ◌+◌, ◌-◌, Bool, true, false, ◌||◌, Option, none, some, List, [], ◌∷◌, ◌++◌, ◌==◌,
  ltb, if◌then◌else◌, length,
}
use unix_demos.Os.{
  Bytes, Termios, sig_block, sig_setmask, stdout, setbuf, getc, putc, fputs, fclose, fopen_terminal,
  tcgetattr, tcsetattr, sigprocmask, printf, Prog, ret, exit, ◌>>=◌, ◌>>◌, sys, skip, exit_failure,
  or_exit,
}
use unix_demos.Os.Text.{text, zeros}

abbrev pub max_pass_len : ℕ
max_pass_len = 8

-- SIGINT and SIGTSTP
abbrev pub blocked : List ℕ
blocked = 2 ∷ 20 ∷ []

-- `ts.c_lflag &= ~(ECHO | ECHOE | ECHOK | ECHONL)`
abbrev pub no_echo : Termios → Termios
no_echo ts = record ts { echo = false; echoe = false; echok = false; echonl = false }

-- What is stored of one more character.
unfoldable pub keep : Bytes → ℕ → Bytes
keep buf c = if ltb (length buf) max_pass_len then buf ++ c ∷ [] else buf

-- The test of the loop fails at a newline, and at the character 255, which as a signed `char` is EOF.
abbrev pub ends : ℕ → Bool
ends c = c == b'\n' || c == 255

-- At most `n` characters.
unfoldable pub read_chars : (n fp : ℕ) → Bytes → Prog Bytes
unfolding keep
read_chars zero fp buf = ret buf
read_chars (suc n) fp buf = do
  got ← sys (getc fp)
  elim got [
    | none ↦ ret buf
    | some c ↦ let rest = read_chars n fp (keep buf c) in if ends c then ret buf else rest
  ]

-- The static array, cleared by the loader: what is stored, and a NUL.
unfoldable pub array : Bytes → Bytes
array buf = buf ++ zeros (max_pass_len + 1 - length buf)

unfoldable pub getpass : ℕ → Bytes → Prog (Option Bytes)
unfolding read_chars array
getpass n prompt = do
  opened ← sys fopen_terminal
  elim opened [
    | none ↦ ret none
    | some fp ↦ do
      sys (setbuf fp)
      osig ← sys (sigprocmask sig_block blocked)
      got ← sys (tcgetattr fp)
      ts ← or_exit 255 got
      sys (tcsetattr fp (no_echo ts))
      sys (fputs fp prompt)
      buf ← read_chars n fp []
      sys (putc b'\n' fp)
      sys (tcsetattr fp ts)
      sys (sigprocmask sig_setmask osig)
      sys (fclose fp)
      ret (some (array buf))
  ]

-- `while (*ptr) *ptr++ = 0;`
unfoldable pub wipe : Bytes → Bytes
wipe [] = []
wipe (c ∷ cs) = if c == 0 then c ∷ cs else 0 ∷ wipe cs

-- "Enter password:"
abbrev pub prompt_text : Bytes
prompt_text =
    b'E' ∷ b'n' ∷ b't' ∷ b'e' ∷ b'r' ∷ b' ' ∷ b'p' ∷ b'a' ∷ b's' ∷ b's' ∷ b'w' ∷ b'o' ∷ b'r' ∷ b'd'
    ∷ b':' ∷ []

-- "password: "
abbrev pub answer_text : Bytes
answer_text = b'p' ∷ b'a' ∷ b's' ∷ b's' ∷ b'w' ∷ b'o' ∷ b'r' ∷ b'd' ∷ b':' ∷ b' ' ∷ []

-- The answer is what is left in the array.
unfoldable pub main : ℕ → Prog Bytes
unfolding getpass wipe
main n = do
  got ← getpass n prompt_text
  buf ← or_exit 255 got
  sys (printf (answer_text ++ (text buf ++ b'\n' ∷ [])))
  ret (wipe buf)
