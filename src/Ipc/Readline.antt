-- ===== src/Ipc/Readline.antt =====
-- IPC/fifo_demo.c: what is typed goes through a named pipe, and comes out of it line by line.
pub mod Lines
use Prim.Native.String.{String}
use unix_demos.Base.{
  ℕ, zero, suc, ◌-◌, ◌^◌, Bool, true, false, not, Option, none, some, List, [], ◌∷◌, ◌++◌, ◌==◌,
  if◌then◌else◌, length,
}
use unix_demos.Os.{
  Bytes, stdin, mkfifo, fork, open_file, close, read, write, fgets, printf, Prog, ret, exit, ◌>>=◌,
  ◌>>◌, sys, skip, exit_failure, or_exit,
}
use unix_demos.Ipc.{is_count}
use unix_demos.Os.Text.{text}

-- `MAXLINE` of this program
abbrev pub fifo_line : ℕ
fifo_line = 1024

abbrev pub fifo_path : String
fifo_path = "/tmp/fifodemo"

-- The loop of `readline` with room for `room` more characters behind `line`. It reads a character
-- before it looks at the room; at the end of the input the answer is NULL.
unfoldable pub read_loop : (fd room : ℕ) → Bytes → Prog (Option Bytes)
read_loop fd zero line = do
  got ← sys (read fd 1)
  elim got [
    | none ↦ exit_failure
    | some bs ↦ elim bs [ [] ↦ ret none | ◌∷◌ c cs ↦ ret (some line) ]
  ]
read_loop fd (suc room) line = do
  got ← sys (read fd 1)
  elim got [
    | none ↦ exit_failure
    | some bs ↦ elim bs [
      | [] ↦ ret none
      | ◌∷◌ c cs ↦
          let rest = read_loop fd room (line ++ c ∷ []) in
          if c == b'\n' then ret (some (line ++ c ∷ [])) else rest
    ]
  ]

unfoldable pub readline : (fd size : ℕ) → Prog (Option Bytes)
unfolding read_loop
readline fd size = read_loop fd (size - 1) []

-- A failed open gives the descriptor -1.
abbrev pub fd_of : Option ℕ → ℕ
fd_of none = 2 ^ 32 - 1
fd_of (some fd) = fd

abbrev pub closed_text : Bytes
closed_text =
    b'F' ∷ b'I' ∷ b'F' ∷ b'O' ∷ b' ' ∷ b'w' ∷ b'r' ∷ b'i' ∷ b't' ∷ b'e' ∷ b' ' ∷ b'e' ∷ b'n' ∷ b'd'
    ∷ b' ' ∷ b'c' ∷ b'l' ∷ b'o' ∷ b's' ∷ b'e' ∷ b'd' ∷ b'\n' ∷ []

-- The loop of the parent, at most `n` lines long.
unfoldable pub print_lines : (n fd : ℕ) → Prog (Unit {0})
unfolding readline
print_lines zero fd = skip
print_lines (suc n) fd = do
  line ← readline fd fifo_line
  elim line [ none ↦ skip | some l ↦ sys (printf (text l)) >> print_lines n fd ]

unfoldable pub fifo_parent : ℕ → Prog (Unit {0})
unfolding print_lines
fifo_parent n = do
  opened ← sys (open_file fifo_path)
  print_lines n (fd_of opened)
  sys (printf closed_text)
  exit 0

-- The loop of the child, at most `n` lines long.
unfoldable pub send_lines : (n fd : ℕ) → Prog (Unit {0})
send_lines zero fd = skip
send_lines (suc n) fd = do
  got ← sys (fgets stdin fifo_line)
  elim got [
    | none ↦ skip
    | some line ↦ do
      sent ← sys (write fd (text line))
      if is_count sent (length (text line)) then skip else exit_failure
      send_lines n fd
  ]

unfoldable pub fifo_child : ℕ → Prog (Unit {0})
unfolding send_lines
fifo_child n = do
  opened ← sys (open_file fifo_path)
  send_lines n (fd_of opened)
  sys (close (fd_of opened))
  exit 0

unfoldable pub main : ℕ → Prog (Unit {0})
unfolding fifo_parent fifo_child
main n = do
  made ← sys (mkfifo fifo_path)
  or_exit 255 made
  forked ← sys fork
  pid ← or_exit 255 forked
  if not (pid == 0) then fifo_parent n else fifo_child n
