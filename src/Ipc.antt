-- ===== src/Ipc.antt =====
-- The programs of IPC/ that pass text through pipes. Text for stderr is left out, a loop takes the number
-- of its rounds, and what a string function reads of a line ends at its first NUL.
pub mod Coprocess
pub mod Pagers
pub mod Readline
pub mod Lower
pub mod Mmap
use unix_demos.Base.{ℕ, ◌==◌, if◌then◌else◌, List, [], ◌∷◌, Option, none, some, Bool, true, false}
use unix_demos.Os.{Bytes}

abbrev pub maxline : ℕ
maxline = 2048

-- `n == m` for the answer of a call.
abbrev pub is_count : Option ℕ → ℕ → Bool
is_count none m = false
is_count (some n) m = n == m
