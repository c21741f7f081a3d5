-- ===== src/Examples/Pipes.antt =====
-- The programs of IPC/ against concrete kernels.
use unix_demos.Base.{
  ℕ, zero, suc, ◌≡◌, ◌<◌, refl, false, Option, none, some, List, [], ◌∷◌, ◌++◌, ◌+◌, ◌^◌, arith,
  length,
}
use unix_demos.Os.{Bytes, stdin, fork, close, read, write, fgets, ferror, getc}
use unix_demos.Os.Run.{Kernel, returned, exited, run, Makes, Reply}
use unix_demos.Os.Text.{text}
use unix_demos.Ipc.Coprocess.{parent}
use unix_demos.Ipc.Coprocess.Relay.{Exchange, talk, parent-talk}
use unix_demos.Ipc.Readline.{readline}
use unix_demos.Ipc.Readline.Lines.{readline-length}
use unix_demos.Ipc.Mmap.{copy_pieces, pieces, copy_pieces-pieces}
use unix_demos.Examples.Kernels.{succeeds, plain, next}

abbrev hi : Bytes
hi = b'h' ∷ b'i' ∷ b'\n' ∷ []

-- Lines come from a list, reads from another; whole texts are written.
record Input : Type 0 where
  lines : List Bytes
  answers : List Bytes

abbrev pop : List Bytes → Option Bytes × List Bytes
pop [] = (none, [])
pop (t ∷ ts) = (some t, ts)

abbrev first_of : List Bytes → Option ℕ
first_of ((c ∷ cs) ∷ ts) = some c
first_of _ = none

abbrev piping : Kernel Input
piping (fgets fp n) s = ((pop s.lines).0, record s { lines = (pop s.lines).1 })
piping (read fd n) s = ((next s.answers).0, record s { answers = (next s.answers).1 })
piping (getc fp) s = (first_of s.answers, record s { answers = (next s.answers).1 })
piping (write fd bs) s = (some (length bs), s)
piping fork s = (some 77, s)
piping c s = (succeeds c, s)

abbrev said : Exchange
said = record { line = hi; first = b'3'; others = b'\n' ∷ [] }

abbrev relayed : List Reply
relayed = (close 3, tt) ∷ (close 6, tt) ∷ (talk 4 5 (said ∷ []) ++ (ferror stdin, false) ∷ [])

abbrev one_reply : Input
one_reply = record { lines = hi ∷ []; answers = (b'3' ∷ b'\n' ∷ []) ∷ [] }

parent-talk_example : Makes piping (parent 2 (3, 4) (5, 6)) one_reply relayed (exited 0)
unfolding text
parent-talk_example =
    parent-talk piping 4 5 3 6 2 (said ∷ []) one_reply
      (refl, (refl, (refl, (refl, (refl, (refl, (refl, (refl, tt)))))))) (omega arith, tt)
      (omega arith)

ones : ℕ → Bytes
ones zero = []
ones (suc n) = 1 ∷ ones n

length-ones : (n : ℕ) → length (ones n) ≡ n
unfolding ones
length-ones zero = refl
length-ones (suc n) = ground (arith, length-ones n)

abbrev long_reply : Input
long_reply = record { lines = hi ∷ []; answers = (1 ∷ ones 2047) ∷ [] }

abbrev two_lines : Input
two_lines = record { lines = hi ∷ hi ∷ []; answers = [] }

abbrev by_character : Input
by_character = record { lines = []; answers = (b'h' ∷ []) ∷ (b'i' ∷ []) ∷ (b'\n' ∷ []) ∷ [] }

abbrev cut_off : Input
cut_off = record { lines = []; answers = (b'h' ∷ []) ∷ (b'i' ∷ []) ∷ [] }

readline-returned :
    (run piping (readline 9 3) by_character).ended ≡ returned (some (b'h' ∷ b'i' ∷ []))
unfolding run readline
readline-returned = refl

readline-length_example : length {A = ℕ} (b'h' ∷ b'i' ∷ []) < 3
readline-length_example = readline-length piping 9 3 by_character (omega arith) readline-returned

copy_pieces-pieces_example :
    Makes plain
      (copy_pieces 4 3 4 (2 ^ 31 + 5) 0)
      tt
      (pieces 3 4 0 ((4096, 4096) ∷ (4096, 4096) ∷ []) 5 (4096, 4096))
      (returned tt)
copy_pieces-pieces_example =
    copy_pieces-pieces 3 4 plain 4 (2 ^ 31 + 5) 0 5 ((4096, 4096) ∷ (4096, 4096) ∷ []) (4096, 4096)
      tt refl (omega arith) (omega arith) (omega arith)
      (
        refl,
        (
          refl,
          (
            refl,
            (
              refl,
              (
                refl,
                (refl, (refl, (refl, (refl, (refl, (refl, (refl, (refl, (refl, (refl, tt)))))))))),
              ),
            ),
          ),
        ),
      )
