-- ===== src/Epoll/Server/Echo.antt =====
-- What a client of epoll_demo/epoll_server.c gets back: its own text, unless the one buffer was filled
-- again in between; and what a text without room for a NUL does.
use unix_demos.Base.{
  ℕ, ◌<◌, ◌≤◌, ◌≡◌, true, Option, none, some, List, [], ◌∷◌, ◌++◌, arith, codes, length,
}
use unix_demos.Os.{Bytes, Call, ctl_mod, ctl_del, epoll_ctl, read, write, close, printf, ◌>>=◌}
use unix_demos.Os.Run.{Kernel, returned, crashed, run}
use unix_demos.Epoll.{maxsize, for_input, for_output}
use unix_demos.Epoll.Buffer.{c_str-filled-zeros, c_str-filled_all, filled_twice}
use unix_demos.Os.Text.{zeros, no_nul}
use unix_demos.Epoll.Server.{do_read, do_write}

-- The calls that follow the write, by its answer.
abbrev pub after_write : (epollfd fd : ℕ) → Option ℕ → List Call
after_write epollfd fd none = close fd ∷ epoll_ctl epollfd ctl_del fd for_output ∷ []
after_write epollfd fd (some n) = epoll_ctl epollfd ctl_mod fd for_input ∷ []

-- `printf("read message: %s", buf)`
abbrev pub read_line : Bytes → Bytes
read_line text = codes "read message: " ++ text

abbrev pub read_calls : (epollfd fd : ℕ) → Bytes → List Call
read_calls epollfd fd bs =
    read fd maxsize ∷ printf (read_line bs) ∷ epoll_ctl epollfd ctl_mod fd for_output ∷ []

module _ {K : Type 0} (kernel : Kernel K) (epollfd : ℕ) where
  -- The state in which the write of the text is made.
  abbrev pub at_write : (fd : ℕ) → Bytes → K → K
  at_write fd bs s =
      (kernel (epoll_ctl epollfd ctl_mod fd for_output)
        (kernel (printf (read_line bs)) (kernel (read fd maxsize) s).1).1).1

  -- With the buffer cleared, a client that sends a text without NUL and shorter than the buffer
  -- is sent that very text, is watched for input again (or dropped, if the write fails), and
  -- the buffer is cleared again.
  pub do_read-do_write :
      (fd : ℕ) (s : K) (b : ℕ) (bs : Bytes)
      → (kernel (read fd maxsize) s).0 ≡ some (b ∷ bs)
      → no_nul (b ∷ bs) ≡ true
      → length (b ∷ bs) < maxsize
      → let d = run kernel (do_read epollfd fd (zeros maxsize) >>= do_write epollfd fd) s in
        (d.ended ≡ returned (zeros maxsize))
        × (d.calls
            ≡ read_calls epollfd fd (b ∷ bs)
              ++ (write fd (b ∷ bs)
                  ∷ after_write epollfd fd (kernel (write fd (b ∷ bs)) (at_write fd (b ∷ bs) s)).0))
  unfolding run do_read do_write
  do_read-do_write fd s b bs e clean short =
      ground (arith, e, c_str-filled-zeros (b ∷ bs) maxsize clean short)

  -- If a second client's text, no shorter than the first's, both without NUL and shorter than
  -- the buffer, is read before the first is written to, then the first is sent the second's
  -- text.
  pub do_read_twice-do_write :
      (fd1 fd2 : ℕ) (s : K) (a b : ℕ) (xs bs : Bytes)
      → (kernel (read fd1 maxsize) s).0 ≡ some (a ∷ xs)
      → (kernel (read fd2 maxsize) (at_write fd1 (a ∷ xs) s)).0 ≡ some (b ∷ bs)
      → no_nul (a ∷ xs) ≡ true
      → no_nul (b ∷ bs) ≡ true
      → length (a ∷ xs) ≤ length (b ∷ bs)
      → length (b ∷ bs) < maxsize
      → let d =
          run kernel
            (do_read epollfd fd1 (zeros maxsize) >>= λ buf.
              do_read epollfd fd2 buf >>= do_write epollfd fd1)
            s in
        (rest : List Call) × (d.calls
          ≡ read_calls epollfd fd1 (a ∷ xs)
            ++ (read_calls epollfd fd2 (b ∷ bs) ++ write fd1 (b ∷ bs) ∷ rest))
  unfolding run do_read do_write
  do_read_twice-do_write fd1 fd2 s a b xs bs e1 e2 clean1 clean2 le short = (
    after_write epollfd fd1
        (kernel (write fd1 (b ∷ bs)) (at_write fd2 (b ∷ bs) (at_write fd1 (a ∷ xs) s))).0,
    ground (
      arith,
      e1,
      e2,
      c_str-filled-zeros (a ∷ xs) maxsize clean1,
      c_str-filled-zeros (b ∷ bs) maxsize clean2,
      filled_twice (a ∷ xs) (b ∷ bs) (zeros maxsize),
    ),
  )

  -- A read of a text without NUL that fills the buffer of MAXSIZE bytes makes the server read past
  -- its end.
  pub do_read-crashed :
      (fd : ℕ) (s : K) (buf : Bytes) (b : ℕ) (bs : Bytes)
      → (kernel (read fd maxsize) s).0 ≡ some (b ∷ bs)
      → no_nul (b ∷ bs) ≡ true
      → length (b ∷ bs) ≡ maxsize
      → length buf ≡ maxsize
      → (run kernel (do_read epollfd fd buf) s).ended ≡ crashed
  unfolding run do_read
  do_read-crashed fd s buf b bs e clean full size =
      ground (arith, e, c_str-filled_all (b ∷ bs) buf clean)
