-- ===== src/Epoll/Client/Turns.antt =====
-- A turn of epoll_demo/epoll_cli.c: a line is typed, sent, answered and printed; and what is sent
-- when the buffer was not cleared.
use unix_demos.Base.{ℕ, ◌<◌, ◌≡◌, ◌≢◌, true, some, List, [], ◌∷◌, ◌++◌, arith, length, ==_of_ne}
use unix_demos.Os.{
  stdin_fileno, stdout_fileno, Bytes, Call, ctl_add, ctl_mod, ctl_del, epoll_ctl, read, write, Prog,
  ◌>>=◌,
}
use unix_demos.Os.Run.{Kernel, returned, run}
use unix_demos.Epoll.{maxsize, for_input, for_output}
use unix_demos.Epoll.Buffer.{c_str-filled-zeros, c_str-filled_over}
use unix_demos.Os.Text.{zeros, no_nul}
use unix_demos.Epoll.Client.{do_read, do_write}

abbrev pub typed_calls : (epollfd sockfd : ℕ) → Bytes → List Call
typed_calls epollfd sockfd bs =
    read stdin_fileno maxsize
    ∷ epoll_ctl epollfd ctl_add sockfd for_output
    ∷ write sockfd bs
    ∷ epoll_ctl epollfd ctl_mod sockfd for_input
    ∷ []

abbrev pub answered_calls : (epollfd sockfd : ℕ) → Bytes → List Call
answered_calls epollfd sockfd bs =
    read sockfd maxsize
    ∷ epoll_ctl epollfd ctl_del sockfd for_input
    ∷ epoll_ctl epollfd ctl_add stdout_fileno for_output
    ∷ write stdout_fileno bs
    ∷ epoll_ctl epollfd ctl_del stdout_fileno for_output
    ∷ []

-- The two halves of a turn, each a read and the write that it asks for.
abbrev pub send : (epollfd sockfd : ℕ) → Bytes → Prog Bytes
send epollfd sockfd buf = do_read epollfd stdin_fileno sockfd buf >>= do_write epollfd sockfd sockfd

abbrev pub print : (epollfd sockfd : ℕ) → Bytes → Prog Bytes
print epollfd sockfd buf =
    do_read epollfd sockfd sockfd buf >>= do_write epollfd stdout_fileno sockfd

module _ {K : Type 0} (kernel : Kernel K) (epollfd sockfd : ℕ) where
  -- The state in which the typed text is sent, and the one after it.
  abbrev pub at_send : K → K
  at_send s =
      (kernel (epoll_ctl epollfd ctl_add sockfd for_output)
        (kernel (read stdin_fileno maxsize) s).1).1

  abbrev pub sent : Bytes → K → K
  sent bs s =
      (kernel (epoll_ctl epollfd ctl_mod sockfd for_input)
        (kernel (write sockfd bs) (at_send s)).1).1

  -- The state in which the answer is printed.
  abbrev pub at_print : K → K
  at_print s =
      (kernel (epoll_ctl epollfd ctl_add stdout_fileno for_output)
        (kernel (epoll_ctl epollfd ctl_del sockfd for_input)
          (kernel (read sockfd maxsize) s).1).1).1

  -- With a socket that is not stdin or stdout, the buffer cleared, and texts without NUL and
  -- shorter than the buffer: if the writes succeed, what is typed is sent, what comes back is
  -- printed, each descriptor that was watched for it is dropped again, and the buffer is
  -- cleared.
  pub send-print :
      (s : K) (a b m n : ℕ) (xs bs : Bytes)
      → sockfd ≢ stdin_fileno
      → sockfd ≢ stdout_fileno
      → (kernel (read stdin_fileno maxsize) s).0 ≡ some (a ∷ xs)
      → (kernel (write sockfd (a ∷ xs)) (at_send s)).0 ≡ some m
      → (kernel (read sockfd maxsize) (sent (a ∷ xs) s)).0 ≡ some (b ∷ bs)
      → (kernel (write stdout_fileno (b ∷ bs)) (at_print (sent (a ∷ xs) s))).0 ≡ some n
      → no_nul (a ∷ xs) ≡ true
      → no_nul (b ∷ bs) ≡ true
      → length (a ∷ xs) < maxsize
      → length (b ∷ bs) < maxsize
      → let d = run kernel (send epollfd sockfd (zeros maxsize) >>= print epollfd sockfd) s in
        (d.ended ≡ returned (zeros maxsize))
        × (d.calls ≡ typed_calls epollfd sockfd (a ∷ xs) ++ answered_calls epollfd sockfd (b ∷ bs))
  unfolding run do_read do_write
  send-print s a b m n xs bs not_in not_out r w r' w' clean clean' short short' = ground (
    arith,
    r,
    w,
    r',
    w',
    ==_of_ne sockfd stdin_fileno not_in,
    ==_of_ne sockfd stdout_fileno not_out,
    c_str-filled-zeros (a ∷ xs) maxsize clean short,
    c_str-filled-zeros (b ∷ bs) maxsize clean' short',
  )

  -- The buffer of the client is not cleared before its first use: if the stack holds a text old
  -- and a NUL behind the place of the typed text, neither of them with a NUL in it, the socket is
  -- not stdout, and the write succeeds, then old is sent with the typed text.
  pub send-stack :
      (s : K) (a m : ℕ) (xs under old rest : Bytes)
      → sockfd ≢ stdout_fileno
      → (kernel (read stdin_fileno maxsize) s).0 ≡ some (a ∷ xs)
      → (kernel (write sockfd ((a ∷ xs) ++ old)) (at_send s)).0 ≡ some m
      → no_nul (a ∷ xs) ≡ true
      → no_nul old ≡ true
      → length under ≡ length (a ∷ xs)
      → (run kernel (send epollfd sockfd (under ++ (old ++ 0 ∷ rest))) s).calls
        ≡ typed_calls epollfd sockfd ((a ∷ xs) ++ old)
  unfolding run do_read do_write
  send-stack s a m xs under old rest not_out r w clean clean' size = ground (
    arith,
    r,
    w,
    ==_of_ne sockfd stdout_fileno not_out,
    c_str-filled_over (a ∷ xs) old rest under clean clean' size,
  )
