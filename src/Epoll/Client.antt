-- ===== src/Epoll/Client.antt =====
-- epoll_demo/epoll_cli.c: what is typed is sent to the server, and what comes back is printed.
pub mod Turns
use unix_demos.Base.{
  ℕ, zero, suc, ◌+◌, Bool, true, false, not, ◌&&◌, Option, none, some, List, [], ◌∷◌, ◌==◌,
  if◌then◌else◌,
}
use unix_demos.Os.{
  stdin_fileno, stdout_fileno, Bytes, Events, EpollEvent, CtlOp, ctl_add, ctl_mod, ctl_del, read,
  write, close, socket, inet_pton, connect, epoll_create, epoll_ctl, epoll_wait, Prog, ret, exit,
  fault, ◌>>=◌, ◌>>◌, sys, skip, exit_failure, or_exit,
}
use unix_demos.Epoll.{maxsize, epollevents, fdsize, for_input, for_output}
use unix_demos.Epoll.Buffer.{filled, c_str}
use unix_demos.Os.Text.{zeros}

unfoldable pub add_event : (epollfd fd : ℕ) → Events → Prog (Unit {0})
add_event epollfd fd state = sys (epoll_ctl epollfd ctl_add fd state) >> skip

unfoldable pub delete_event : (epollfd fd : ℕ) → Events → Prog (Unit {0})
delete_event epollfd fd state = sys (epoll_ctl epollfd ctl_del fd state) >> skip

unfoldable pub modify_event : (epollfd fd : ℕ) → Events → Prog (Unit {0})
modify_event epollfd fd state = sys (epoll_ctl epollfd ctl_mod fd state) >> skip

unfoldable pub text_of : Bytes → Prog Bytes
text_of buf = elim (c_str buf) [ none ↦ fault | some t ↦ ret t ]

-- By the answer of the read: an error or the end of the input ends the client.
unfoldable pub after_read : (epollfd fd sockfd : ℕ) → Bytes → Option Bytes → Prog Bytes
unfolding add_event delete_event
after_read epollfd fd sockfd buf none = exit_failure
after_read epollfd fd sockfd buf (some []) = exit_failure
after_read epollfd fd sockfd buf (some (b ∷ bs)) = do
  if fd == stdin_fileno
      then add_event epollfd sockfd for_output
      else delete_event epollfd sockfd for_input >> add_event epollfd stdout_fileno for_output
  ret (filled (b ∷ bs) buf)

unfoldable pub do_read : (epollfd fd sockfd : ℕ) → Bytes → Prog Bytes
unfolding after_read
do_read epollfd fd sockfd buf = sys (read fd maxsize) >>= after_read epollfd fd sockfd buf

unfoldable pub do_write : (epollfd fd sockfd : ℕ) → Bytes → Prog Bytes
unfolding delete_event modify_event text_of
do_write epollfd fd sockfd buf = do
  t ← text_of buf
  nwrite ← sys (write fd t)
  or_exit 255 nwrite
  if fd == stdout_fileno
      then delete_event epollfd fd for_output
      else modify_event epollfd fd for_input
  ret (zeros maxsize)

unfoldable pub handle_events : (epollfd sockfd : ℕ) → Bytes → List EpollEvent → Prog Bytes
unfolding do_read do_write
handle_events epollfd sockfd buf [] = ret buf
handle_events epollfd sockfd buf (ev ∷ evs) =
    (if ev.events.epollin
      then do_read epollfd ev.fd sockfd buf
      else if ev.events.epollout
      then do_write epollfd ev.fd sockfd buf
      else ret buf)
    >>= λ buf'. handle_events epollfd sockfd buf' evs

-- A failed wait answers -1, and the loop over the events makes no round.
abbrev pub ready : Option (List EpollEvent) → List EpollEvent
ready none = []
ready (some evs) = evs

-- The loop of `handle_connection`, `n` rounds of it.
unfoldable pub wait_loop : (n epollfd sockfd : ℕ) → Bytes → Prog Bytes
wait_loop zero epollfd sockfd buf = ret buf
wait_loop (suc n) epollfd sockfd buf = do
  evs ← sys (epoll_wait epollfd epollevents)
  buf' ← handle_events epollfd sockfd buf (ready evs)
  wait_loop n epollfd sockfd buf'

-- `buf` starts as whatever the stack holds.
unfoldable pub handle_connection : (n sockfd : ℕ) → (stack : Bytes) → Prog Bytes
unfolding add_event wait_loop
handle_connection n sockfd stack = do
  created ← sys (epoll_create fdsize)
  epollfd ← or_exit 255 created
  add_event epollfd stdin_fileno for_input
  wait_loop n epollfd sockfd stack

unfoldable pub main : (n : ℕ) → (stack : Bytes) → Prog (Unit {0})
unfolding handle_connection
main n stack = do
  made ← sys socket
  sockfd ← or_exit 255 made
  ok ← sys inet_pton
  if not (ok == 1) then exit_failure else skip
  sys (connect sockfd)
  handle_connection n sockfd stack
  sys (close sockfd)
