-- ===== src/Epoll/Server.antt =====
-- epoll_demo/epoll_server.c: one buffer for all the clients; each descriptor is watched for input, or, once
-- something was read from it, for output.
pub mod Echo
pub mod Survival
use unix_demos.Base.{
  ℕ, zero, suc, ◌+◌, Bool, true, false, not, ◌&&◌, Option, none, some, List, [], ◌∷◌, ◌++◌, codes,
  ◌==◌, if◌then◌else◌,
}
use unix_demos.Os.{
  Bytes, Events, EpollEvent, CtlOp, ctl_add, ctl_mod, ctl_del, read, write, close, socket, bind,
  listen, accept, epoll_create, epoll_ctl, epoll_wait, printf, Prog, ret, exit, fault, ◌>>=◌, ◌>>◌,
  sys, skip, exit_failure, or_exit,
}
use unix_demos.Epoll.{maxsize, port, listenq, epollevents, fdsize, for_input, for_output}
use unix_demos.Epoll.Buffer.{filled, c_str}
use unix_demos.Os.Text.{zeros}

unfoldable pub add_event : (epollfd fd : ℕ) → Events → Prog (Unit {0})
add_event epollfd fd state = sys (epoll_ctl epollfd ctl_add fd state) >> skip

unfoldable pub delete_event : (epollfd fd : ℕ) → Events → Prog (Unit {0})
delete_event epollfd fd state = sys (epoll_ctl epollfd ctl_del fd state) >> skip

unfoldable pub modify_event : (epollfd fd : ℕ) → Events → Prog (Unit {0})
modify_event epollfd fd state = sys (epoll_ctl epollfd ctl_mod fd state) >> skip

-- Where a text is wanted, an array without a NUL is read past its end.
unfoldable pub text_of : Bytes → Prog Bytes
text_of buf = elim (c_str buf) [ none ↦ fault | some t ↦ ret t ]

unfoldable pub handle_accept : (epollfd listenfd : ℕ) → Prog (Unit {0})
unfolding add_event
handle_accept epollfd listenfd = do
  clifd ← sys (accept listenfd)
  elim clifd [ none ↦ skip | some fd ↦ add_event epollfd fd for_input ]

-- Each handler answers the buffer that it leaves. After the read, by its answer:
unfoldable pub after_read : (epollfd fd : ℕ) → Bytes → Option Bytes → Prog Bytes
unfolding delete_event modify_event text_of
after_read epollfd fd buf none = do sys (close fd); delete_event epollfd fd for_input; ret buf
after_read epollfd fd buf (some []) = do sys (close fd); delete_event epollfd fd for_input; ret buf
after_read epollfd fd buf (some (b ∷ bs)) = do
  let buf' = filled (b ∷ bs) buf
  t ← text_of buf'
  sys (printf (codes "read message: " ++ t))
  modify_event epollfd fd for_output
  ret buf'

unfoldable pub do_read : (epollfd fd : ℕ) → Bytes → Prog Bytes
unfolding after_read
do_read epollfd fd buf = sys (read fd maxsize) >>= after_read epollfd fd buf

unfoldable pub do_write : (epollfd fd : ℕ) → Bytes → Prog Bytes
unfolding delete_event modify_event text_of
do_write epollfd fd buf = do
  t ← text_of buf
  nwrite ← sys (write fd t)
  elim nwrite [
    | none ↦ sys (close fd) >> delete_event epollfd fd for_output
    | some n ↦ modify_event epollfd fd for_input
  ]
  ret (zeros maxsize)

unfoldable pub handle_event : (epollfd listenfd : ℕ) → Bytes → EpollEvent → Prog Bytes
unfolding handle_accept do_read do_write
handle_event epollfd listenfd buf ev =
    if ev.fd == listenfd && ev.events.epollin
    then handle_accept epollfd listenfd >> ret buf
    else if ev.events.epollin
    then do_read epollfd ev.fd buf
    else if ev.events.epollout
    then do_write epollfd ev.fd buf
    else ret buf

unfoldable pub handle_events : (epollfd listenfd : ℕ) → Bytes → List EpollEvent → Prog Bytes
handle_events epollfd listenfd buf [] = ret buf
handle_events epollfd listenfd buf (ev ∷ evs) =
    handle_event epollfd listenfd buf ev >>= λ buf'. handle_events epollfd listenfd buf' evs

-- The loop of `do_epoll`, `n` rounds of it.
unfoldable pub serve : (n epollfd listenfd : ℕ) → Bytes → Prog Bytes
serve zero epollfd listenfd buf = ret buf
serve (suc n) epollfd listenfd buf = do
  ready ← sys (epoll_wait epollfd epollevents)
  evs ← or_exit 255 ready
  buf' ← handle_events epollfd listenfd buf evs
  serve n epollfd listenfd buf'

unfoldable pub do_epoll : (n listenfd : ℕ) → Prog (Unit {0})
unfolding add_event serve
do_epoll n listenfd = do
  created ← sys (epoll_create fdsize)
  epollfd ← or_exit 255 created
  add_event epollfd listenfd for_input
  serve n epollfd listenfd (zeros maxsize)
  sys (close epollfd)

unfoldable pub socket_bind : ℕ → Prog ℕ
socket_bind p = do
  made ← sys socket
  listenfd ← or_exit 255 made
  bound ← sys (bind listenfd p)
  or_exit 255 bound
  ret listenfd

unfoldable pub main : ℕ → Prog (Unit {0})
unfolding socket_bind do_epoll
main n = do listenfd ← socket_bind port; sys (listen listenfd listenq); do_epoll n listenfd
