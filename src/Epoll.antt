-- ===== src/Epoll.antt =====
-- The echo server and its client, epoll_demo/epoll_server.c and epoll_demo/epoll_cli.c. Text for stderr is
-- left out; `epoll_wait` answers the ready descriptors, and a loop takes the number of its rounds.
pub mod Buffer
pub mod Server
pub mod Client
use unix_demos.Base.{ℕ, Bool, true, false}
use unix_demos.Os.{Events}

abbrev pub maxsize : ℕ
maxsize = 1024

abbrev pub port : ℕ
port = 8080

abbrev pub listenq : ℕ
listenq = 20

abbrev pub epollevents : ℕ
epollevents = 100

abbrev pub fdsize : ℕ
fdsize = 1024

-- EPOLLIN and EPOLLOUT
abbrev pub for_input : Events
for_input = record { epollin = true; epollout = false }

abbrev pub for_output : Events
for_output = record { epollin = false; epollout = true }
