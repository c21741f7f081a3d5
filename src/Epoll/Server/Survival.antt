-- ===== src/Epoll/Server/Survival.antt =====
-- Nothing that a client does ends epoll_demo/epoll_server.c with an exit.
use unix_demos.Base.{
  ℕ, ◌≢◌, ◌&&◌, Option, none, some, List, [], ◌∷◌, arith, inl, inr, ◌==◌, Bool-cases, Option-cases,
}
use unix_demos.Os.{Bytes, EpollEvent, accept, read, write, ◌>>◌, ret}
use unix_demos.Os.Run.{Kernel, exited, run, and_then, run->>=, Ended-cases}
use unix_demos.Epoll.{maxsize}
use unix_demos.Epoll.Buffer.{c_str, filled}
use unix_demos.Epoll.Server.{
  handle_accept, do_read, do_write, add_event, delete_event, modify_event, text_of, after_read,
  handle_event, handle_events,
}

module _ {K : Type 0} (kernel : Kernel K) (epollfd listenfd : ℕ) where
  handle_accept-ne-exited :
      (buf : Bytes) (s : K) (n : ℕ)
      → (run kernel (handle_accept epollfd listenfd >> ret buf) s).ended ≢ exited n
  unfolding run handle_accept add_event
  handle_accept-ne-exited buf s n = elim (Option-cases (kernel (accept listenfd) s).0) [
    | inl e ↦ ground (arith, e)
    | inr (fd, e) ↦ ground (arith, e)
  ]

  after_read-ne-exited :
      (fd : ℕ) (buf : Bytes) (answer : Option Bytes) (s : K) (n : ℕ)
      → (run kernel (after_read epollfd fd buf answer) s).ended ≢ exited n
  unfolding run after_read delete_event modify_event text_of
  after_read-ne-exited fd buf none s n = ground arith
  after_read-ne-exited fd buf (some []) s n = ground arith
  after_read-ne-exited fd buf (some (b ∷ bs)) s n =
      elim (Option-cases (c_str (filled (b ∷ bs) buf))) [
        | inl e ↦ ground (arith, e)
        | inr (t, e) ↦ ground (arith, e)
      ]

  do_write-ne-exited :
      (fd : ℕ) (buf : Bytes) (s : K) (n : ℕ)
      → (run kernel (do_write epollfd fd buf) s).ended ≢ exited n
  unfolding run do_write delete_event modify_event text_of
  do_write-ne-exited fd buf s n = elim (Option-cases (c_str buf)) [
    | inl e ↦ ground (arith, e)
    | inr (t, e) ↦ elim (Option-cases (kernel (write fd t) s).0) [
      | inl e' ↦ ground (arith, e, e')
      | inr (m, e') ↦ ground (arith, e, e')
    ]
  ]

  handle_event-ne-exited :
      (buf : Bytes) (ev : EpollEvent) (s : K) (n : ℕ)
      → (run kernel (handle_event epollfd listenfd buf ev) s).ended ≢ exited n
  unfolding run handle_event do_read
  handle_event-ne-exited buf ev s n = elim (Bool-cases (ev.fd == listenfd && ev.events.epollin)) [
    | inl e ↦ rw e (handle_accept-ne-exited buf s n)
    | inr e ↦ elim (Bool-cases ev.events.epollin) [
      | inl e' ↦
          rw (e, e')
            (after_read-ne-exited ev.fd buf (kernel (read ev.fd maxsize) s).0
              (kernel (read ev.fd maxsize) s).1 n)
      | inr e' ↦ elim (Bool-cases ev.events.epollout) [
        | inl e'' ↦ rw (e, e', e'') (do_write-ne-exited ev.fd buf s n)
        | inr e'' ↦ rw (e, e', e'') (ground arith)
      ]
    ]
  ]

  -- Whatever the calls answer, errors included, the handling of the events that are ready ends
  -- with no exit of the server.
  pub handle_events-ne-exited :
      (evs : List EpollEvent) (buf : Bytes) (s : K) (n : ℕ)
      → (run kernel (handle_events epollfd listenfd buf evs) s).ended ≢ exited n
  unfolding run handle_events and_then
  handle_events-ne-exited [] buf s n = ground arith
  handle_events-ne-exited (ev ∷ evs) buf s n =
      let d = run kernel (handle_event epollfd listenfd buf ev) s in
      let b =
        run->>= kernel (handle_event epollfd listenfd buf ev)
          (λ buf'. handle_events epollfd listenfd buf' evs) s in
      elim (Ended-cases d.ended) [
        | inl (buf', e) ↦ ground (arith, b, e, handle_events-ne-exited evs buf' d.after n)
        | inr (inl (m, e)) ↦ absurd (handle_event-ne-exited buf ev s m e)
        | inr (inr e) ↦ ground (arith, b, e)
      ]
