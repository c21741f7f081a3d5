-- ===== src/Examples/Epolls.antt =====
-- epoll_demo/ against concrete kernels.
use unix_demos.Base.{ℕ, zero, suc, ◌≡◌, ◌≢◌, refl, true, some, List, [], ◌∷◌, ◌++◌, arith, length}
use unix_demos.Os.{Bytes, Call, EpollEvent, ◌>>=◌, write}
use unix_demos.Os.Run.{returned, exited, run}
use unix_demos.Epoll.{maxsize, for_input}
use unix_demos.Os.Text.{zeros, no_nul}
use unix_demos.Epoll.Server.{do_read, do_write, handle_events}
use unix_demos.Epoll.Server.Echo.{after_write, read_calls, do_read-do_write, do_read_twice-do_write}
use unix_demos.Epoll.Server.Survival.{handle_events-ne-exited}
use unix_demos.Epoll.Client.Turns.{typed_calls, answered_calls, send, print, send-print}
use unix_demos.Examples.Kernels.{plain, reading}

abbrev hi : Bytes
hi = b'h' ∷ b'i' ∷ b'\n' ∷ []

abbrev hey : Bytes
hey = b'h' ∷ b'e' ∷ b'y' ∷ b'\n' ∷ []

do_read-do_write_example :
    ((run reading (do_read 4 7 (zeros maxsize) >>= do_write 4 7) (hi ∷ [])).ended
      ≡ returned (zeros maxsize))
    × ((run reading (do_read 4 7 (zeros maxsize) >>= do_write 4 7) (hi ∷ [])).calls
        ≡ read_calls 4 7 hi ++ (write 7 hi ∷ after_write 4 7 (some 1)))
do_read-do_write_example =
    do_read-do_write reading 4 7 (hi ∷ []) b'h' (b'i' ∷ b'\n' ∷ []) refl refl (omega arith)

do_read_twice-do_write_example :
    (rest : List Call) × ((run reading
        (do_read 4 7 (zeros maxsize) >>= λ buf. do_read 4 8 buf >>= do_write 4 7)
        (hi ∷ hey ∷ [])).calls
      ≡ read_calls 4 7 hi ++ (read_calls 4 8 hey ++ write 7 hey ∷ rest))
do_read_twice-do_write_example =
    do_read_twice-do_write reading 4 7 8 (hi ∷ hey ∷ []) b'h' b'h' (b'i' ∷ b'\n' ∷ [])
      (b'e' ∷ b'y' ∷ b'\n' ∷ []) refl refl refl refl (omega arith) (omega arith)

-- 1,024 bytes, none of them NUL.
ones : ℕ → Bytes
ones zero = []
ones (suc n) = 1 ∷ ones n

length-ones : (n : ℕ) → length (ones n) ≡ n
unfolding ones
length-ones zero = refl
length-ones (suc n) = ground (arith, length-ones n)

no_nul-ones : (n : ℕ) → no_nul (ones n) ≡ true
unfolding ones
no_nul-ones zero = refl
no_nul-ones (suc n) = ground (arith, no_nul-ones n)

abbrev two_events : List EpollEvent
two_events = record { fd = 3; events = for_input } ∷ record { fd = 7; events = for_input } ∷ []

handle_events-ne-exited_example :
    (run plain (handle_events 4 3 (zeros 1024) two_events) tt).ended ≢ exited 255
handle_events-ne-exited_example = handle_events-ne-exited plain 4 3 two_events (zeros 1024) tt 255

send-print_example :
    ((run reading (send 4 3 (zeros maxsize) >>= print 4 3) (hi ∷ hi ∷ [])).ended
      ≡ returned (zeros maxsize))
    × ((run reading (send 4 3 (zeros maxsize) >>= print 4 3) (hi ∷ hi ∷ [])).calls
        ≡ typed_calls 4 3 hi ++ answered_calls 4 3 hi)
send-print_example =
    send-print reading 4 3 (hi ∷ hi ∷ []) b'h' b'h' 1 1 (b'i' ∷ b'\n' ∷ []) (b'i' ∷ b'\n' ∷ [])
      (omega arith) (omega arith) refl refl refl refl refl refl (omega arith) (omega arith)
