-- ===== src/Server/Tests.antt =====
-- The server on small inputs, and the theorems applied.
use nonblocking_io.Common.{
  ℕ, ◌≡◌, refl, true, false, none, some, List, [], ◌∷◌, ℤ, pos, negsuc, take,
}
use nonblocking_io.Epoll.{epollin, epollpri, epollhup}
use nonblocking_io.Server.{server_max_connection, Accepted, poll_for_connect, new_server}
use nonblocking_io.Server.Calls.{calls_until, all_attempts}
use nonblocking_io.Server.Limit.{all_arrivals, first_connections_only}

abbrev arrival_of : (fd : ℤ) → ℕ × Accepted
arrival_of fd = (epollin, record { client_fd = fd; host = some 7; port = 5000 })

-- Two clients, one failing `accept`, and an event without `EPOLLIN`.
abbrev run : List (List (ℕ × Accepted))
run =
    (arrival_of (pos 5) ∷ arrival_of (negsuc 0) ∷ [])
    ∷ []
    ∷ ((epollpri, record { client_fd = pos 9; host = none; port = 1 }) ∷ arrival_of (pos 6) ∷ [])
    ∷ []

run_counts :
    ((poll_for_connect run new_server).connected_num ≡ 2)
    × ((poll_for_connect run new_server).calls ≡ 3)
    × ((poll_for_connect run new_server).aborted ≡ false)
unfolding poll_for_connect nonblocking_io.Server.on_events nonblocking_io.Server.on_event
run_counts = (refl, refl, refl)

-- A hang-up without `EPOLLIN` ends the process.
hang_up_aborts :
    (poll_for_connect (((epollhup, (arrival_of (pos 5)).1) ∷ []) ∷ run) new_server).aborted ≡ true
unfolding poll_for_connect nonblocking_io.Server.on_events nonblocking_io.Server.on_event
hang_up_aborts = refl

first_connections_only_example :
    ((poll_for_connect run new_server).submitted ≡ take server_max_connection (all_arrivals run))
    × ((poll_for_connect run new_server).calls
        ≡ calls_until server_max_connection (all_attempts run))
first_connections_only_example =
    first_connections_only run ((refl, (refl, tt)), (tt, ((refl, (refl, tt)), tt)))
