-- ===== src/Programs/Pipe/Tests.antt =====
-- Two pipes that hang up.
use Prim.Native.Nat.{bit_or}
use nonblocking_io.Common.{◌≡◌, refl, true, false, some, List, [], ◌∷◌, ℤ, pos, negsuc}
use nonblocking_io.Epoll.{Event, epollin, epollhup}
use nonblocking_io.Programs.Pipe.{epoll_pipe}

abbrev hang_ups : List (List (Event × ℤ))
hang_ups =
    ((record { fd = 5; events = epollhup }, pos 0)
      ∷ (record { fd = 6; events = epollin }, pos 3)
      ∷ [])
    ∷ ((record { fd = 6; events = bit_or epollin epollhup }, pos 0) ∷ [])
    ∷ []

-- The second hang-up comes with `EPOLLIN`, and the loop goes on.
one_left :
    epoll_pipe 3 false (pos 4) (pos 5 ∷ pos 6 ∷ []) hang_ups
    ≡ some (record { open_fd = pos 1; reads = (6, pos 3) ∷ (6, pos 0) ∷ []; aborted = false })
unfolding epoll_pipe
one_left = refl

no_file :
    epoll_pipe 3 false (pos 4) (pos 5 ∷ negsuc 0 ∷ []) hang_ups
    ≡ some (record { open_fd = pos 0; reads = []; aborted = true })
unfolding epoll_pipe
no_file = refl
