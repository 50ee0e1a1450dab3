-- ===== src/Epoll/Tests.antt =====
-- The wrapper, run on an interest list that is a map.
use nonblocking_io.Common.{ℕ, ◌≡◌, refl, true, false, List, [], ◌∷◌, pos, negsuc, lookup}
use nonblocking_io.Epoll.Listed.{kernel}
use nonblocking_io.Epoll.{open_epoll, epollin, add_event, modify_event}

-- An instance that cannot be made ends the process; flags that cannot be set do not.
opened :
    (open_epoll (negsuc 0) (λ fd. pos 0)
      ≡ record { epoll_fd = negsuc 0; printed = true; aborted = true })
    × (open_epoll (pos 3) (λ fd. negsuc 0)
        ≡ record { epoll_fd = pos 3; printed = true; aborted = false })
unfolding open_epoll
opened = (refl, refl)

abbrev one_client : List (ℕ × ℕ)
one_client = (5, epollin) ∷ []

-- A descriptor that is there keeps its bits: `modify_event` fails and prints an error, and `add_event`
-- does so silently without `ignore_err`.
kept :
    (modify_event (kernel 2) one_client 5 3
      ≡ record { value = negsuc 0; printed = true; after = one_client })
    × (add_event (kernel 2) one_client 5 3 false
        ≡ record { value = pos 0; printed = false; after = one_client })
unfolding modify_event add_event lookup
kept = (refl, refl)

-- In an instance that has no room left, the default `ignore_err` hides that an add has failed.
failure_hidden :
    add_event (kernel 1) one_client 6 epollin false
    ≡ record { value = pos 0; printed = false; after = one_client }
unfolding add_event lookup
failure_hidden = refl
