-- ===== src/Server/Hosts/Tests.antt =====
-- A client from 127.0.0.1, and then one from 10.0.0.2.
use nonblocking_io.Common.{ℕ, ◌≡◌, refl, some, [], ◌∷◌, ◌++◌, pos, suc, All, bytes}
use nonblocking_io.Epoll.{epollin}
use nonblocking_io.Server.{client_of, on_event}
use nonblocking_io.Server.Hosts.{
  Arrival, accepted_at, no_hosts, host_text, dotted, arrive, arrivals, hosts_overwritten,
}

abbrev first : Arrival
first = record { events = epollin; client_fd = pos 5; addr = 0x0100007f; port = 5000 }

abbrev second : Arrival
second = record { events = epollin; client_fd = pos 6; addr = 0x0200000a; port = 5001 }

dotted_second : (dotted 0x0100007f ≡ bytes "127.0.0.1") × (dotted 0x0200000a ≡ bytes "10.0.0.2")
unfolding dotted
dotted_second = (refl, refl)

hosts_overwritten_example :
    let h = arrivals (first ∷ []) no_hosts in
    let h' = arrive second h in
    (fd : ℕ) × (◌≡◌ (pos 6) (pos (suc fd)))
    × (h'.server.submitted ≡ h.server.submitted ++ (client_of (suc fd) (accepted_at second) ∷ []))
    × All (λ c. host_text h' c ≡ some (dotted 0x0200000a)) h'.server.submitted
unfolding arrivals arrive on_event
hosts_overwritten_example = hosts_overwritten (first ∷ []) second refl
