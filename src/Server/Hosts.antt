-- ===== src/Server/Hosts.antt =====
-- The hosts of the clients that `poll_for_connect` submits: `inet_ntoa` gives a pointer into one
-- static buffer, which each call writes again, and `client_info` keeps the pointer.
mod Tests
use mathlib.Core.Path.{subst}
use nonblocking_io.Common.{
  ℕ, zero, suc, ◌+◌, ◌/◌, ◌%◌, ◌==◌, ◌^◌, ◌<◌, ◌≡◌, refl, sym, ap, ◌∙◌, Bool, true, false, ◌&&◌,
  Option, none, some, List, [], ◌∷◌, ◌++◌, arith, ltb, if◌then◌else◌, ℤ, pos, negsuc, All,
  All-append_one, All-map, inl, inr, bytes, decimal,
}
use nonblocking_io.Epoll.{has, epollin}
use nonblocking_io.WorkerPool.{ClientInfo}
use nonblocking_io.Server.Cases.{on_event_cases}
use nonblocking_io.Server.{
  server_max_connection, Accepted, Server, client_of, welcome, on_event, new_server,
}

-- `inet_ntoa`: the four bytes of an address as numbers, the first in memory first.
unfoldable pub dotted : ℕ → List ℕ
unfolding bytes decimal
dotted addr =
    decimal (addr % 256)
    ++ (bytes "."
        ++ (decimal ((addr / 256) % 256)
            ++ (bytes "."
                ++ (decimal ((addr / 2 ^ 16) % 256)
                    ++ (bytes "." ++ decimal ((addr / 2 ^ 24) % 256))))))

-- The static buffer of `inet_ntoa`, and its pointer.
abbrev pub ntoa_buffer : ℕ
ntoa_buffer = 1

pub record Hosts : Type 0 where
  pub server : Server
  pub text : List ℕ

-- What `%s` shows of a client's host now; `none` for the null pointer and others.
abbrev pub host_text : Hosts → ClientInfo → Option (List ℕ)
host_text h c = elim c.host [
  | none ↦ none
  | some p ↦ if p == ntoa_buffer then some h.text else none
]

-- `client_fd > 0`
abbrev pub is_positive : ℤ → Bool
is_positive (pos zero) = false
is_positive (pos (suc fd)) = true
is_positive (negsuc n) = false

-- An event of the listening socket, and what `accept` would give: a descriptor, an address, a port.
pub record Arrival : Type 0 where
  pub events : ℕ
  pub client_fd : ℤ
  pub addr : ℕ
  pub port : ℕ

-- The pointer that `inet_ntoa` gives is the same for all.
abbrev pub accepted_at : Arrival → Accepted
accepted_at a = record { client_fd = a.client_fd; host = some ntoa_buffer; port = a.port }

-- Whether the event brings a client that is submitted.
abbrev pub is_taken : Arrival → Server → Bool
is_taken a s =
    (has a.events epollin && ltb s.connected_num server_max_connection) && is_positive a.client_fd

unfoldable pub arrive : Arrival → Hosts → Hosts
arrive a h = record {
  server = on_event a.events (accepted_at a) h.server;
  text = if is_taken a h.server then dotted a.addr else h.text;
}

unfoldable pub arrivals : List Arrival → Hosts → Hosts
arrivals [] h = h
arrivals (a ∷ rest) h = arrivals rest (arrive a h)

abbrev pub no_hosts : Hosts
no_hosts = record { server = new_server; text = [] }

-- The host of a client is a pointer to the buffer.
abbrev Points : ClientInfo → Type 0
Points c = c.host ≡ some ntoa_buffer

welcome-Points :
    (r : ℤ) (a : Accepted) (s : Server)
    → a.host ≡ some ntoa_buffer
    → All Points s.submitted
    → All Points (welcome r a s).submitted
welcome-Points (pos zero) a s e h = h
welcome-Points (pos (suc fd)) a s e h = All-append_one Points s.submitted (client_of (suc fd) a) h e
welcome-Points (negsuc n) a s e h = h

arrive-Points :
    (a : Arrival) (h : Hosts)
    → All Points h.server.submitted
    → All Points (arrive a h).server.submitted
unfolding arrive
arrive-Points a h all = elim (on_event_cases a.events (accepted_at a) h.server) [
  | inl called ↦
      subst (λ (s : Server). All Points s.submitted) (sym called)
        (welcome-Points a.client_fd (accepted_at a) (record h.server { calls = h.server.calls + 1 })
          refl all)
  | inr (same, _) ↦ subst (All Points) (sym same) all
]

arrivals-Points :
    (before : List Arrival) (h : Hosts)
    → All Points h.server.submitted
    → All Points (arrivals before h).server.submitted
unfolding arrivals
arrivals-Points [] h all = all
arrivals-Points (a ∷ rest) h all = arrivals-Points rest (arrive a h) (arrive-Points a h all)

positive_lem : (r : ℤ) → is_positive r ≡ true → (fd : ℕ) × (r ≡ pos (suc fd))
positive_lem (pos zero) e = absurd (ground (arith, e))
positive_lem (pos (suc fd)) e = (fd, refl)
positive_lem (negsuc n) e = absurd (ground (arith, e))

submitted-taken :
    (a : Arrival) (s : Server) (fd : ℕ)
    → is_taken a s ≡ true
    → a.client_fd ≡ pos (suc fd)
    → (on_event a.events (accepted_at a) s).submitted
      ≡ s.submitted ++ (client_of (suc fd) (accepted_at a) ∷ [])
unfolding on_event
submitted-taken a s fd taken e = ground (arith, taken, e)

-- Whatever connections have come to a new server, and when a further one is taken: the client is
-- submitted behind those before, and from then on the host of each client that has been submitted
-- reads as the address of the last one.
pub hosts_overwritten :
    (before : List Arrival) (a : Arrival)
    → is_taken a (arrivals before no_hosts).server ≡ true
    → let h = arrivals before no_hosts in
      let h' = arrive a h in
      (fd : ℕ) × (a.client_fd ≡ pos (suc fd))
      × (h'.server.submitted ≡ h.server.submitted ++ (client_of (suc fd) (accepted_at a) ∷ []))
      × All (λ c. host_text h' c ≡ some (dotted a.addr)) h'.server.submitted
unfolding arrive
hosts_overwritten before a taken =
    let h : Hosts = arrivals before no_hosts in
    let (fd, e) = positive_lem a.client_fd (ground (arith, taken)) in
    (
      fd,
      e,
      submitted-taken a h.server fd taken e,
      All-map (λ c points. ground (arith, points, taken)) (arrive a h).server.submitted
          (arrive-Points a h (arrivals-Points before no_hosts tt)),
    )
