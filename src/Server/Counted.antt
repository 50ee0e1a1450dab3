-- ===== src/Server/Counted.antt =====
-- The count of connections in tcp_server.cpp, over the events of the listening socket.
use nonblocking_io.Common.{
  ℕ, zero, suc, ◌+◌, ◌≤◌, ◌<◌, ◌≡◌, refl, List, [], ◌∷◌, arith, ℤ, pos, negsuc, length,
  length-append,
}
use nonblocking_io.Server.{
  server_max_connection, Accepted, Server, client_of, welcome, on_event, on_events,
  poll_for_connect, new_server,
}

pub record IsCounted (s : Server) : Type 0 where
  pub count : s.connected_num ≡ length s.submitted
  pub limit : s.connected_num ≤ server_max_connection
  pub called : s.connected_num ≤ s.calls

welcome-IsCounted :
    (fd : ℤ) (a : Accepted) {s : Server}
    → IsCounted s
    → s.connected_num < server_max_connection
    → IsCounted (welcome fd a (record s { calls = s.calls + 1 }))
welcome-IsCounted (pos zero) a h room = record {
  count = h.count;
  limit = h.limit;
  called = omega arith;
}
welcome-IsCounted (pos (suc fd)) a {s} h room = record {
  count = omega (arith, length-append s.submitted (client_of (suc fd) a ∷ []));
  limit = omega arith;
  called = omega arith;
}
welcome-IsCounted (negsuc n) a h room = record {
  count = h.count;
  limit = h.limit;
  called = omega arith;
}

pub on_event-IsCounted :
    (events : ℕ) (a : Accepted) {s : Server} → IsCounted s → IsCounted (on_event events a s)
unfolding on_event
on_event-IsCounted events a {s} h = ground (arith, welcome-IsCounted a.client_fd a h)

pub on_events-IsCounted :
    (batch : List (ℕ × Accepted)) {s : Server} → IsCounted s → IsCounted (on_events batch s)
unfolding on_events
on_events-IsCounted [] h = h
on_events-IsCounted ((events, a) ∷ rest) h =
    let h' = on_event-IsCounted events a h in ground (arith, h', on_events-IsCounted rest h')

pub poll-IsCounted :
    (batches : List (List (ℕ × Accepted))) {s : Server}
    → IsCounted s
    → IsCounted (poll_for_connect batches s)
unfolding poll_for_connect
poll-IsCounted [] h = h
poll-IsCounted (batch ∷ batches) h =
    let h' = on_events-IsCounted batch h in ground (arith, h', poll-IsCounted batches h')

pub new_server-IsCounted : IsCounted new_server
new_server-IsCounted = record { count = refl; limit = omega arith; called = omega arith }

pub welcome_running : (fd : ℤ) (a : Accepted) (s : Server) → (welcome fd a s).aborted ≡ s.aborted
welcome_running (pos zero) a s = refl
welcome_running (pos (suc fd)) a s = refl
welcome_running (negsuc n) a s = refl
