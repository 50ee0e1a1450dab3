-- ===== src/Server.antt =====
-- tcp_server.h and tcp_server.cpp: the socket's set-up and the loop that accepts connections.
pub mod Burst
pub mod Startup
pub mod Counted
pub mod Calls
pub mod Limit
pub mod Cases
pub mod Hosts
mod Tests
use Prim.Native.Nat.{bit_and, bit_or}
use nonblocking_io.Common.{
  ℕ, zero, suc, ◌+◌, ◌^◌, ◌%◌, Bool, true, false, not, ◌&&◌, Option, none, some, List, [], ◌∷◌,
  ◌++◌, ltb, ◌==◌, if◌then◌else◌, ℤ, pos, negsuc,
}
use nonblocking_io.Epoll.{has, epollin, epollpri, epollerr, epollhup, epollet}
use nonblocking_io.WorkerPool.{ClientInfo}

-- `NORMAL_EPOLLEV`
abbrev pub normal_epollev : ℕ
normal_epollev = bit_or (bit_or (bit_or (bit_or epollin epollpri) epollet) epollhup) epollerr

-- `SERVER_MAX_CONNECTION`
abbrev pub server_max_connection : ℕ
server_max_connection = 2048

-- What `accept` would give if it were called: the descriptor, the pointer that `inet_ntoa` gives for
-- the client's address, and its port.
pub record Accepted : Type 0 where
  pub client_fd : ℤ
  pub host : Option ℕ
  pub port : ℕ

-- `connected_num_` is an `uint32_t`. `calls` counts the calls of `accept`; `submitted` are the clients
-- that have gone to the worker pool; `aborted` says that the process has ended itself.
pub record Server : Type 0 where
  pub connected_num : ℕ
  pub calls : ℕ
  pub submitted : List ClientInfo
  pub aborted : Bool

abbrev pub client_of : ℕ → Accepted → ClientInfo
client_of fd a = record { host = a.host; port = a.port; fd = fd; events = normal_epollev }

-- `client_fd > 0`
abbrev pub welcome : ℤ → Accepted → Server → Server
welcome (pos zero) a s = s
welcome (pos (suc fd)) a s = record s {
  submitted = s.submitted ++ (client_of (suc fd) a ∷ []);
  connected_num = (s.connected_num + 1) % 2 ^ 32;
}
welcome (negsuc n) a s = s

-- One event of the listening socket.
unfoldable pub on_event : (events : ℕ) → Accepted → Server → Server
on_event events a s =
    if has events epollin && ltb s.connected_num server_max_connection
    then welcome a.client_fd a (record s { calls = s.calls + 1 })
    else if has events (bit_or epollhup epollerr)
    then record s { aborted = true }
    else s

-- The callback of `poll_for_connect` over the events of one `epoll_wait`, each with what `accept`
-- would give; the process ends at an abort.
unfoldable pub on_events : List (ℕ × Accepted) → Server → Server
on_events [] s = s
on_events ((events, a) ∷ rest) s =
    let s' = on_event events a s in let done = on_events rest s' in if s'.aborted then s' else done

-- `poll_for_connect`, over what the calls of `epoll_wait` deliver.
unfoldable pub poll_for_connect : List (List (ℕ × Accepted)) → Server → Server
poll_for_connect [] s = s
poll_for_connect (batch ∷ batches) s =
    let s' = on_events batch s in
    let done = poll_for_connect batches s' in if s'.aborted then s' else done

abbrev pub new_server : Server
new_server = record { connected_num = 0; calls = 0; submitted = []; aborted = false }
