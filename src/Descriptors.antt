-- ===== src/Descriptors.antt =====
-- Who opens and closes descriptors: the constructors and destructors of tcp_client and
-- epoll_wrapper, and the accept loop of tcp_server.cpp, over the process's table of descriptors,
-- which is a parameter.
pub mod Scopes
pub mod Distinct
pub mod Lowest
mod Tests
use mathlib.Core.Option
use nonblocking_io.Server.{Server, Accepted, on_event}
use nonblocking_io.Epoll.{is_minus_one}
use nonblocking_io.Common.{
  ◌==◌, if◌then◌else◌, Option, none, some, ℕ, zero, suc, ◌≡◌, ◌≢◌, Bool, true, false, List, [], ◌∷◌,
  ℤ, pos, negsuc,
}

-- The table: `socket`, `epoll_create1`, `accept` and `close`, each with what it returns.
pub record Files (State : Type 0) : Type 0 where
  pub socket : State → ℤ × State
  pub epoll_create : State → ℤ × State
  pub accept : State → ℤ × State
  pub close : State → ℤ → ℤ × State
  pub is_open : State → ℕ → Bool

-- A call that opens: it returns a descriptor that was not open, and opens it, or -1; no other
-- descriptor is touched.
pub record Opens {State : Type 0} (f : Files State) (call : State → ℤ × State) : Type 0 where
  pub was_free : (s : State) (fd : ℕ) → (call s).0 ≡ pos fd → f.is_open s fd ≡ false
  pub opened : (s : State) (fd : ℕ) → (call s).0 ≡ pos fd → f.is_open (call s).1 fd ≡ true
  pub others : (s : State) (fd : ℕ) → (call s).0 ≢ pos fd → f.is_open (call s).1 fd ≡ f.is_open s fd

-- What socket(2), epoll_create1(2), accept(2) and close(2) say. A `close` of what is not open fails.
pub record IsTable {State : Type 0} (f : Files State) : Type 0 where
  pub socket_opens : Opens f f.socket
  pub epoll_opens : Opens f f.epoll_create
  pub accept_opens : Opens f f.accept
  pub closed : (s : State) (fd : ℕ) → f.is_open (f.close s (pos fd)).1 fd ≡ false
  pub close_others :
      (s : State) (fd other : ℕ)
      → fd ≢ other
      → f.is_open (f.close s (pos fd)).1 other ≡ f.is_open s other
  pub close_bad :
      (s : State) (n other : ℕ) → f.is_open (f.close s (negsuc n)).1 other ≡ f.is_open s other

-- The classes whose constructor opens a descriptor, which their destructor closes.
pub data Kind : Type 0 where
  tcp_client : Kind
  epoll_wrapper : Kind

-- `CHECK_PERROR_ABT` ends the process where the wrapper has no descriptor; a client without one
-- lives on.
abbrev pub aborts : Kind → ℤ → Bool
aborts epoll_wrapper r = is_minus_one r
aborts tcp_client r = false

module _ {State : Type 0} (f : Files State) where
  abbrev pub construct : Kind → State → ℤ × State
  construct tcp_client s = f.socket s
  construct epoll_wrapper s = f.epoll_create s

  abbrev pub destroy : (fd : ℤ) → State → State
  destroy fd s = (f.close s fd).1

  -- Objects of nested scopes, each made after those around it, and destroyed before them.
  unfoldable pub scopes : List Kind → State → Option State
  scopes [] s = some s
  scopes (kind ∷ inner) s =
      let (fd, made) = construct kind s in
      let left = Option.map (destroy fd) (scopes inner made) in
      if aborts kind fd then none else left

  -- One event of the listening socket: where `accept` is called, it opens a descriptor.
  unfoldable pub connection :
      (events : ℕ) (host : Option ℕ) (port : ℕ) → Server × State → Server × State
  connection events host port (s, t) =
      let (fd, u) = f.accept t in
      let s' = on_event events (record { client_fd = fd; host = host; port = port }) s in
      (s', if s'.calls == s.calls then t else u)

  unfoldable pub connections : List (ℕ × (Option ℕ × ℕ)) → Server × State → Server × State
  connections [] st = st
  connections ((events, (host, port)) ∷ rest) st = connections rest (connection events host port st)
