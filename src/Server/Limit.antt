-- ===== src/Server/Limit.antt =====
-- The limit on connections, which counts all that have ever been accepted.
use Prim.Native.Nat.{bit_or}
use nonblocking_io.Common.{
  ℕ, zero, suc, ◌+◌, ◌<◌, ◌≡◌, refl, sym, ap, ◌∙◌, false, List, [], ◌∷◌, ◌++◌, arith, ltb,
  if◌then◌else◌, ℤ, pos, negsuc, length, take, take-append, take-all, All, Bool-cases, inl, inr,
  append_assoc, append-nil,
}
use nonblocking_io.Epoll.{has, epollin, epollerr, epollhup}
use nonblocking_io.WorkerPool.{ClientInfo}
use nonblocking_io.Server.Counted.{
  IsCounted, on_event-IsCounted, on_events-IsCounted, new_server-IsCounted, welcome_running,
}
use nonblocking_io.Server.Calls.{IsQuiet, calls_until, all_attempts, poll_called}
use nonblocking_io.Server.{
  server_max_connection, Accepted, Server, client_of, welcome, on_event, on_events,
  poll_for_connect, new_server,
}

abbrev pub arrival : ℤ → Accepted → List ClientInfo
arrival (pos zero) a = []
arrival (pos (suc fd)) a = client_of (suc fd) a ∷ []
arrival (negsuc n) a = []

abbrev pub arrival_if : (events : ℕ) → Accepted → List ClientInfo
arrival_if events a = if has events epollin then arrival a.client_fd a else []

-- The clients that `accept` would give over the events, were it called for each.
unfoldable pub arrivals : List (ℕ × Accepted) → List ClientInfo
arrivals [] = []
arrivals ((events, a) ∷ rest) = arrival_if events a ++ arrivals rest

full_taken :
    {xs : List ClientInfo} (ys : List ClientInfo)
    → length xs ≡ server_max_connection
    → xs ≡ take server_max_connection (xs ++ ys)
full_taken {xs} ys h = sym (take-append xs ys) ∙ ap (λ n. take n (xs ++ ys)) h

welcome_taken :
    (fd : ℤ) (a : Accepted) {s : Server}
    → IsCounted s
    → s.connected_num < server_max_connection
    → (welcome fd a (record s { calls = s.calls + 1 })).submitted ≡ s.submitted ++ arrival fd a
welcome_taken (pos zero) a {s} h room = sym (append-nil s.submitted)
welcome_taken (pos (suc fd)) a h room = refl
welcome_taken (negsuc n) a {s} h room = sym (append-nil s.submitted)

-- With room, a client that is welcomed is the next; without, nothing that comes matters.
room_taken :
    (a : Accepted) {s : Server} (later : List ClientInfo)
    → IsCounted s
    → s.connected_num < server_max_connection
    → take server_max_connection
        ((welcome a.client_fd a (record s { calls = s.calls + 1 })).submitted ++ later)
      ≡ take server_max_connection (s.submitted ++ (arrival a.client_fd a ++ later))
room_taken a {s} later h room =
    ap (λ xs. take server_max_connection (xs ++ later)) (welcome_taken a.client_fd a h room)
    ∙ ap (take server_max_connection) (append_assoc s.submitted (arrival a.client_fd a) later)

full_ignored :
    {s : Server} (now later : List ClientInfo)
    → IsCounted s
    → ltb s.connected_num server_max_connection ≡ false
    → take server_max_connection (s.submitted ++ later)
      ≡ take server_max_connection (s.submitted ++ now)
full_ignored {s} now later h full =
    let size : length s.submitted ≡ server_max_connection =
      ground (arith, h.count, h.limit, full) in
    sym (full_taken later size) ∙ full_taken now size

-- One event that is quiet, before any others.
on_event_taken :
    (events : ℕ) (a : Accepted) {s : Server} (later : List ClientInfo)
    → IsCounted s
    → has events (bit_or epollhup epollerr) ≡ false
    → s.aborted ≡ false
    → ((on_event events a s).aborted ≡ false)
      × (take server_max_connection ((on_event events a s).submitted ++ later)
          ≡ take server_max_connection (s.submitted ++ (arrival_if events a ++ later)))
unfolding on_event
on_event_taken events a {s} later h quiet running = elim (Bool-cases (has events epollin)) [
  | inl e ↦ elim (Bool-cases (ltb s.connected_num server_max_connection)) [
    | inl room ↦
        rw (e, room)
          (
            welcome_running a.client_fd a (record s { calls = s.calls + 1 }) ∙ running,
            room_taken a later h (ground (arith, room)),
          )
    | inr full ↦
        rw (e, full, quiet) (running, full_ignored (arrival a.client_fd a ++ later) later h full)
  ]
  | inr e ↦ rw (e, quiet) (running, refl)
]

on_events_taken :
    (batch : List (ℕ × Accepted)) {s : Server} (later : List ClientInfo)
    → IsCounted s
    → IsQuiet batch
    → s.aborted ≡ false
    → ((on_events batch s).aborted ≡ false)
      × (take server_max_connection ((on_events batch s).submitted ++ later)
          ≡ take server_max_connection (s.submitted ++ (arrivals batch ++ later)))
unfolding on_events arrivals on_event
on_events_taken [] later h quiet running = (running, refl)
on_events_taken ((events, a) ∷ rest) {s} later h (quiet, quiet') running =
    let (running', one) = on_event_taken events a (arrivals rest ++ later) h quiet running in
    let (running'', more) =
      on_events_taken rest later (on_event-IsCounted events a h) quiet' running' in
    rw running' (
      running'',
      more
          ∙ one
          ∙ ap (λ xs. take server_max_connection (s.submitted ++ xs))
              (sym (append_assoc (arrival_if events a) (arrivals rest) later)),
    )

-- The arrivals of all batches.
unfoldable pub all_arrivals : List (List (ℕ × Accepted)) → List ClientInfo
unfolding arrivals
all_arrivals [] = []
all_arrivals (batch ∷ batches) = arrivals batch ++ all_arrivals batches

poll_taken :
    (batches : List (List (ℕ × Accepted))) {s : Server}
    → IsCounted s
    → All IsQuiet batches
    → s.aborted ≡ false
    → (poll_for_connect batches s).submitted
      ≡ take server_max_connection (s.submitted ++ all_arrivals batches)
unfolding poll_for_connect all_arrivals on_events
poll_taken [] {s} h quiet running =
    let whole = append-nil s.submitted in
    sym (
      ap (take server_max_connection) whole
      ∙ take-all s.submitted server_max_connection (omega (arith, h.count, h.limit)))
poll_taken (batch ∷ batches) {s} h (quiet, quiet') running =
    let (running', one) = on_events_taken batch (all_arrivals batches) h quiet running in
    rw running' (poll_taken batches (on_events-IsCounted batch h) quiet' running' ∙ one)

-- If no event tells of a hang-up or an error: the clients that the worker pool is given over the whole
-- life of a new server are the first 2048 that arrive, in order, however many of them have left by
-- then; and `accept` is called once for each event with `EPOLLIN` until it has given the 2048th of
-- them, and not once after that.
pub first_connections_only :
    (batches : List (List (ℕ × Accepted)))
    → All IsQuiet batches
    → ((poll_for_connect batches new_server).submitted
        ≡ take server_max_connection (all_arrivals batches))
      × ((poll_for_connect batches new_server).calls
          ≡ calls_until server_max_connection (all_attempts batches))
first_connections_only batches quiet = (
  poll_taken batches new_server-IsCounted quiet refl,
  omega (arith, poll_called batches new_server quiet refl),
)
