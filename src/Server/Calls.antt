-- ===== src/Server/Calls.antt =====
-- How often the accept loop of tcp_server.cpp calls `accept`.
use Prim.Native.Nat.{bit_or}
use nonblocking_io.Common.{
  ℕ, zero, suc, ◌+◌, ◌-◌, ◌^◌, ◌%◌, ◌<◌, ◌≡◌, refl, sym, ap, ◌∙◌, false, List, [], ◌∷◌, ◌++◌, arith,
  ltb, if◌then◌else◌, ℤ, pos, negsuc, All, Bool-cases, inl, inr, append_assoc,
}
use nonblocking_io.Epoll.{has, epollin, epollerr, epollhup}
use nonblocking_io.Server.{
  server_max_connection, Accepted, Server, welcome, on_event, on_events, poll_for_connect,
}
use nonblocking_io.Server.Counted.{welcome_running}

-- No event tells of a hang-up or an error.
abbrev pub IsQuiet : List (ℕ × Accepted) → Type 0
IsQuiet = All (λ e. has e.0 (bit_or epollhup epollerr) ≡ false)

-- What `accept` would give for an event, if the event is one that it is called for.
abbrev attempt_if : (events : ℕ) → ℤ → List ℤ
attempt_if events fd = if has events epollin then fd ∷ [] else []

unfoldable pub attempts : List (ℕ × Accepted) → List ℤ
attempts [] = []
attempts ((events, a) ∷ rest) = attempt_if events a.client_fd ++ attempts rest

unfoldable pub all_attempts : List (List (ℕ × Accepted)) → List ℤ
unfolding attempts
all_attempts [] = []
all_attempts (batch ∷ batches) = attempts batch ++ all_attempts batches

-- The number of calls until `room` of them have given a client: all, if that does not happen.
unfoldable pub calls_until : (room : ℕ) → List ℤ → ℕ
calls_until zero fds = 0
calls_until (suc room) [] = 0
calls_until (suc room) (pos zero ∷ fds) = suc (calls_until (suc room) fds)
calls_until (suc room) (pos (suc fd) ∷ fds) = suc (calls_until room fds)
calls_until (suc room) (negsuc n ∷ fds) = suc (calls_until (suc room) fds)

abbrev room_of : Server → ℕ
room_of s = server_max_connection - s.connected_num

-- The calls made, and those that are to come.
abbrev all_calls : Server → List ℤ → ℕ
all_calls s later = s.calls + calls_until (room_of s) later

welcome_called :
    (fd : ℤ) (a : Accepted) (s : Server) (left : ℕ) (later : List ℤ)
    → room_of s ≡ suc left
    → all_calls (welcome fd a (record s { calls = s.calls + 1 })) later
      ≡ s.calls + calls_until (suc left) (fd ∷ later)
unfolding calls_until
welcome_called (pos zero) a s left later e = omega (arith, ap (λ r. calls_until r later) e)
welcome_called (pos (suc fd)) a s left later e =
    let less : server_max_connection - (s.connected_num + 1) % 2 ^ 32 ≡ left = omega (arith, e) in
    omega (arith, ap (λ r. calls_until r later) less)
welcome_called (negsuc n) a s left later e = omega (arith, ap (λ r. calls_until r later) e)

room_called :
    (a : Accepted) (s : Server) (later : List ℤ)
    → s.connected_num < server_max_connection
    → all_calls (welcome a.client_fd a (record s { calls = s.calls + 1 })) later
      ≡ all_calls s (a.client_fd ∷ later)
room_called a s later room =
    let e : room_of s ≡ suc (room_of s - 1) = omega (arith, room) in
    welcome_called a.client_fd a s (room_of s - 1) later e
    ∙ sym (ap (λ r. s.calls + calls_until r (a.client_fd ∷ later)) e)

full_called :
    (s : Server) (now later : List ℤ)
    → ltb s.connected_num server_max_connection ≡ false
    → all_calls s later ≡ all_calls s now
unfolding calls_until
full_called s now later full =
    let none_left : room_of s ≡ 0 = ground (arith, full) in
    ap (λ r. s.calls + calls_until r later) none_left
    ∙ sym (ap (λ r. s.calls + calls_until r now) none_left)

-- One event that is quiet, before any others.
on_event_called :
    (events : ℕ) (a : Accepted) (s : Server) (later : List ℤ)
    → has events (bit_or epollhup epollerr) ≡ false
    → s.aborted ≡ false
    → ((on_event events a s).aborted ≡ false)
      × (all_calls (on_event events a s) later
          ≡ all_calls s (attempt_if events a.client_fd ++ later))
unfolding on_event
on_event_called events a s later quiet running = elim (Bool-cases (has events epollin)) [
  | inl e ↦ elim (Bool-cases (ltb s.connected_num server_max_connection)) [
    | inl room ↦
        rw (e, room)
          (
            welcome_running a.client_fd a (record s { calls = s.calls + 1 }) ∙ running,
            room_called a s later (ground (arith, room)),
          )
    | inr full ↦ rw (e, full, quiet) (running, full_called s (a.client_fd ∷ later) later full)
  ]
  | inr e ↦ rw (e, quiet) (running, refl)
]

on_events_called :
    (batch : List (ℕ × Accepted)) (s : Server) (later : List ℤ)
    → IsQuiet batch
    → s.aborted ≡ false
    → ((on_events batch s).aborted ≡ false)
      × (all_calls (on_events batch s) later ≡ all_calls s (attempts batch ++ later))
unfolding on_events attempts on_event
on_events_called [] s later quiet running = (running, refl)
on_events_called ((events, a) ∷ rest) s later (quiet, quiet') running =
    let (running', one) = on_event_called events a s (attempts rest ++ later) quiet running in
    let (running'', more) = on_events_called rest (on_event events a s) later quiet' running' in
    rw running' (
      running'',
      more
          ∙ one
          ∙ ap (all_calls s)
              (sym (append_assoc (attempt_if events a.client_fd) (attempts rest) later)),
    )

poll_calls :
    (batches : List (List (ℕ × Accepted))) (s : Server)
    → All IsQuiet batches
    → s.aborted ≡ false
    → all_calls (poll_for_connect batches s) [] ≡ all_calls s (all_attempts batches)
unfolding poll_for_connect all_attempts on_events
poll_calls [] s quiet running = refl
poll_calls (batch ∷ batches) s (quiet, quiet') running =
    let (running', one) = on_events_called batch s (all_attempts batches) quiet running in
    rw running' (poll_calls batches (on_events batch s) quiet' running' ∙ one)

calls_until_none : (room : ℕ) → calls_until room [] ≡ 0
unfolding calls_until
calls_until_none zero = refl
calls_until_none (suc room) = refl

pub poll_called :
    (batches : List (List (ℕ × Accepted))) (s : Server)
    → All IsQuiet batches
    → s.aborted ≡ false
    → (poll_for_connect batches s).calls ≡ s.calls + calls_until (room_of s) (all_attempts batches)
poll_called batches s quiet running = omega (
  arith,
  poll_calls batches s quiet running,
  calls_until_none (room_of (poll_for_connect batches s)),
)
