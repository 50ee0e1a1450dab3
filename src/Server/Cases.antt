-- ===== src/Server/Cases.antt =====
-- What an event of the listening socket comes to.
use nonblocking_io.Common.{
  ℕ, zero, suc, ◌+◌, ◌≡◌, refl, ◌⊎◌, inl, inr, Bool-cases, ◌&&◌, arith, ltb, ℤ, pos, negsuc,
}
use nonblocking_io.Epoll.{has, epollin}
use nonblocking_io.Server.{Server, Accepted, server_max_connection, welcome, on_event}

pub welcome_calls : (r : ℤ) (a : Accepted) (s : Server) → (welcome r a s).calls ≡ s.calls
welcome_calls (pos zero) a s = refl
welcome_calls (pos (suc fd)) a s = refl
welcome_calls (negsuc n) a s = refl

-- Either `accept` is called, or no client comes.
pub on_event_cases :
    (events : ℕ) (a : Accepted) (s : Server)
    → (on_event events a s ≡ welcome a.client_fd a (record s { calls = s.calls + 1 }))
      ⊎ ((on_event events a s).submitted ≡ s.submitted) × ((on_event events a s).calls ≡ s.calls)
unfolding on_event
on_event_cases events a s =
    elim (Bool-cases (has events epollin && ltb s.connected_num server_max_connection)) [
      | inl called ↦ inl (rw called refl)
      | inr not_called ↦ inr (ground (arith, not_called), ground (arith, not_called))
    ]
