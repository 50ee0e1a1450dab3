-- ===== src/WorkerPool/Callback.antt =====
-- The callback that a worker gives to its poller: the constructor of `tcp_worker` in
-- tcp_worker_pool.cpp.
pub mod Answers
use Prim.Native.Nat.{bit_or}
use nonblocking_io.Common.{ℕ, Option, none, some, List, [], ◌∷◌, ◌++◌, if◌then◌else◌, ℤ}
use nonblocking_io.Epoll.{has, Event, epollin, epollerr, epollhup}
use nonblocking_io.WorkerPool.Reply.{Reply, silent, sent, fault, handle_disconnect, handle_epollin}

-- The send buffer of the worker's thread, and what it has sent, to which descriptor.
pub record Written : Type 0 where
  pub buf : List ℕ
  pub out : List (ℕ × List ℕ)

abbrev pub written : Reply → (fd : ℕ) → Written → Option Written
written silent fd s = some s
written (sent buf) fd s = some (record { buf = buf; out = s.out ++ ((fd, buf) ∷ []) })
written fault fd s = none

-- The two tests are not exclusive: a descriptor can be read and then hang up in one event.
abbrev pub on_hang_up : Event → Option Written → Option Written
on_hang_up e none = none
on_hang_up e (some s) =
    if has e.events (bit_or epollhup epollerr) then written handle_disconnect e.fd s else some s

-- One event, with what `read` returns if it is called.
unfoldable pub on_client_event : Event → ℤ → Written → Option Written
on_client_event e n s =
    on_hang_up e (if has e.events epollin then written (handle_epollin n s.buf) e.fd s else some s)

-- The callback, over the events of one `epoll_wait`.
unfoldable pub callback : List (Event × ℤ) → Written → Option Written
callback [] s = some s
callback ((e, n) ∷ rest) s = elim (on_client_event e n s) [
  | none ↦ none
  | some s' ↦ callback rest s'
]
