-- ===== src/WorkerPool/Crew.antt =====
-- All workers of a pool at once: each makes rounds of `worker_routine`, in any order, over the one
-- `event_storage_`, to which tasks add clients.
pub mod Shared
mod Tests
use nonblocking_io.Common.{ℕ, ◌<◌, ◌≡◌, some, List, [], ◌∷◌, ◌++◌, update}
use nonblocking_io.Epoll.{Kernel}
use nonblocking_io.WorkerPool.{ClientInfo, Worker, put_client}
use nonblocking_io.WorkerPool.Callback.{Written}
use nonblocking_io.WorkerPool.Round.{Round, Input, worker_round}

-- `arrived` are the clients that tasks have put in, in order.
pub record Crew (State : Type 0) : Type 0 where
  pub storage : List ClientInfo
  pub workers : ℕ → Worker State
  pub written : ℕ → Written
  pub arrived : List ClientInfo

module _ {State : Type 0} (k : Kernel State) (worker_num : ℕ) where
  -- What worker `j` sees, and what its round leaves.
  abbrev pub round_of : ℕ → Crew State → Round State
  round_of j s = record { storage = s.storage; worker = s.workers j; written = s.written j }

  abbrev pub with_round : ℕ → Round State → Crew State → Crew State
  with_round j r s = record s {
    storage = r.storage;
    workers = update s.workers j r.worker;
    written = update s.written j r.written;
  }

  pub data Step (s : Crew State) : Crew State → Type 0 where
    arrive :
        (c : ClientInfo)
        → Step s (record s { storage = put_client c s.storage; arrived = s.arrived ++ (c ∷ []) })
    round :
        (j : ℕ) (i : Input) {r : Round State}
        → j < worker_num
        → i.arrived ≡ []
        → worker_round k worker_num i (round_of j s) ≡ some r
        → Step s (with_round j r s)

  pub data Reach (s : Crew State) : Crew State → Type 0 where
    here : Reach s s
    next : {t u : Crew State} → Reach s t → Step t u → Reach s u
