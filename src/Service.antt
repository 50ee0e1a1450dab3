-- ===== src/Service.antt =====
-- The whole server: the accept loop of tcp_server.cpp, the threads of thread_pool.cpp that run the
-- tasks of `tcp_worker_pool::submit`, and the workers of tcp_worker_pool.cpp, interleaved.
pub mod Conserved
pub mod Progress
pub mod Delivery
pub mod Tables
pub mod Answered
pub mod Opened
mod Tests
use nonblocking_io.Common.{
  ℕ, ◌<◌, ◌≡◌, false, Option, none, some, List, [], ◌∷◌, ◌++◌, update, ℤ, pos, negsuc, ◌⊎◌,
}
use nonblocking_io.ThreadPool.{Task, Pool, submit}
use nonblocking_io.ThreadPool.System.{ready, running, Pc, Sys, all_ok, Woken}
use nonblocking_io.ThreadPool.System
use nonblocking_io.WorkerPool.{ClientInfo, put_client}
use nonblocking_io.WorkerPool.Handover.{Storage}
use nonblocking_io.WorkerPool.Handover
use nonblocking_io.Server.{Accepted, Server, on_event, new_server}
use nonblocking_io.Server.Burst.{task_of}

-- The state of the parts; `dropped` are the tasks that the thread pool has refused.
pub record Service (Poller : Type 0) : Type 0 where
  pub server : Server
  pub sys : Sys
  pub store : Storage Poller
  pub dropped : List Task

-- A client is one of a list.
abbrev pub Among : ClientInfo → List ClientInfo → Type 0
Among c [] = ⊥
Among c (d ∷ ds) = (c ≡ d) ⊎ Among c ds

module _ {Poller : Type 0} (add_event : Poller → (fd events : ℕ) → Poller) (n : ℕ) where
  -- `kept`, `lost`, `no_client`: an event of the listening socket, by what it brings and by what
  -- `thread_pool::submit` does with the task of the client. `pool_step`: a thread begins, takes a
  -- task, waits or wakes, or the pool is shut down. `served`: the task of a client is over, and
  -- puts the client that its closure holds, one that was submitted, into `event_storage_`.
  -- `take_out`: a worker takes a client from there. None of them goes on once the accept loop has
  -- aborted the process.
  pub data Step (s : Service Poller) : Service Poller → Type 0 where
    kept :
        (events : ℕ) (a : Accepted) (c : ClientInfo) {k : ℕ} {p : Pool} {pc : ℕ → Pc}
        → s.server.aborted ≡ false
        → (on_event events a s.server).submitted ≡ s.server.submitted ++ (c ∷ [])
        → submit all_ok none (some c.fd) s.sys.pool ≡ some (pos k, p)
        → Woken n s.sys.pc pc
        → Step s (record s {
          server = on_event events a s.server;
          sys = record s.sys { pool = p; pc = pc; accepted = s.sys.accepted ++ (task_of c ∷ []) };
        })
    lost :
        (events : ℕ) (a : Accepted) (c : ClientInfo) {k : ℕ} {p : Pool}
        → s.server.aborted ≡ false
        → (on_event events a s.server).submitted ≡ s.server.submitted ++ (c ∷ [])
        → submit all_ok none (some c.fd) s.sys.pool ≡ some (negsuc k, p)
        → Step s (record s {
          server = on_event events a s.server;
          sys = record s.sys { pool = p };
          dropped = s.dropped ++ (task_of c ∷ []);
        })
    no_client :
        (events : ℕ) (a : Accepted)
        → s.server.aborted ≡ false
        → (on_event events a s.server).submitted ≡ s.server.submitted
        → Step s (record s { server = on_event events a s.server })
    pool_step :
        {t : Sys}
        → s.server.aborted ≡ false
        → System.Step n s.sys t
        → t.accepted ≡ s.sys.accepted
        → t.finished ≡ s.sys.finished
        → Step s (record s { sys = t })
    served :
        (i : ℕ) (c : ClientInfo)
        → s.server.aborted ≡ false
        → i < n
        → s.sys.pc i ≡ running (task_of c)
        → Among c s.server.submitted
        → Step s (record s {
          sys = record s.sys {
            pc = update s.sys.pc i ready;
            finished = s.sys.finished ++ (task_of c ∷ []);
          };
          store = record s.store {
            storage = put_client c s.store.storage;
            put = s.store.put ++ (c ∷ []);
          };
        })
    take_out :
        {t : Storage Poller}
        → s.server.aborted ≡ false
        → Handover.Step add_event s.store t
        → t.put ≡ s.store.put
        → Step s (record s { store = t })

  pub data Reach (s : Service Poller) : Service Poller → Type 0 where
    here : Reach s s
    next : {t u : Service Poller} → Reach s t → Step t u → Reach s u

-- The service before the first event, with a new thread pool.
abbrev pub initial : {Poller : Type 0} → Pool → Storage Poller → Service Poller
initial p store = record {
  server = new_server;
  sys = System.initial p;
  store = store;
  dropped = [];
}
