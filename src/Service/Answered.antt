-- ===== src/Service/Answered.antt =====
-- The service with what its tasks send: each thread of the pool has a send buffer of its own, and runs
-- the whole task of tcp_worker_pool::submit.
pub mod Once
mod Tests
use mathlib.Core.List.{map, map-append}
use mathlib.Core.Option.{some-injective}
use mathlib.Core.Path.{subst}
use nonblocking_io.Common.{
  total, at_update, at_update_either, ap₂, ℕ, ◌+◌, ◌^◌, ◌<◌, ◌≡◌, ◌≢◌, refl, sym, ap, ◌∙◌, Bool,
  true, false, Option, none, some, List, [], ◌∷◌, ◌++◌, append_assoc, append-nil, arith, ◌==◌,
  if◌then◌else◌, update, ℤ, length,
}
use nonblocking_io.ThreadPool.{Task, Pool}
use nonblocking_io.ThreadPool.Invariant.{IsNew}
use nonblocking_io.ThreadPool.Fifo.{contents}
use nonblocking_io.ThreadPool.System.{ready, running}
use nonblocking_io.ThreadPool.System.Threads.{runs}
use nonblocking_io.ThreadPool.System.Invariant.{count, count-append}
use nonblocking_io.WorkerPool.{ClientInfo, put_client}
use nonblocking_io.WorkerPool.Handover.{Storage, IsEmpty, clients, clients_handed_over}
use nonblocking_io.WorkerPool.Reply.{bufsiz}
use nonblocking_io.WorkerPool.Callback.{Written}
use nonblocking_io.WorkerPool.Callback.Answers.{texts, Sent}
use nonblocking_io.WorkerPool.ClientTask.{TaskState, client_task}
use nonblocking_io.WorkerPool.ClientTask.Served.{page_for, pages, task-Sent}
use nonblocking_io.Server.Burst.{task_of}
use nonblocking_io.Service.{Service, Among, served, initial}
use nonblocking_io.Service
use nonblocking_io.Service.Conserved.{clients_conserved, store-Reach}

-- `log` are the tasks that are over, each with its thread and what its read gave.
pub record Answering (Poller : Type 0) : Type 0 where
  pub service : Service Poller
  pub threads : ℕ → Written
  pub log : List (ℕ × (ClientInfo × ℤ))

-- What thread `i` has run.
abbrev pub log_of : ℕ → List (ℕ × (ClientInfo × ℤ)) → List (ClientInfo × ℤ)
log_of i [] = []
log_of i ((j, x) ∷ rest) = if j == i then x ∷ log_of i rest else log_of i rest

abbrev pub answered : List (ℕ × (ClientInfo × ℤ)) → List ClientInfo
answered [] = []
answered ((j, (c, readn)) ∷ rest) = c ∷ answered rest

module _ {Poller : Type 0} (add_event : Poller → (fd events : ℕ) → Poller) (n : ℕ) where
  -- `other`: a step of the service that ends no task. `answer`: a thread reads, replies, and puts the
  -- client into the queue.
  pub data Step (s : Answering Poller) : Answering Poller → Type 0 where
    other :
        {t : Service Poller}
        → Service.Step add_event n s.service t
        → t.store.put ≡ s.service.store.put
        → Step s (record s { service = t })
    answer :
        (i : ℕ) (c : ClientInfo) (readn : ℤ) {r : TaskState}
        → s.service.server.aborted ≡ false
        → i < n
        → s.service.sys.pc i ≡ running (task_of c)
        → Among c s.service.server.submitted
        → client_task readn c (record { written = s.threads i; storage = s.service.store.storage })
          ≡ some r
        → Step s (record {
          service = record s.service {
            sys = record s.service.sys {
              pc = update s.service.sys.pc i ready;
              finished = s.service.sys.finished ++ (task_of c ∷ []);
            };
            store = record s.service.store {
              storage = r.storage;
              put = s.service.store.put ++ (c ∷ []);
            };
          };
          threads = update s.threads i r.written;
          log = s.log ++ ((i, (c, readn)) ∷ []);
        })

  pub data Reach (s : Answering Poller) : Answering Poller → Type 0 where
    here : Reach s s
    next : {t u : Answering Poller} → Reach s t → Step t u → Reach s u

-- Nothing has come, and no task has run.
abbrev pub start : {Poller : Type 0} → Pool → Storage Poller → (ℕ → Written) → Answering Poller
start p store threads = record { service = initial p store; threads = threads; log = [] }
