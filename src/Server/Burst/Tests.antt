-- ===== src/Server/Burst/Tests.antt =====
-- Three clients for a ring of two slots, of which one is taken.
use mathlib.Core.List.{map}
use nonblocking_io.Common.{ℕ, ◌≡◌, refl, true, none, some, List, [], ◌∷◌, ◌++◌, arith, take, pos}
use nonblocking_io.ThreadPool.{no_task, Pool, new_pool, SubmitCalls}
use nonblocking_io.ThreadPool.Invariant.{IsValid}
use nonblocking_io.ThreadPool.Fifo.{contents}
use nonblocking_io.WorkerPool.{ClientInfo, WorkerPool}
use nonblocking_io.Server.Burst.{task_of, submit_clients, burst_kept}

abbrev half_full : Pool
half_full = record new_pool {
  work_queue = record { fun = some 1; args = none } ∷ no_task ∷ [];
  queue_size = 2;
  tail = 1;
  work_count = 1;
}

half_full-IsValid : IsValid half_full
half_full-IsValid = omega arith

abbrev pool : WorkerPool ℕ
pool = record { worker_num = 1; started = true; workers = []; event_storage = []; avail = pos 1 }

abbrev all_succeed : SubmitCalls
all_succeed = record { lock = true; signal = true; unlock = true }

abbrev client : ℕ → ClientInfo
client fd = record { host = none; port = 80; fd = fd; events = 1 }

abbrev three : List ClientInfo
three = client 5 ∷ client 6 ∷ client 7 ∷ []

burst_kept_example :
    (r : WorkerPool ℕ × Pool) × (submit_clients 4 (λ i. some i) all_succeed three (pool, half_full)
      ≡ some r)
    × (r.0 ≡ pool)
    × (contents r.1 ≡ take 2 (contents half_full ++ map task_of three))
burst_kept_example =
    burst_kept 4 (λ i. some i) all_succeed three pool refl half_full-IsValid refl refl
