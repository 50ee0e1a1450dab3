-- ===== src/Service/Tests.antt =====
-- One client on its way through the server to a worker.
use native.Mathlib.Decide.{ℕ_discrete}
use mathlib.Core.List.{map}
use nonblocking_io.WorkerPool.Handover
use nonblocking_io.Common.{
  lookup, update, total, ℕ, ◌+◌, ◌^◌, ◌<◌, ◌≡◌, refl, Bool, true, false, Option, none, some, List,
  [], ◌∷◌, ◌++◌, arith, ℤ, pos, negsuc, inl, All, if◌then◌else◌, ◌==◌,
}
use nonblocking_io.Epoll.{epollin}
use nonblocking_io.ThreadPool.{Task, no_task, Pool, new_pool}
use nonblocking_io.ThreadPool.Invariant.{IsNew}
use nonblocking_io.ThreadPool.Fifo.{contents}
use nonblocking_io.ThreadPool.System
use nonblocking_io.ThreadPool.System.{Sys, Pc, fresh, ready, running, nobody}
use nonblocking_io.ThreadPool.System.Threads.{runs}
use nonblocking_io.ThreadPool.System.Invariant.{count}
use nonblocking_io.WorkerPool.Samples.{idle_worker, add_one, nothing}
use nonblocking_io.WorkerPool.{ClientInfo, Worker, take_first}
use nonblocking_io.WorkerPool.Handover.{Storage, clients}
use nonblocking_io.Server.{Accepted, normal_epollev, on_event}
use nonblocking_io.Server.Burst.{task_of}
use nonblocking_io.Service.{
  Service, kept, pool_step, served, take_out, Step, Reach, here, next, initial,
}
use nonblocking_io.Service.Conserved.{clients_conserved}
use nonblocking_io.Service.Progress.{Later}
use nonblocking_io.Service.Delivery.{clients_can_arrive}

abbrev pub pool : Pool
pool = record new_pool { work_queue = no_task ∷ no_task ∷ []; queue_size = 2 }

pub pool-IsNew : IsNew pool
pool-IsNew = record {
  valid = omega arith;
  free = refl;
  empty = refl;
  none_started = refl;
  no_threads = refl;
}

abbrev pub arrival : Accepted
arrival = record { client_fd = pos 5; host = some 7; port = 5000 }

abbrev pub client : ClientInfo
client = record { host = some 7; port = 5000; fd = 5; events = normal_epollev }

-- The thread has begun; the client has come; its task is run; it is over.
abbrev pub begun : Service ℕ
begun = record (initial pool nothing) {
  sys = record (System.initial (record pool { started_num = 1; thread_count = 1 })) {
    pc = update (λ _. fresh) 0 ready;
  };
}

abbrev pub come : Service ℕ
come = record begun {
  server = record { connected_num = 1; calls = 1; submitted = client ∷ []; aborted = false };
  sys = record begun.sys {
    pool = record begun.sys.pool {
      work_queue = task_of client ∷ no_task ∷ [];
      tail = 1;
      work_count = 1;
    };
    accepted = task_of client ∷ [];
  };
}

abbrev pub in_hand : Service ℕ
in_hand = record come {
  sys = record come.sys {
    pool = record begun.sys.pool { curr = 1; tail = 1 };
    pc = update come.sys.pc 0 (running (task_of client));
    taken = task_of client ∷ [];
  };
}

abbrev pub over : Service ℕ
over = record in_hand {
  sys = record in_hand.sys { pc = update in_hand.sys.pc 0 ready; finished = task_of client ∷ [] };
  store = record nothing { storage = client ∷ []; put = client ∷ [] };
}

pub begun-Step : Step add_one 1 (initial pool nothing) begun
unfolding nonblocking_io.ThreadPool.thread_start nonblocking_io.Common.inc16
begun-Step = pool_step refl (System.start 0 (omega arith) refl) refl refl

pub come-Step : Step add_one 1 begun come
unfolding on_event nonblocking_io.ThreadPool.submit nonblocking_io.ThreadPool.submit_locked
    nonblocking_io.ThreadPool.enqueue
come-Step = kept epollin arrival client {k = 0} refl refl refl (nobody (λ i lt e. ground arith))

pub in_hand-Step : Step add_one 1 come in_hand
unfolding nonblocking_io.ThreadPool.worker_turn nonblocking_io.ThreadPool.dequeue ℕ_discrete
in_hand-Step = pool_step refl (System.turn 0 (omega arith) refl refl) refl refl

come-Reach : Reach add_one 1 (initial pool nothing) come
come-Reach = next (next here begun-Step) come-Step

in_hand-Reach : Reach add_one 1 (initial pool nothing) in_hand
in_hand-Reach = next come-Reach in_hand-Step

pub over-Step : Step add_one 1 in_hand over
unfolding nonblocking_io.WorkerPool.put_client ℕ_discrete
over-Step = served 0 client refl (omega arith) refl (inl refl)

over-Reach : Reach add_one 1 (initial pool nothing) over
over-Reach = next in_hand-Reach over-Step

abbrev any_task : Task → Bool
any_task t = true

clients_conserved_example :
    count any_task (map task_of over.server.submitted)
    ≡ count any_task over.dropped
      + count any_task (contents over.sys.pool)
      + total (runs any_task) 1 over.sys.pc
      + count any_task (map task_of over.store.storage)
      + count any_task (map task_of (clients over.store.taken))
clients_conserved_example =
    clients_conserved add_one 1 any_task (omega arith) pool-IsNew
      (record { no_clients = refl; no_infos = λ i. refl; none_put = refl; none_taken = refl })
      over-Reach

-- The client whose task is in the ring can come to a worker.
clients_can_arrive_example :
    (t : Service ℕ) × Later add_one 1 come t
    × ((q : Task → Bool)
        → count q (map task_of come.server.submitted)
          ≡ count q come.dropped + count q (map task_of (clients t.store.taken)))
clients_can_arrive_example =
    clients_can_arrive add_one 1 (omega arith) (omega arith) pool-IsNew
      (record { no_clients = refl; no_infos = λ i. refl; none_put = refl; none_taken = refl })
      come-Reach refl refl

-- Worker 0 has taken the client.
abbrev pub taken : Service ℕ
taken = record over {
  store = record over.store {
    storage = [];
    workers = λ j. if j == 0 then (take_first add_one (client ∷ []) idle_worker).1 else idle_worker;
    taken = (0, client) ∷ [];
  };
}

pub taken-Step : Step add_one 1 over taken
taken-Step = take_out refl (Handover.take_out 0 refl) refl
