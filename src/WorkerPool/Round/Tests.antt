-- ===== src/WorkerPool/Round/Tests.antt =====
-- Two rounds of one worker of a pool of two, whose poller has room for two clients, so that the second
-- add fails, and the theorems applied to them.
use nonblocking_io.Common.{
  ℕ, ◌≡◌, ◌≤◌, ◌<◌, refl, some, List, [], ◌∷◌, ◌++◌, true, lookup, arith, pos, length, drop,
  replicate, length-replicate, none, inl,
}
use nonblocking_io.Epoll.{epollin}
use nonblocking_io.Epoll.Listed.{kernel, kernel-IsEpoll}
use nonblocking_io.WorkerPool.{ClientInfo, Worker}
use nonblocking_io.WorkerPool.Reply.{bufsiz}
use nonblocking_io.WorkerPool.Round.{Round, Input, arrive_and_take, worker_round, worker_rounds}
use nonblocking_io.WorkerPool.Round.Answered.{
  after_wait, expected_of, Answers, worker_round-Answers,
}
use nonblocking_io.WorkerPool.Round.Registered.{
  IsRegistered, failed_adds, arrivals, Taken, worker_rounds-IsRegistered,
}

abbrev client : ℕ → ClientInfo
client fd = record { host = none; port = 80; fd = fd; events = epollin }

-- A worker that has one client, with two more in the queue.
abbrev one_client : Worker (List (ℕ × ℕ))
one_client = record {
  name = 0;
  cpu_affinity_id = 0;
  started = true;
  poll_timeout = pos 10000;
  client_infos = (5, client 5) ∷ [];
  poller = (5, epollin) ∷ [];
}

abbrev start : Round (List (ℕ × ℕ))
start = record {
  storage = client 6 ∷ client 7 ∷ [];
  worker = one_client;
  written = record { buf = replicate bufsiz 0; out = [] };
}

-- One of two workers is available, and reads give 100 bytes; a third client arrives.
abbrev input : Input
input = record { tested = pos 1; used = pos 1; read_of = λ fd. pos 100; arrived = client 8 ∷ [] }

worker_round-Answers_example :
    let taken = arrive_and_take (kernel 2) input.arrived start in
    (w : ℕ) × (0 < w)
    × (w ≤ 2)
    × (r : Round (List (ℕ × ℕ))) × (worker_round (kernel 2) 2 input start ≡ some r)
    × (r.storage ≡ drop 1 (start.storage ++ input.arrived))
    × Answers
        (kernel 2)
        (after_wait (kernel 2) taken (pos w))
        (expected_of input.read_of ((kernel 2).wait taken.worker.poller (pos w)).0)
        r
worker_round-Answers_example =
    worker_round-Answers (kernel 2) 2 input start (1, refl, omega arith, omega arith)
      (length-replicate {A = ℕ} bufsiz 0)

one_client-IsRegistered : IsRegistered (kernel 2) [] one_client
unfolding lookup
one_client-IsRegistered fd = (λ h. ground (arith, h), λ h. inl (ground (arith, h)))

worker_rounds-IsRegistered_example :
    (r : Round (List (ℕ × ℕ))) × (worker_rounds (kernel 2) 2 (input ∷ input ∷ []) start ≡ some r)
    × IsRegistered (kernel 2) (failed_adds (kernel 2) 2 (input ∷ input ∷ []) start) r.worker
    × (length r.written.buf ≡ bufsiz)
    × Taken
        (start.storage ++ arrivals (input ∷ input ∷ []))
        one_client.client_infos
        r.storage
        r.worker.client_infos
worker_rounds-IsRegistered_example =
    worker_rounds-IsRegistered (kernel 2) (kernel-IsEpoll 2) 2 [] (input ∷ input ∷ []) start
      ((1, refl, omega arith, omega arith), ((1, refl, omega arith, omega arith), tt))
      (length-replicate {A = ℕ} bufsiz 0) one_client-IsRegistered
