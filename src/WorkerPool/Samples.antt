-- ===== src/WorkerPool/Samples.antt =====
-- A client, a worker and an empty queue, for the tests.
use nonblocking_io.Common.{ℕ, ◌+◌, true, none, List, [], pos, replicate}
use nonblocking_io.WorkerPool.{ClientInfo, Worker}
use nonblocking_io.WorkerPool.Handover.{Storage}
use nonblocking_io.WorkerPool.Reply.{bufsiz}

abbrev pub client : ClientInfo
client = record { host = none; port = 80; fd = 5; events = 1 }

abbrev pub idle_worker : Worker ℕ
idle_worker = record {
  name = 0;
  cpu_affinity_id = 0;
  started = true;
  poll_timeout = pos 10000;
  client_infos = [];
  poller = 0;
}

-- A poller that counts its descriptors.
abbrev pub add_one : ℕ → ℕ → ℕ → ℕ
add_one poller fd events = poller + 1

abbrev pub nothing : Storage ℕ
nothing = record { storage = []; workers = λ _. idle_worker; put = []; taken = [] }

abbrev pub empty_buf : List ℕ
empty_buf = replicate bufsiz 0
