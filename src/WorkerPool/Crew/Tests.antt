-- ===== src/WorkerPool/Crew/Tests.antt =====
-- A client arrives, and worker 1 makes a round.
use nonblocking_io.Common.{
  ℕ, ◌≡◌, refl, some, List, [], ◌∷◌, ◌++◌, true, arith, pos, insert_all, length-replicate,
}
use nonblocking_io.Epoll.Listed.{kernel}
use nonblocking_io.WorkerPool.{ClientInfo, Worker}
use nonblocking_io.WorkerPool.Samples.{client, empty_buf}
use nonblocking_io.WorkerPool.Reply.{bufsiz}
use nonblocking_io.WorkerPool.Handover.{clients, taken_by}
use nonblocking_io.WorkerPool.Round.{Round, Input, worker_round}
use nonblocking_io.WorkerPool.Round.Answered.{worker_round-Answers}
use nonblocking_io.WorkerPool.Crew.{Crew, round_of, with_round, arrive, round, Reach, here, next}
use nonblocking_io.WorkerPool.Crew.Shared.{crew_hands_over}

abbrev start : Crew (List (ℕ × ℕ))
start = record {
  storage = [];
  workers = λ _. record {
    name = 0;
    cpu_affinity_id = 0;
    started = true;
    poll_timeout = pos 10000;
    client_infos = [];
    poller = [];
  };
  written = λ _. record { buf = empty_buf; out = [] };
  arrived = [];
}

abbrev come : Crew (List (ℕ × ℕ))
come = record start { storage = client ∷ []; arrived = client ∷ [] }

abbrev input : Input
input = record { tested = pos 1; used = pos 1; read_of = λ fd. pos 100; arrived = [] }

-- The round comes to its end.
round_ends :
    (r : Round (List (ℕ × ℕ))) × (worker_round (kernel 8) 2 input (round_of (kernel 8) 2 1 come)
      ≡ some r)
round_ends =
    let (_, _, _, r, e, _, _) =
      worker_round-Answers (kernel 8) 2 input (round_of (kernel 8) 2 1 come)
        (1, refl, omega arith, omega arith) (length-replicate {A = ℕ} bufsiz 0) in
    (r, e)

abbrev over : Crew (List (ℕ × ℕ))
over = with_round (kernel 8) 2 1 round_ends.0 come

over-Reach : Reach (kernel 8) 2 start over
unfolding nonblocking_io.WorkerPool.put_client
over-Reach = next (next here (arrive client)) (round 1 input (omega arith) refl round_ends.1)

crew_hands_over_example :
    (taken : List (ℕ × ClientInfo)) × (over.arrived ≡ clients taken ++ over.storage)
    × ((j : ℕ) → (over.workers j).client_infos ≡ insert_all (taken_by j taken) [])
crew_hands_over_example =
    crew_hands_over (kernel 8) 2
      (record { no_clients = refl; no_infos = λ j. refl; none_arrived = refl }) over-Reach
