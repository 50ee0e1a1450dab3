-- ===== src/Service/Answered/Tests.antt =====
-- The client in hand is served with the page.
use mathlib.Core.List.{map}
use native.Mathlib.Decide.{ℕ_discrete}
use nonblocking_io.Common.{
  total, ℕ, ◌+◌, ◌≡◌, refl, Bool, true, some, [], ◌∷◌, ◌++◌, arith, pos, inl, length,
  length-replicate, update,
}
use nonblocking_io.ThreadPool.{Task}
use nonblocking_io.ThreadPool.Fifo.{contents}
use nonblocking_io.ThreadPool.System.{ready}
use nonblocking_io.ThreadPool.System.Threads.{runs}
use nonblocking_io.ThreadPool.System.Invariant.{count}
use nonblocking_io.WorkerPool.Samples.{add_one, nothing, empty_buf}
use nonblocking_io.WorkerPool.{put_client}
use nonblocking_io.WorkerPool.Reply.{bufsiz}
use nonblocking_io.WorkerPool.Callback.{Written}
use nonblocking_io.WorkerPool.Callback.Answers.{texts, Sent}
use nonblocking_io.WorkerPool.ClientTask.{client_task}
use nonblocking_io.WorkerPool.ClientTask.Served.{page_for, pages, task-Sent}
use nonblocking_io.Server.Burst.{task_of}
use nonblocking_io.Service.Tests.{
  pool, pool-IsNew, client, in_hand, begun-Step, come-Step, in_hand-Step,
}
use nonblocking_io.Service.Answered.{
  Answering, log_of, answered, start, other, answer, Reach, here, next,
}
use nonblocking_io.Service.Answered.Once.{clients_answered_once}

abbrev threads : ℕ → Written
threads i = record { buf = empty_buf; out = [] }

whole : (i : ℕ) → length (threads i).buf ≡ bufsiz
whole i = length-replicate {A = ℕ} bufsiz 0

-- What the task of the client does, on a read of 100 bytes.
reply :
    (t : Written) × (client_task (pos 100) client (record { written = threads 0; storage = [] })
      ≡ some (record { written = t; storage = put_client client [] }))
    × Sent (threads 0) (page_for 5 (pos 100)) t
reply = task-Sent client (pos 100) (record { written = threads 0; storage = [] }) (whole 0)

abbrev served : Answering ℕ
served = record {
  service = record in_hand {
    sys = record in_hand.sys { pc = update in_hand.sys.pc 0 ready; finished = task_of client ∷ [] };
    store = record nothing { storage = put_client client []; put = client ∷ [] };
  };
  threads = update threads 0 reply.0;
  log = (0, (client, pos 100)) ∷ [];
}

served-Reach : Reach add_one 1 (start pool nothing threads) served
unfolding ℕ_discrete
served-Reach =
    next
      (next (next (next here (other begun-Step refl)) (other come-Step refl))
        (other in_hand-Step refl))
      (answer 0 client (pos 100) refl (omega arith) refl (inl refl) reply.1)

abbrev any_task : Task → Bool
any_task t = true

clients_answered_once_example :
    (count any_task (map task_of served.service.server.submitted)
      ≡ count any_task served.service.dropped
        + count any_task (contents served.service.sys.pool)
        + total (runs any_task) 1 served.service.sys.pc
        + count any_task (map task_of (answered served.log)))
    × ((i : ℕ) → texts (served.threads i).out ≡ texts [] ++ pages (log_of i served.log))
clients_answered_once_example =
    clients_answered_once add_one 1 pool nothing threads any_task (omega arith) pool-IsNew
      (record { no_clients = refl; no_infos = λ i. refl; none_put = refl; none_taken = refl }) whole
      served-Reach
