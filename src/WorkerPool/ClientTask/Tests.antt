-- ===== src/WorkerPool/ClientTask/Tests.antt =====
-- Three tasks of one thread: a request, a client that has left, and a failing read.
use nonblocking_io.Common.{
  ℕ, ◌≡◌, some, List, [], ◌∷◌, ◌++◌, ℤ, pos, negsuc, length, length-replicate,
}
use nonblocking_io.WorkerPool.{ClientInfo}
use nonblocking_io.WorkerPool.Samples.{client, empty_buf}
use nonblocking_io.WorkerPool.Reply.{bufsiz}
use nonblocking_io.WorkerPool.Callback.Answers.{texts}
use nonblocking_io.WorkerPool.ClientTask.{TaskState, client_tasks}
use nonblocking_io.WorkerPool.ClientTask.Served.{infos, pages, client_tasks_serve}

abbrev tasks : List (ClientInfo × ℤ)
tasks =
    (client, pos 100)
    ∷ (record client { fd = 6 }, pos 0)
    ∷ (record client { fd = 7 }, negsuc 0)
    ∷ []

abbrev start : TaskState
start = record { written = record { buf = empty_buf; out = [] }; storage = [] }

client_tasks_serve_example :
    (t : TaskState) × (client_tasks tasks start ≡ some t)
    × (t.storage ≡ [] ++ infos tasks)
    × (texts t.written.out ≡ texts [] ++ pages tasks)
    × (length t.written.buf ≡ bufsiz)
client_tasks_serve_example = client_tasks_serve tasks start (length-replicate {A = ℕ} bufsiz 0)
