-- ===== src/WorkerPool/ClientTask.antt =====
-- The whole task that `submit` of tcp_worker_pool.cpp makes for a client: a read, a reply, and the
-- client's place in `event_storage_`.
pub mod Served
mod Tests
use nonblocking_io.Common.{ℕ, Option, none, some, List, [], ◌∷◌, ℤ}
use nonblocking_io.WorkerPool.{ClientInfo, put_client}
use nonblocking_io.WorkerPool.Reply.{Reply, page_body, task_reply}
use nonblocking_io.WorkerPool.Callback.{Written, written}

-- The send buffer of a thread of the pool with what the thread has sent, and the queue.
pub record TaskState : Type 0 where
  pub written : Written
  pub storage : List ClientInfo

abbrev pub stored_after : ClientInfo → List ClientInfo → Option Written → Option TaskState
stored_after info storage none = none
stored_after info storage (some w) =
    some (record { written = w; storage = put_client info storage })

-- `readn` is what `read` returns. `none` is a write past the buffer.
unfoldable pub client_task : (readn : ℤ) → ClientInfo → TaskState → Option TaskState
unfolding task_reply put_client
client_task readn info s =
    stored_after info s.storage
      (written (task_reply readn page_body s.written.buf) info.fd s.written)

-- The tasks that a thread runs one after the other.
unfoldable pub client_tasks : List (ClientInfo × ℤ) → TaskState → Option TaskState
unfolding client_task
client_tasks [] s = some s
client_tasks ((info, readn) ∷ rest) s = elim (client_task readn info s) [
  | none ↦ none
  | some s' ↦ client_tasks rest s'
]
