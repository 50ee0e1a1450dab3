-- ===== src/WorkerPool.antt =====
-- tcp_worker_pool.h and tcp_worker_pool.cpp: the workers that poll the clients, and the queue through
-- which the pool's tasks hand new clients to them. `Poller` is the type of a worker's epoll instance.
pub mod Round
pub mod EventStr
pub mod Callback
pub mod WaitTime
pub mod Available
pub mod Page
pub mod Reply
pub mod Message
pub mod Laws
pub mod Handover
pub mod Pickup
pub mod ClientTask
pub mod Samples
pub mod Crew
mod Tests
use nonblocking_io.Common.{
  ℕ, zero, suc, ◌+◌, ◌-◌, ◌*◌, ◌%◌, Bool, true, false, Option, none, some, List, [], ◌∷◌, ◌++◌, ltb,
  if◌then◌else◌, ℤ, pos, negsuc, ltb_ℤ, coerce_in, to_ℕ, insert,
}
use nonblocking_io.ThreadPool
use nonblocking_io.ThreadPool.{Pool, SubmitCalls}

-- `client_info`; `host` is a pointer, not the text that it points to, and `none` is the null pointer.
pub record ClientInfo : Type 0 where
  pub host : Option ℕ
  pub port : ℕ
  pub fd : ℕ
  pub events : ℕ

-- `tcp_worker`; `name` is the number in its name.
pub record Worker (Poller : Type 0) : Type 0 where
  pub name : ℕ
  pub cpu_affinity_id : ℕ
  pub started : Bool
  pub poll_timeout : ℤ
  pub client_infos : List (ℕ × ClientInfo)
  pub poller : Poller

-- `tcp_worker_pool`
pub record WorkerPool (Poller : Type 0) : Type 0 where
  pub worker_num : ℕ
  pub started : Bool
  pub workers : List (Worker Poller)
  pub event_storage : List ClientInfo
  pub avail : ℤ

-- `MIN_EPOLL_WAIT_TIME`, the timeout that a worker begins with without `__DEBUG__`.
abbrev pub min_epoll_wait_time : ℤ
min_epoll_wait_time = pos 10000

-- `COERCE_IN(CPU_CORE, worker_num, CPU_CORE * 12)`
unfoldable pub worker_num_for : (cpu_core worker_num : ℕ) → ℕ
unfolding coerce_in
worker_num_for cpu_core worker_num =
    to_ℕ (coerce_in (pos cpu_core) (pos worker_num) (pos (cpu_core * 12)))

-- The end of the task that `submit` makes: the client is queued in `event_storage_`.
unfoldable pub put_client : ClientInfo → List ClientInfo → List ClientInfo
put_client info storage = storage ++ (info ∷ [])

module _ {Poller : Type 0} where
  -- The loop of the constructor from worker `i` on, with `left` to go.
  unfoldable pub make_workers : (cpu_core : ℕ) → Poller → (left i : ℕ) → List (Worker Poller)
  make_workers cpu_core new zero i = []
  make_workers cpu_core new (suc left) i =
      record {
        name = i;
        cpu_affinity_id = i % cpu_core;
        started = false;
        poll_timeout = min_epoll_wait_time;
        client_infos = [];
        poller = new;
      }
      ∷ make_workers cpu_core new left (i + 1)

  unfoldable pub new_worker_pool : (cpu_core worker_num : ℕ) → Poller → WorkerPool Poller
  unfolding worker_num_for make_workers
  new_worker_pool cpu_core worker_num new = record {
    worker_num = worker_num_for cpu_core worker_num;
    started = false;
    workers = make_workers cpu_core new (worker_num_for cpu_core worker_num) 0;
    event_storage = [];
    avail = pos 0;
  }

  -- The loop of `set_poll_timeout`, by `set_timeout`.
  unfoldable pub set_timeouts : ℤ → List (Worker Poller) → List (Worker Poller)
  set_timeouts timeout [] = []
  set_timeouts timeout (w ∷ ws) = record w { poll_timeout = timeout } ∷ set_timeouts timeout ws

  unfoldable pub set_poll_timeout : ℤ → WorkerPool Poller → WorkerPool Poller
  unfolding set_timeouts
  set_poll_timeout timeout p = record p {
    workers =
        set_timeouts (if ltb_ℤ timeout min_epoll_wait_time then min_epoll_wait_time else timeout)
          p.workers;
  }

  -- `start`, for every worker: a thread is made unless it has been, whether or not that succeeds.
  unfoldable pub start_all : List (Worker Poller) → List (Worker Poller)
  start_all [] = []
  start_all (w ∷ ws) = (if w.started then w else record w { started = true }) ∷ start_all ws

  -- `startup`, with the pool of threads that it creates; the result of `create` is dropped.
  unfoldable pub startup :
      (cpu_core : ℕ) (spawn : ℕ → Option ℕ) → WorkerPool Poller → Pool → WorkerPool Poller × Pool
  unfolding start_all
  startup cpu_core spawn p threads = (
    record p { workers = start_all p.workers; avail = pos p.worker_num; started = true },
    (ThreadPool.create cpu_core spawn (pos cpu_core) (pos 2048) threads).1,
  )

  -- `closure` is the identity of the lambda over a client. What `thread_pool::submit` returns is
  -- dropped; `none` is its fault.
  abbrev pub submit_to :
      SubmitCalls → (closure : ℕ) → WorkerPool Poller × Pool → Option (WorkerPool Poller × Pool)
  submit_to calls closure (p, threads) =
      elim (ThreadPool.submit calls none (some closure) threads) [
        | none ↦ none
        | some (err, threads') ↦ some (p, threads')
      ]

  unfoldable pub submit :
      (cpu_core : ℕ) (spawn : ℕ → Option ℕ) (calls : SubmitCalls) (closure : ℕ)
      → WorkerPool Poller
      → Pool
      → Option (WorkerPool Poller × Pool)
  unfolding startup
  submit cpu_core spawn calls closure p threads =
      submit_to calls closure (if p.started then (p, threads) else startup cpu_core spawn p threads)

  -- A worker's locked section: it takes the first client, if there is one, records it, and adds it to
  -- its poller by `add_event`.
  abbrev pub take_first :
      (add_event : Poller → (fd events : ℕ) → Poller)
      → List ClientInfo
      → Worker Poller
      → List ClientInfo × Worker Poller
  take_first add_event [] w = ([], w)
  take_first add_event (info ∷ rest) w = (
    rest,
    record w {
      client_infos = insert info.fd info w.client_infos;
      poller = add_event w.poller info.fd info.events;
    },
  )
