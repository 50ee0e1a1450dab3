-- ===== src/WorkerPool/Round.antt =====
-- One round of the loop of `worker_routine` in tcp_worker_pool.cpp, from the parts of it: a client is
-- taken, the timeout is computed, the poller is polled, and its callback answers.
pub mod Answered
pub mod Registered
mod Tests
use nonblocking_io.Common.{ℕ, Bool, false, Option, none, some, List, [], ◌∷◌, ◌++◌, ℤ}
use nonblocking_io.Epoll.{Kernel, Event, Result, add_event, poll_event}
use nonblocking_io.WorkerPool.{ClientInfo, Worker, take_first}
use nonblocking_io.WorkerPool.WaitTime.{wait_time}
use nonblocking_io.WorkerPool.Callback.{Written, callback}

-- `event_storage_`, the worker, and what its thread has sent.
pub record Round (State : Type 0) : Type 0 where
  pub storage : List ClientInfo
  pub worker : Worker State
  pub written : Written

-- What comes from outside: the two reads of `avail_woker_num_`, what `read` returns for a
-- descriptor (`epoll_wait` gives each at most once), and the clients that tasks have put in since
-- the last round.
pub record Input : Type 0 where
  pub tested : ℤ
  pub used : ℤ
  pub read_of : ℕ → ℤ
  pub arrived : List ClientInfo

abbrev pub with_reads : (read_of : ℕ → ℤ) → List Event → List (Event × ℤ)
with_reads read_of [] = []
with_reads read_of (e ∷ events) = (e, read_of e.fd) ∷ with_reads read_of events

module _ {State : Type 0} (k : Kernel State) where
  -- `poller_.add_event(fd, events)`
  abbrev pub add_to : State → (fd events : ℕ) → State
  add_to s fd events = (add_event k s fd events false).after

  abbrev pub arrive_and_take : List ClientInfo → Round State → Round State
  arrive_and_take arrived s =
      let (rest, w) = take_first add_to (s.storage ++ arrived) s.worker in
      record s { storage = rest; worker = w }

  abbrev pub answer_all :
      (read_of : ℕ → ℤ) → Option (List Event) → Round State → Option (Round State)
  answer_all read_of none s = some s
  answer_all read_of (some events) s = elim (callback (with_reads read_of events) s.written) [
    | none ↦ none
    | some written ↦ some (record s { written = written })
  ]

  abbrev pub poll_for : (read_of : ℕ → ℤ) → Option ℤ → Round State → Option (Round State)
  poll_for read_of none s = none
  poll_for read_of (some timeout) s =
      let (ready, _, poller) = poll_event k s.worker.poller timeout in
      answer_all read_of ready (record s { worker = record s.worker { poller = poller } })

  -- `none` is the division by zero, or a fault of the callback.
  unfoldable pub worker_round : (worker_num : ℕ) → Input → Round State → Option (Round State)
  unfolding wait_time callback add_event poll_event
  worker_round worker_num i s =
      poll_for i.read_of (wait_time worker_num i.tested i.used) (arrive_and_take i.arrived s)

  unfoldable pub worker_rounds : (worker_num : ℕ) → List Input → Round State → Option (Round State)
  unfolding worker_round
  worker_rounds worker_num [] s = some s
  worker_rounds worker_num (i ∷ inputs) s = elim (worker_round worker_num i s) [
    | none ↦ none
    | some s' ↦ worker_rounds worker_num inputs s'
  ]
