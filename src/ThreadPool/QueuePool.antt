-- ===== src/ThreadPool/QueuePool.antt =====
-- The pool of thread_pool.cpp with a queue in place of its ring, and what `submit` and a worker's
-- turn do to it.
use nonblocking_io.Common.{ℕ, ◌≡◌, Bool, not, Option, List, arith, ℤ, dec16, if◌then◌else◌}
use nonblocking_io.ThreadPool.{Task, Pool, Turn, SubmitCalls, ShutdownMode, threadpool_lock_failure}
use nonblocking_io.ThreadPool.Invariant.{IsValid, submit_error, submitted, turn_of, after_turn}
use nonblocking_io.ThreadPool.Fifo.{
  report, Queue, offer, poll, view, contents-pushed, contents-popped, contents_empty,
  length-contents,
}

-- A pool with a queue for its ring.
pub record QueuePool : Type 0 where
  pub queue : Queue
  pub locked : Bool
  pub destroyed : Bool
  pub threads : List ℕ
  pub thread_count : ℕ
  pub shutdown_mode : ShutdownMode
  pub started_num : ℕ
  pub mask : List ℕ

abbrev pub without_ring : Pool → QueuePool
without_ring p = record {
  queue = view p;
  locked = p.locked;
  destroyed = p.destroyed;
  threads = p.threads;
  thread_count = p.thread_count;
  shutdown_mode = p.shutdown_mode;
  started_num = p.started_num;
  mask = p.mask;
}

-- A worker's turn polls the queue, and counts itself out if it leaves.
unfoldable pub poll_pool : QueuePool → Turn × QueuePool
unfolding poll dec16
poll_pool s = (
  (poll s.queue).0,
  record s {
    queue = (poll s.queue).1;
    started_num = if s.queue.closed then dec16 s.started_num else s.started_num;
  },
)

-- A submit that cannot take the lock changes nothing; any other offers its task to the queue, and
-- leaves the lock held if it cannot give it back.
unfoldable pub offer_pool : SubmitCalls → Task → QueuePool → ℤ × QueuePool
unfolding offer
offer_pool calls t s =
    if calls.lock
    then (
      report calls (offer t s.queue).0,
      record s { queue = (offer t s.queue).1; locked = not calls.unlock },
    )
    else (threadpool_lock_failure, s)

pub turn-poll :
    {p : Pool} → IsValid p → (turn_of p, without_ring (after_turn p)) ≡ poll_pool (without_ring p)
unfolding poll_pool poll
turn-poll {p} v = ground (arith, contents_empty p, contents-popped v)

pub submit-offer :
    (calls : SubmitCalls) (args func : Option ℕ) {p : Pool}
    → IsValid p
    → (submit_error calls p, without_ring (submitted calls args func p))
      ≡ offer_pool calls (record { fun = func; args = args }) (without_ring p)
unfolding offer_pool offer
submit-offer calls args func {p} v = ground (arith, length-contents p, contents-pushed args func v)
