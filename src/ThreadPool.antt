-- ===== src/ThreadPool.antt =====
-- thread_pool.h and thread_pool.cpp: the pool of worker threads over a bounded ring of tasks.
-- A `std::function` and a `std::shared_ptr` are known by their identity, `none` for `nullptr`. The
-- results of the pthread calls are arguments: `true` stands for the return value 0. A function that
-- may leave through `std::out_of_range` or divide by zero returns an option, `none` for the fault.
pub mod Ring
pub mod Invariant
pub mod Fifo
pub mod QueuePool
pub mod View
pub mod Create
pub mod Shutdown
pub mod Singleton
pub mod System
mod Tests
use nonblocking_io.Common.{
  ℕ, zero, suc, ◌+◌, ◌-◌, ◌%◌, ◌^◌, Bool, true, false, ◌&&◌, ◌||◌, not, Option, none, some, List,
  [], ◌∷◌, ltb, leb, ◌==◌, if◌then◌else◌, length, get_or, set, resize, ℤ, pos, negsuc, coerce_in,
  to_ℕ, inc16, dec16, is_pos16,
}

abbrev pub threadpool_lock_failure : ℤ
threadpool_lock_failure = negsuc 1

abbrev pub threadpool_queue_full : ℤ
threadpool_queue_full = negsuc 2

abbrev pub threadpool_shutdown : ℤ
threadpool_shutdown = negsuc 3

abbrev pub threadpool_thread_failure : ℤ
threadpool_thread_failure = negsuc 4

abbrev pub max_threads : ℕ
max_threads = 2 ^ 10

abbrev pub max_queue : ℕ
max_queue = 2 ^ 16 - 1

pub data ShutdownMode : Type 0 where
  immediate_shutdown graceful_shutdown : ShutdownMode

-- `thread_pool_task`
pub record Task : Type 0 where
  pub fun : Option ℕ
  pub args : Option ℕ

abbrev pub no_task : Task
no_task = record { fun = none; args = none }

-- The fields of `thread_pool`. `locked` says whether `lock_` is held, `destroyed` whether it and
-- `cond_` have been destroyed; a `cpu_set_t` is the list of its processors.
pub record Pool : Type 0 where
  pub locked : Bool
  pub destroyed : Bool
  pub threads : List ℕ
  pub work_queue : List Task
  pub thread_count : ℕ
  pub queue_size : ℕ
  pub curr : ℕ
  pub tail : ℕ
  pub work_count : ℕ
  pub shutdown : Bool
  pub shutdown_mode : ShutdownMode
  pub started_num : ℕ
  pub mask : List ℕ

-- The constructor.
abbrev pub new_pool : Pool
new_pool = record {
  locked = false;
  destroyed = false;
  threads = [];
  work_queue = [];
  thread_count = 0;
  queue_size = 0;
  curr = 0;
  tail = 0;
  work_count = 0;
  shutdown = false;
  shutdown_mode = graceful_shutdown;
  started_num = 0;
  mask = [];
}

-- The loop of `create` from thread `i` on, with `left` threads to go. `spawn i` is the id that
-- `pthread_create` stores for thread `i`, `none` if it fails.
pub create_loop : (cpu_core : ℕ) (spawn : ℕ → Option ℕ) (left i : ℕ) → Pool → ℤ × Pool
create_loop cpu_core spawn zero i p = (pos 0, p)
create_loop cpu_core spawn (suc left) i p =
    let masked : Pool = record p { mask = (i % cpu_core) ∷ [] } in
    elim (spawn i) [
      | none ↦ (negsuc 0, masked)
      | some id ↦
          create_loop cpu_core spawn left (i + 1) (record masked { threads = set p.threads i id })
    ]

-- `create` up to its loop: the fields are set for `count` threads and a ring of `size` slots.
abbrev pub reset_for : ℕ → ℕ → Pool → Pool
reset_for count size p = record p {
  queue_size = size;
  thread_count = 0;
  threads = resize count 0 p.threads;
  work_queue = resize size no_task p.work_queue;
  curr = 0;
  tail = 0;
  work_count = 0;
  started_num = 0;
}

unfoldable pub create : (cpu_core : ℕ) (spawn : ℕ → Option ℕ) → ℤ → ℤ → Pool → ℤ × Pool
unfolding create_loop coerce_in
create cpu_core spawn thread_count queue_size p =
    let count = to_ℕ (coerce_in thread_count (pos cpu_core) (pos max_threads)) in
    let size = to_ℕ (coerce_in queue_size (pos 1024) (pos max_queue)) in
    create_loop cpu_core spawn count 0 (reset_for count size p)

-- What the pthread calls of `submit` return.
pub record SubmitCalls : Type 0 where
  pub lock : Bool
  pub signal : Bool
  pub unlock : Bool

-- The task goes into the slot at `tail_`.
abbrev pub pushed : Option ℕ → Option ℕ → Pool → Pool
pushed args func p = record p {
  work_queue = set p.work_queue p.tail (record { fun = func; args = args });
  tail = (p.tail + 1) % p.queue_size;
  work_count = p.work_count + 1;
}

-- `at` throws out of range; a remainder by 0 is undefined.
unfoldable pub enqueue : Option ℕ → Option ℕ → Pool → Option Pool
enqueue args func p =
    if p.queue_size == 0 || leb (length p.work_queue) p.tail
    then none
    else some (pushed args func p)

-- The `do … while (false)` of `submit`.
unfoldable pub submit_locked : Bool → Option ℕ → Option ℕ → Pool → Option (ℤ × Pool)
submit_locked signal args func p =
    if p.work_count == p.queue_size
    then some (threadpool_queue_full, p)
    else if p.shutdown
    then some (threadpool_shutdown, p)
    else elim (enqueue args func p) [
      | none ↦ none
      | some p' ↦ some (if signal then pos 0 else threadpool_lock_failure, p')
    ]

unfoldable pub submit : SubmitCalls → Option ℕ → Option ℕ → Pool → Option (ℤ × Pool)
submit calls args func p =
    if calls.lock
    then elim (submit_locked calls.signal args func (record p { locked = true })) [
      | none ↦ none
      | some (err, p') ↦
          if calls.unlock
          then some (err, record p' { locked = false })
          else some (threadpool_lock_failure, p')
    ]
    else some (threadpool_lock_failure, p)

-- The start of `thread_routine`: the counters, and the number in the thread's name.
unfoldable pub thread_start : Pool → ℕ × Pool
unfolding inc16
thread_start p = (
  p.thread_count,
  record p { started_num = inc16 p.started_num; thread_count = inc16 p.thread_count },
)

-- What a worker does with the lock held: it waits, leaves its loop, or has a task to run.
pub data Turn : Type 0 where
  wait : Turn
  leave : Turn
  run : Task → Turn

-- The task leaves the slot at `curr_`, which is cleared.
abbrev pub popped : Pool → Pool
popped p = record p {
  work_queue = set p.work_queue p.curr no_task;
  curr = (p.curr + 1) % p.queue_size;
  work_count = p.work_count - 1;
}

-- A read out of range is undefined, and so is a remainder by 0.
unfoldable pub dequeue : Pool → Option (Turn × Pool)
dequeue p =
    if p.queue_size == 0 || leb (length p.work_queue) p.curr
    then none
    else some (run (get_or p.work_queue p.curr no_task), popped p)

unfoldable pub leave_pool : Pool → Turn × Pool
unfolding dec16
leave_pool p = elim p.shutdown_mode [
  | immediate_shutdown ↦ (leave, record p { started_num = dec16 p.started_num })
  | graceful_shutdown ↦ (leave, record p { started_num = dec16 p.started_num })
]

-- One round of the worker's loop, from taking the lock to giving it up: in `pthread_cond_wait`, on
-- leaving, or before the task is run.
unfoldable pub worker_turn : Pool → Option (Turn × Pool)
worker_turn p =
    if not p.shutdown && (p.work_count == 0)
    then some (wait, p)
    else if p.shutdown
    then some (leave_pool p)
    else dequeue p
