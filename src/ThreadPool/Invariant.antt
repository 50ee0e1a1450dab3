-- ===== src/ThreadPool/Invariant.antt =====
-- The representation invariant of the pool, and the operations that keep it.
use native.Mathlib.Nat.{mod-add-mod}
use nonblocking_io.Common.{
  ℕ, ap, get_or, ◌%◌, ◌≤◌, ◌<◌, ◌≡◌, Bool, Option, some, arith, length, length-set, ℤ, pos, dec16,
  true, false, not, ◌&&◌, ◌==◌, if◌then◌else◌,
}
use nonblocking_io.ThreadPool.{
  threadpool_lock_failure, threadpool_queue_full, threadpool_shutdown, no_task, Pool, max_queue,
  SubmitCalls, pushed, popped, enqueue, submit_locked, submit, Turn, wait, leave, run, dequeue,
  leave_pool, worker_turn,
}
use nonblocking_io.ThreadPool.Ring.{slot}

-- The ring has slots for `queue_size_` tasks, `curr_` is the oldest one and `tail_` the first free
-- slot behind the newest.
pub record IsValid (p : Pool) : Type 0 where
  pub fits : p.queue_size ≤ length p.work_queue
  pub small : p.queue_size ≤ max_queue
  pub curr_in : p.curr < p.queue_size
  pub count_in : p.work_count ≤ p.queue_size
  pub tail_at : p.tail ≡ slot p.queue_size p.curr p.work_count

-- A pool as `create` leaves it: valid, unlocked, empty, its counters at 0.
pub record IsNew (p : Pool) : Type 0 where
  pub valid : IsValid p
  pub free : p.locked ≡ false
  pub empty : p.work_count ≡ 0
  pub none_started : p.started_num ≡ 0
  pub no_threads : p.thread_count ≡ 0

-- `tail_` is a slot of the ring too.
pub tail-lt : {p : Pool} → IsValid p → p.tail < p.queue_size
tail-lt v = omega arith

-- In a valid pool neither access to the ring is out of range.
pub enqueue_in_range :
    (args func : Option ℕ) {p : Pool} → IsValid p → enqueue args func p ≡ some (pushed args func p)
unfolding enqueue
enqueue_in_range args func {p} v = ground (arith, tail-lt v)

pub dequeue_in_range :
    {p : Pool} → IsValid p → dequeue p ≡ some (run (get_or p.work_queue p.curr no_task), popped p)
unfolding dequeue
dequeue_in_range {p} v = ground arith

pub pushed-IsValid :
    (args func : Option ℕ) {p : Pool}
    → IsValid p
    → p.work_count < p.queue_size
    → IsValid (pushed args func p)
pushed-IsValid args func {p} v room = record {
  fits = rw (length-set p.work_queue p.tail (record { fun = func; args = args })) v.fits;
  small = v.small;
  curr_in = v.curr_in;
  count_in = omega arith;
  tail_at = rw (v.tail_at, mod-add-mod) (ap (λ t. t % p.queue_size) (omega arith));
}

pub popped-IsValid : {p : Pool} → IsValid p → 0 < p.work_count → IsValid (popped p)
popped-IsValid {p} v some_task = record {
  fits = rw (length-set p.work_queue p.curr no_task) v.fits;
  small = v.small;
  curr_in = omega arith;
  count_in = omega arith;
  tail_at = rw (v.tail_at, mod-add-mod) (ap (λ t. t % p.queue_size) (omega arith));
}

-- A valid pool takes a task if it is neither full nor shut down.
abbrev pub accepts : Pool → Bool
accepts p = not (p.work_count == p.queue_size) && not p.shutdown

-- What `submit` returns, and the pool that it leaves.
abbrev pub submit_error : SubmitCalls → Pool → ℤ
submit_error calls p =
    if not (calls.lock && calls.unlock)
    then threadpool_lock_failure
    else if p.work_count == p.queue_size
    then threadpool_queue_full
    else if p.shutdown
    then threadpool_shutdown
    else if calls.signal
    then pos 0
    else threadpool_lock_failure

abbrev pub submitted : SubmitCalls → Option ℕ → Option ℕ → Pool → Pool
submitted calls args func p =
    if calls.lock
    then record (if accepts p then pushed args func p else p) { locked = not calls.unlock }
    else p

submit_locked_in_range :
    (signal : Bool) (args func : Option ℕ) {p : Pool}
    → IsValid p
    → submit_locked signal args func p
      ≡ some (
        submit_error (record { lock = true; signal = signal; unlock = true }) p,
        if accepts p then pushed args func p else p,
      )
unfolding submit_locked
submit_locked_in_range signal args func {p} v = ground (arith, enqueue_in_range args func v)

locked-IsValid : (b : Bool) {p : Pool} → IsValid p → IsValid (record p { locked = b })
locked-IsValid b v = record {
  fits = v.fits;
  small = v.small;
  curr_in = v.curr_in;
  count_in = v.count_in;
  tail_at = v.tail_at;
}

-- Every call of `submit` on a valid pool returns.
pub submit_in_range :
    (calls : SubmitCalls) (args func : Option ℕ) {p : Pool}
    → IsValid p
    → submit calls args func p ≡ some (submit_error calls p, submitted calls args func p)
unfolding submit
submit_in_range calls args func {p} v = ground (
  arith,
  submit_locked_in_range calls.signal args func {p = record p { locked = true }}
      (locked-IsValid true v),
)

pub submitted-IsValid :
    (calls : SubmitCalls) (args func : Option ℕ) {p : Pool}
    → IsValid p
    → IsValid (submitted calls args func p)
submitted-IsValid calls args func {p} v = ground (arith, pushed-IsValid args func v)

-- What a worker does in a turn on a valid pool, and the pool that it leaves.
abbrev pub turn_of : Pool → Turn
turn_of p =
    if p.shutdown
    then leave
    else if p.work_count == 0
    then wait
    else run (get_or p.work_queue p.curr no_task)

abbrev pub after_turn : Pool → Pool
after_turn p =
    if p.shutdown
    then record p { started_num = dec16 p.started_num }
    else if p.work_count == 0
    then p
    else popped p

leave_pool_lem : (p : Pool) → leave_pool p ≡ (leave, record p { started_num = dec16 p.started_num })
unfolding leave_pool
leave_pool_lem p = ground arith

pub worker_turn_in_range : {p : Pool} → IsValid p → worker_turn p ≡ some (turn_of p, after_turn p)
unfolding worker_turn
worker_turn_in_range {p} v = ground (arith, leave_pool_lem p, dequeue_in_range v)

pub after_turn-IsValid : {p : Pool} → IsValid p → IsValid (after_turn p)
after_turn-IsValid {p} v = ground (arith, popped-IsValid v)
