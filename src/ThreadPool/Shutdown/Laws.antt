-- ===== src/ThreadPool/Shutdown/Laws.antt =====
-- What `shutdown_interval` does on each of its paths, the failing ones included.
use nonblocking_io.Common.{
  ℕ, zero, suc, ◌+◌, ◌≤◌, ◌≡◌, ◌⊎◌, refl, Bool, true, false, ◌&&◌, some, List, arith, length,
  get_or, pos,
}
use nonblocking_io.ThreadPool.{Pool, ShutdownMode}
use nonblocking_io.ThreadPool.Invariant.{IsNew}
use nonblocking_io.ThreadPool.Shutdown.{
  free_resource, ShutdownCalls, join_loop, join_threads, shutdown_locked, finish_shutdown,
  shutdown_interval,
}

-- Once `lock_` has been taken, a call of `shutdown_interval` on a pool that is shut down already, or
-- one whose broadcast or unlocking fails, returns 0 and leaves `lock_` held: every later lock
-- blocks, and the error is not reported.
shutdown_error_keeps_lock :
    (calls : ShutdownCalls) (mode : ShutdownMode) (others : Pool → Pool) (p : Pool)
    → calls.lock ≡ true
    → (p.shutdown ≡ true) ⊎ ((calls.broadcast && calls.unlock) ≡ false)
    → (q : Pool) × (shutdown_interval calls mode others p ≡ some (pos 0, q))
      × (q.locked ≡ true)
      × (q.shutdown ≡ true)
      × (q.destroyed ≡ p.destroyed)
unfolding shutdown_interval shutdown_locked
shutdown_error_keeps_lock calls mode others p lock failing = (
  (shutdown_locked calls mode (record p { locked = true })).1,
  ground arith,
  ground arith,
  ground arith,
  ground arith,
)

join_loop_all :
    (join : ℕ → Bool) (threads : List ℕ) (left i : ℕ)
    → i + left ≤ length threads
    → ((id : ℕ) → join id ≡ true)
    → join_loop join threads left i ≡ some (pos 0)
unfolding join_loop
join_loop_all join threads zero i h all = refl
join_loop_all join threads (suc left) i h all =
    ground (arith, join_loop_all join threads left (i + 1), all (get_or threads i 0))

-- The joins and the clean-up, once every thread that has begun has left.
finish_shutdown_frees :
    (join : ℕ → Bool) (q : Pool)
    → ((id : ℕ) → join id ≡ true)
    → q.thread_count ≤ length q.threads
    → q.started_num ≡ 0
    → finish_shutdown join q ≡ some (pos 0, record q { locked = true; destroyed = true })
unfolding finish_shutdown join_threads free_resource
finish_shutdown_frees join q all fits stopped = ground (
  arith,
  join_loop_all join q.threads q.thread_count 0 (omega arith) all,
  join_loop_all join q.threads 0 0 (omega arith) all,
)

-- When every pthread call succeeds, the pool is open, and by the time of the joins the other threads
-- have made it `q`, in which no more threads have begun than `threads_` has ids and all of them have
-- left (`started_num_` is 0): `shutdown_interval` returns 0, and leaves `q` with its lock and
-- condition destroyed, the lock held as it is.
shutdown_interval_frees :
    (calls : ShutdownCalls) (mode : ShutdownMode) (others : Pool → Pool) (p : Pool) {q : Pool}
    → calls.lock ≡ true
    → calls.broadcast ≡ true
    → calls.unlock ≡ true
    → ((id : ℕ) → calls.join id ≡ true)
    → p.shutdown ≡ false
    → others (record p { locked = false; shutdown_mode = mode; shutdown = true }) ≡ q
    → q.thread_count ≤ length q.threads
    → q.started_num ≡ 0
    → shutdown_interval calls mode others p
      ≡ some (pos 0, record q { locked = true; destroyed = true })
unfolding shutdown_interval shutdown_locked
shutdown_interval_frees calls mode others p {q} lock broadcast unlock all open_now e fits stopped =
    ground (arith, e, finish_shutdown_frees calls.join q all fits stopped)

-- A new pool is shut down before any of its threads has run: `shutdown_interval` joins no thread,
-- whatever the joins would return, and destroys the lock that the threads are yet to take.
shutdown_before_start :
    (calls : ShutdownCalls) (mode : ShutdownMode) {p : Pool}
    → calls.lock ≡ true
    → calls.broadcast ≡ true
    → calls.unlock ≡ true
    → IsNew p
    → p.shutdown ≡ false
    → shutdown_interval calls mode (λ q. q) p
      ≡ some (
        pos 0,
        record p { locked = true; shutdown_mode = mode; shutdown = true; destroyed = true },
      )
unfolding shutdown_interval shutdown_locked finish_shutdown join_threads free_resource join_loop
shutdown_before_start calls mode {p} lock broadcast unlock new open_now =
    ground (arith, new.none_started, new.no_threads)
