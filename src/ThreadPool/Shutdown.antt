-- ===== src/ThreadPool/Shutdown.antt =====
-- `shutdown_interval` and `free_resource` of thread_pool.cpp.
pub mod Laws
use nonblocking_io.Common.{
  ℕ, zero, suc, ◌+◌, Bool, true, false, ◌&&◌, Option, none, some, List, leb, if◌then◌else◌, length,
  get_or, ℤ, pos, negsuc, is_pos16,
}
use nonblocking_io.ThreadPool.{
  Pool, ShutdownMode, threadpool_lock_failure, threadpool_shutdown, threadpool_thread_failure,
}

-- `free_resource`: the lock is taken and destroyed, held as it is.
unfoldable pub free_resource : Pool → ℤ × Pool
unfolding is_pos16
free_resource p =
    if is_pos16 p.started_num
    then (negsuc 0, p)
    else (pos 0, record p { locked = true; destroyed = true })

-- What the pthread calls of `shutdown_interval` return; `join` by the thread's id.
pub record ShutdownCalls : Type 0 where
  pub lock : Bool
  pub broadcast : Bool
  pub unlock : Bool
  pub join : ℕ → Bool

-- The joins from thread `i` on, with `left` to go.
pub join_loop : (ℕ → Bool) → List ℕ → (left i : ℕ) → Option ℤ
join_loop join threads zero i = some (pos 0)
join_loop join threads (suc left) i =
    let rest = join_loop join threads left (i + 1) in
    if leb (length threads) i
    then none
    else if join (get_or threads i 0)
    then rest
    else some threadpool_thread_failure

-- `i < thread_count_` on a signed 16-bit number.
unfoldable pub join_threads : (ℕ → Bool) → Pool → Option ℤ
unfolding is_pos16 join_loop
join_threads join p =
    join_loop join p.threads (if is_pos16 p.thread_count then p.thread_count else 0) 0

-- From taking the lock to giving it up: the error, and the pool.
unfoldable pub shutdown_locked : ShutdownCalls → ShutdownMode → Pool → ℤ × Pool
shutdown_locked calls mode p =
    if p.shutdown
    then (threadpool_shutdown, p)
    else let marked : Pool = record p { shutdown_mode = mode; shutdown = true } in
      if calls.broadcast && calls.unlock
      then (pos 0, record marked { locked = false })
      else (threadpool_lock_failure, marked)

-- `!err`
abbrev pub is_zero : ℤ → Bool
is_zero (pos zero) = true
is_zero (pos (suc n)) = false
is_zero (negsuc n) = false

-- The joins, and what follows them: the pool is given up if there was no error.
unfoldable pub finish_shutdown : (ℕ → Bool) → Pool → Option (ℤ × Pool)
unfolding join_threads free_resource
finish_shutdown join p = elim (join_threads join p) [
  | none ↦ none
  | some err ↦ some (pos 0, if is_zero err then (free_resource p).1 else p)
]

-- `others` is what the other threads do to the pool while this one joins them.
unfoldable pub shutdown_interval :
    ShutdownCalls → ShutdownMode → (others : Pool → Pool) → Pool → Option (ℤ × Pool)
unfolding shutdown_locked finish_shutdown
shutdown_interval calls mode others p =
    if calls.lock
    then (let (err, p') = shutdown_locked calls mode (record p { locked = true }) in
        if is_zero err then finish_shutdown calls.join (others p') else some (pos 0, p'))
    else some (threadpool_lock_failure, p)
