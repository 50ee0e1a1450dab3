-- ===== src/ThreadPool/Singleton.antt =====
-- The static `m_threadpool_` of thread_pool.cpp, `none` for `nullptr`: `instance` and the static
-- `shutdown`. The double check under `mtx_` makes one critical section of each.
use nonblocking_io.Common.{◌≡◌, true, Option, none, some, ℕ, arith}
use nonblocking_io.ThreadPool.{
  Pool, new_pool, ShutdownMode, SubmitCalls, submit, submit_locked, threadpool_queue_full,
}
use nonblocking_io.ThreadPool.Shutdown.{ShutdownCalls, shutdown_interval}

-- The pool that `instance` returns, and `m_threadpool_` afterwards.
unfoldable pub pool_instance : Option Pool → Pool × Option Pool
pool_instance none = (new_pool, some new_pool)
pool_instance (some p) = (p, some p)

-- `m_threadpool_` after the static `shutdown`: the pool is deleted whatever `shutdown_interval` says.
unfoldable pub shutdown_static :
    ShutdownCalls → ShutdownMode → (others : Pool → Pool) → Option Pool → Option (Option Pool)
shutdown_static calls mode others none = some none
shutdown_static calls mode others (some p) = elim (shutdown_interval calls mode others p) [
  | none ↦ none
  | some r ↦ some none
]

-- Whenever the static `shutdown` returns, `m_threadpool_` is null, and a `submit` through the next
-- `instance()`, for which `create` has not been called, is refused with `THREADPOOL_QUEUE_FULL`, if
-- its lock and unlock succeed. It leaves the new pool as it was.
submit-shutdown_static :
    (calls : ShutdownCalls) (mode : ShutdownMode) (others : Pool → Pool) (m : Option Pool)
    {m' : Option Pool} (os : SubmitCalls) (args func : Option ℕ)
    → shutdown_static calls mode others m ≡ some m'
    → os.lock ≡ true
    → os.unlock ≡ true
    → (m' ≡ none)
      × (submit os args func (pool_instance m').0 ≡ some (threadpool_queue_full, new_pool))
unfolding shutdown_static pool_instance submit submit_locked
submit-shutdown_static calls mode others none os args func e lock unlock =
    (ground arith, ground arith)
submit-shutdown_static calls mode others (some p) os args func e lock unlock =
    (ground arith, ground arith)
