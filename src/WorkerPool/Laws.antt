-- ===== src/WorkerPool/Laws.antt =====
-- The sizes, the start and the submissions of the worker pool.
use Prim.Native.Nat.{max}
use nonblocking_io.Common.{
  ℕ, zero, suc, ◌+◌, ◌≤◌, ◌<◌, ◌≡◌, refl, ap, true, false, Option, none, some, List, [], ◌∷◌, arith,
  length, All, ℤ, pos, coerce_in,
}
use nonblocking_io.ThreadPool.{Pool, SubmitCalls, max_threads}
use nonblocking_io.ThreadPool.Invariant.{IsValid, IsNew}
use nonblocking_io.ThreadPool.Create.{create-IsNew}
use nonblocking_io.ThreadPool.Fifo.{view, offer, submit_refines}
use nonblocking_io.WorkerPool.{
  Worker, WorkerPool, worker_num_for, make_workers, new_worker_pool, set_timeouts, start_all,
  startup, submit,
}

-- The number of workers is the larger of the processors and the number asked for: the bound of
-- `CPU_CORE * 12`, and any number below `CPU_CORE`, have no effect.
pub worker_num_for-eq-max :
    (cpu_core worker_num : ℕ) → worker_num_for cpu_core worker_num ≡ max cpu_core worker_num
unfolding worker_num_for coerce_in
worker_num_for-eq-max cpu_core worker_num = ground arith

module _ {Poller : Type 0} where
  length-make_workers :
      (cpu_core : ℕ) (new : Poller) (left i : ℕ) → length (make_workers cpu_core new left i) ≡ left
  unfolding make_workers
  length-make_workers cpu_core new zero i = refl
  length-make_workers cpu_core new (suc left) i =
      ap suc (length-make_workers cpu_core new left (i + 1))

  make_workers_bound :
      (cpu_core : ℕ) (new : Poller) (left i : ℕ)
      → 0 < cpu_core
      → All (λ w. w.cpu_affinity_id < cpu_core) (make_workers cpu_core new left i)
  unfolding make_workers
  make_workers_bound cpu_core new zero i h = tt
  make_workers_bound cpu_core new (suc left) i h =
      (omega arith, make_workers_bound cpu_core new left (i + 1) h)

  -- On a machine with at least one processor: a new pool has as many workers as it says, the larger
  -- of the processors and the number asked for, and each is bound to a processor that exists.
  new_worker_pool_workers :
      (cpu_core worker_num : ℕ) (new : Poller)
      → 0 < cpu_core
      → let p = new_worker_pool cpu_core worker_num new in
        (p.worker_num ≡ max cpu_core worker_num)
        × (length p.workers ≡ p.worker_num)
        × All (λ w. w.cpu_affinity_id < cpu_core) p.workers
  unfolding new_worker_pool
  new_worker_pool_workers cpu_core worker_num new h = (
    worker_num_for-eq-max cpu_core worker_num,
    length-make_workers cpu_core new (worker_num_for cpu_core worker_num) 0,
    make_workers_bound cpu_core new (worker_num_for cpu_core worker_num) 0 h,
  )

  set_timeouts-All :
      (timeout : ℤ) (ws : List (Worker Poller))
      → All (λ w. w.poll_timeout ≡ timeout) (set_timeouts timeout ws)
  unfolding set_timeouts
  set_timeouts-All timeout [] = tt
  set_timeouts-All timeout (w ∷ ws) = (refl, set_timeouts-All timeout ws)

  start_all_started : (ws : List (Worker Poller)) → All (λ w. w.started ≡ true) (start_all ws)
  unfolding start_all
  start_all_started [] = tt
  start_all_started (w ∷ ws) = (ground arith, start_all_started ws)

  -- On a machine with at most `MAX_THREADS` processors, with a thread pool whose lock is free, and
  -- whether or not the pool's threads can be started: `startup` marks every worker and the pool as
  -- started, stores the number of workers as available, and leaves the thread pool new and empty.
  startup_starts :
      (cpu_core : ℕ) (spawn : ℕ → Option ℕ) (p : WorkerPool Poller) (threads : Pool)
      → cpu_core ≤ max_threads
      → threads.locked ≡ false
      → let r = startup cpu_core spawn p threads in
        All (λ w. w.started ≡ true) r.0.workers
        × (r.0.started ≡ true)
        × (r.0.avail ≡ pos p.worker_num)
        × IsNew r.1
  unfolding startup
  startup_starts cpu_core spawn p threads cores free = (
    start_all_started p.workers,
    refl,
    refl,
    (create-IsNew cpu_core spawn (pos cpu_core) (pos 2048) threads cores free).0,
  )

  -- `submit` of a started pool, over a valid thread pool whose lock can be taken: it returns, leaves
  -- the worker pool as it is, and does to the thread pool's queue what an offer of the task does. So
  -- the client is dropped without a word if the queue is full or shut down.
  pub submit-offer :
      (cpu_core : ℕ) (spawn : ℕ → Option ℕ) (calls : SubmitCalls) (closure : ℕ)
      (p : WorkerPool Poller) {threads : Pool}
      → p.started ≡ true
      → IsValid threads
      → calls.lock ≡ true
      → (r : WorkerPool Poller × Pool) × (submit cpu_core spawn calls closure p threads ≡ some r)
        × (r.0 ≡ p)
        × IsValid r.1
        × (view r.1 ≡ (offer (record { fun = some closure; args = none }) (view threads)).1)
  unfolding submit
  submit-offer cpu_core spawn calls closure p {threads} on v lock =
      let (r, e, valid, same, _, _) = submit_refines calls none (some closure) v lock in
      ((p, r.1), ground (arith, e, on), refl, valid, same)
