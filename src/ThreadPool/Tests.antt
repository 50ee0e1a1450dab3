-- ===== src/ThreadPool/Tests.antt =====
-- The thread pool on small inputs: a ring of three slots, one thread, and the theorems applied.
use mathlib.Core.Equiv.{IsEquiv}
use mathlib.Core.Quot
use native.Mathlib.Decide.{ℕ_discrete}
use nonblocking_io.Common.{
  update, total, ℕ, ◌+◌, ◌^◌, ◌≤◌, ◌<◌, ◌≡◌, refl, Bool, true, false, none, some, [], ◌∷◌, ◌++◌,
  arith, length, ℤ, pos, negsuc, inc16, dec16,
}
use nonblocking_io.ThreadPool.{
  Task, no_task, Pool, new_pool, max_threads, max_queue, submit, submit_locked, enqueue, Turn,
  worker_turn, dequeue, leave_pool, thread_start, create, create_loop, immediate_shutdown,
  graceful_shutdown, threadpool_queue_full,
}
use nonblocking_io.ThreadPool.Invariant.{IsValid, IsNew}
use nonblocking_io.ThreadPool.View
use nonblocking_io.ThreadPool.QueuePool.{without_ring, poll_pool, offer_pool}
use nonblocking_io.ThreadPool.View.{ValidPool, queue_pool_of, put, pools_are_queues}
use nonblocking_io.ThreadPool.Create.{create-IsNew}
use nonblocking_io.ThreadPool.Fifo.{contents, view, offer, report, submit_refines}
use nonblocking_io.ThreadPool.Shutdown.{free_resource, shutdown_locked}
use nonblocking_io.ThreadPool.Singleton.{shutdown_static}
use nonblocking_io.ThreadPool.System.{
  fresh, ready, running, exited, Sys, all_ok, all_ok_shutdown, woken, nobody, Step, start, turn,
  accept, shut, Reach, here, next, initial,
}
use nonblocking_io.ThreadPool.System.Threads.{alive, begun, runs}
use nonblocking_io.ThreadPool.System.Invariant.{count}
use nonblocking_io.ThreadPool.System.Safety.{
  accepted-eq-taken-append-contents, accepted_run_once, counters_agree,
}
use nonblocking_io.ThreadPool.System.Liveness.{awake, no_lost_wake_up}
use nonblocking_io.ThreadPool.System.Stopping.{shutdown_drops_queue}
use nonblocking_io.ThreadPool.System.Draining.{shutdown_can_finish}

abbrev task : ℕ → Task
task k = record { fun = some k; args = none }

abbrev small_pool : Pool
small_pool = record new_pool {
  threads = 7 ∷ [];
  work_queue = no_task ∷ no_task ∷ no_task ∷ [];
  queue_size = 3;
}

-- Two tasks, round the end of the ring.
abbrev wrapped_pool : Pool
wrapped_pool = record small_pool {
  work_queue = task 2 ∷ no_task ∷ task 1 ∷ [];
  curr = 2;
  tail = 1;
  work_count = 2;
}

small_pool-IsNew : IsNew small_pool
small_pool-IsNew = record {
  valid = omega arith;
  free = refl;
  empty = refl;
  none_started = refl;
  no_threads = refl;
}

wrapped_pool-IsValid : IsValid wrapped_pool
wrapped_pool-IsValid = omega arith

wrapped_contents : contents wrapped_pool ≡ task 1 ∷ task 2 ∷ []
wrapped_contents = refl

-- The third task fills the ring, and the fourth is refused.
fill_up :
    (submit all_ok none (some 3) wrapped_pool
      ≡ some (
        pos 0,
        record wrapped_pool {
          work_queue = task 2 ∷ task 3 ∷ task 1 ∷ [];
          tail = 2;
          work_count = 3;
        },
      ))
    × (submit all_ok none (some 4) (record wrapped_pool { work_count = 3 })
        ≡ some (threadpool_queue_full, record wrapped_pool { work_count = 3 }))
unfolding submit submit_locked enqueue
fill_up = (refl, refl)

create_default :
    (p : Pool) × (create 4 (λ i. some i) (pos 4) (pos (2 ^ 11)) new_pool ≡ (pos 0, p))
    × (p.queue_size ≡ 2048)
    × (p.threads ≡ 0 ∷ 1 ∷ 2 ∷ 3 ∷ [])
    × (p.mask ≡ 3 ∷ [])
unfolding create create_loop
create_default = (_, refl, refl, refl, refl)

submit_refines_example :
    (r : ℤ × Pool) × (submit all_ok none (some 3) wrapped_pool ≡ some r)
    × IsValid r.1
    × (view r.1 ≡ (offer (task 3) (view wrapped_pool)).1)
    × (r.0 ≡ report all_ok (offer (task 3) (view wrapped_pool)).0)
    × (r.1.locked ≡ false)
submit_refines_example = submit_refines all_ok none (some 3) wrapped_pool-IsValid refl

pools_are_queues_example :
    IsEquiv queue_pool_of
    × ((r : Turn × ValidPool) × (worker_turn wrapped_pool ≡ some (r.0, r.1.0))
        × (View.turn (Quot.mk (wrapped_pool, wrapped_pool-IsValid)) ≡ (r.0, Quot.mk r.1))
        × ((r.0, (queue_pool_of (Quot.mk r.1)).0) ≡ poll_pool (without_ring wrapped_pool)))
    × ((r : ℤ × ValidPool) × (submit all_ok none (some 3) wrapped_pool ≡ some (r.0, r.1.0))
        × (put all_ok none (some 3) (Quot.mk (wrapped_pool, wrapped_pool-IsValid))
            ≡ (r.0, Quot.mk r.1))
        × ((r.0, (queue_pool_of (Quot.mk r.1)).0)
            ≡ offer_pool all_ok (task 3) (without_ring wrapped_pool)))
unfolding queue_pool_of
pools_are_queues_example = pools_are_queues all_ok none (some 3) wrapped_pool wrapped_pool-IsValid

create-IsNew_example :
    let q = (create 4 (λ i. some i) (pos 1) (negsuc 0) new_pool).1 in
    IsNew q
    × (q.shutdown ≡ false)
    × (1024 ≤ q.queue_size)
    × (q.queue_size ≤ max_queue)
    × (4 ≤ length q.threads)
    × (length q.threads ≤ max_threads)
create-IsNew_example = create-IsNew 4 (λ i. some i) (pos 1) (negsuc 0) new_pool (omega arith) refl

-- Thread 0 has begun; task 1 has been accepted; it is being run; task 2 waits in the ring.
abbrev begun_sys : Sys
begun_sys = record (initial (record small_pool { started_num = 1; thread_count = 1 })) {
  pc = update (λ _. fresh) 0 ready;
}

abbrev given_sys : Sys
given_sys = record begun_sys {
  pool = record small_pool {
    started_num = 1;
    thread_count = 1;
    work_queue = task 1 ∷ no_task ∷ no_task ∷ [];
    tail = 1;
    work_count = 1;
  };
  accepted = task 1 ∷ [];
}

abbrev running_sys : Sys
running_sys = record given_sys {
  pool = record small_pool { started_num = 1; thread_count = 1; curr = 1; tail = 1 };
  pc = update (update (λ _. fresh) 0 ready) 0 (running (task 1));
  taken = task 1 ∷ [];
}

abbrev stopped_sys : Sys
stopped_sys = record given_sys {
  pool = record given_sys.pool { shutdown = true; shutdown_mode = graceful_shutdown };
  pc = λ i. woken (given_sys.pc i);
}

begun_Reach : Reach 1 (initial small_pool) begun_sys
unfolding thread_start inc16
begun_Reach = next here (start 0 (omega arith) refl)

given_Reach : Reach 1 (initial small_pool) given_sys
unfolding submit submit_locked enqueue
given_Reach = next begun_Reach (accept none (some 1) {k = 0} refl (nobody (λ i lt e. ground arith)))

running_Reach : Reach 1 (initial small_pool) running_sys
unfolding worker_turn dequeue ℕ_discrete
running_Reach = next given_Reach (turn 0 (omega arith) refl refl)

stopped_Reach : Reach 1 (initial small_pool) stopped_sys
unfolding shutdown_locked
stopped_Reach = next given_Reach (shut graceful_shutdown {k = 0} refl)

accepted-eq-taken-append-contents_example :
    running_sys.accepted ≡ running_sys.taken ++ contents running_sys.pool
accepted-eq-taken-append-contents_example =
    accepted-eq-taken-append-contents 1 (omega arith) small_pool-IsNew running_Reach

abbrev any_task : Task → Bool
any_task t = true

accepted_run_once_example :
    count any_task running_sys.accepted
    ≡ count any_task (contents running_sys.pool)
      + total (runs any_task) 1 running_sys.pc
      + count any_task running_sys.finished
accepted_run_once_example =
    accepted_run_once 1 any_task (omega arith) small_pool-IsNew running_Reach

counters_agree_example :
    IsValid running_sys.pool
    × (running_sys.pool.locked ≡ false)
    × (running_sys.pool.started_num ≡ total alive 1 running_sys.pc)
    × (running_sys.pool.thread_count ≡ total begun 1 running_sys.pc)
counters_agree_example = counters_agree 1 (omega arith) small_pool-IsNew running_Reach

no_lost_wake_up_example : (i : ℕ) × (i < 1) × (0 < awake (given_sys.pc i))
no_lost_wake_up_example =
    no_lost_wake_up 1 (omega arith) (omega arith) small_pool-IsNew given_Reach refl (omega arith)

-- The only thread leaves with the task still in the ring.
abbrev left_sys : Sys
left_sys = record stopped_sys {
  pool = record stopped_sys.pool { started_num = 0 };
  pc = update stopped_sys.pc 0 exited;
}

left_Step : Step 1 stopped_sys left_sys
unfolding worker_turn leave_pool dec16 ℕ_discrete
left_Step = turn 0 (omega arith) refl refl

shutdown_drops_queue_example :
    (left_sys.pool.shutdown ≡ true)
    × (left_sys.accepted ≡ stopped_sys.accepted)
    × (left_sys.taken ≡ stopped_sys.taken)
    × (contents left_sys.pool ≡ contents stopped_sys.pool)
shutdown_drops_queue_example =
    shutdown_drops_queue 1 (omega arith) small_pool-IsNew stopped_Reach refl (next here left_Step)

shutdown_can_finish_example :
    (t : Sys) × Reach 1 stopped_sys t
    × ((i : ℕ) → i < 1 → t.pc i ≡ exited)
    × (t.pool.started_num ≡ 0)
    × ((free_resource t.pool).0 ≡ pos 0)
shutdown_can_finish_example =
    shutdown_can_finish 1 (omega arith) small_pool-IsNew stopped_Reach refl

no_pool_shutdown : shutdown_static all_ok_shutdown immediate_shutdown (λ q. q) none ≡ some none
unfolding shutdown_static
no_pool_shutdown = refl
