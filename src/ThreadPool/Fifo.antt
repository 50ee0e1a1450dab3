-- ===== src/ThreadPool/Fifo.antt =====
-- The contract of the pool's queue: a bounded first-in first-out queue that can be closed. `submit`
-- and a worker's turn implement it on every valid pool.
use native.Mathlib.Nat.{mod-eq_of_lt}
use nonblocking_io.Common.{
  ℕ, suc, ◌+◌, ◌-◌, ◌%◌, ◌<◌, ◌≡◌, ap, ap₂, ◌∙◌, sym, Bool, true, ◌&&◌, not, Option, some, List, [],
  ◌∷◌, ◌++◌, arith, length, get_or, set, length-tabulate, ◌==◌, if◌then◌else◌, ℤ, pos, negsuc,
}
use nonblocking_io.ThreadPool.{
  threadpool_lock_failure, threadpool_queue_full, threadpool_shutdown, Task, no_task, Pool,
  SubmitCalls, pushed, popped, submit, Turn, wait, leave, run, worker_turn,
}
use nonblocking_io.ThreadPool.Ring.{slot, held, held-set_end, held-set_start}
use nonblocking_io.ThreadPool.Invariant.{
  IsValid, submit_error, submitted, submit_in_range, submitted-IsValid, turn_of, after_turn,
  worker_turn_in_range, after_turn-IsValid,
}

pub record Queue : Type 0 where
  pub items : List Task
  pub bound : ℕ
  pub closed : Bool

unfoldable pub offer : Task → Queue → ℤ × Queue
offer t q =
    if length q.items == q.bound
    then (threadpool_queue_full, q)
    else if q.closed
    then (threadpool_shutdown, q)
    else (pos 0, record q { items = q.items ++ (t ∷ []) })

abbrev poll_items : List Task → Queue → Turn × Queue
poll_items [] q = (wait, q)
poll_items (t ∷ ts) q = (run t, record q { items = ts })

unfoldable pub poll : Queue → Turn × Queue
poll q = if q.closed then (leave, q) else poll_items q.items q

-- The tasks in the ring, oldest first.
abbrev pub contents : Pool → List Task
contents p = held p.work_queue p.queue_size p.curr p.work_count

abbrev pub view : Pool → Queue
view p = record { items = contents p; bound = p.queue_size; closed = p.shutdown }

pub length-contents : (p : Pool) → length (contents p) ≡ p.work_count
length-contents p = length-tabulate p.work_count _

pub contents-pushed :
    (args func : Option ℕ) {p : Pool}
    → IsValid p
    → p.work_count < p.queue_size
    → contents (pushed args func p) ≡ contents p ++ (record { fun = func; args = args } ∷ [])
contents-pushed args func {p} v room =
    ap₂ (λ i n. held (set work_queue i (record { fun = func; args = args })) queue_size curr n)
      v.tail_at one_more
    ∙ held-set_end work_queue queue_size curr work_count (record { fun = func; args = args }) v.fits
        v.curr_in room
  where
    open p use {work_queue, queue_size, curr, work_count}

    one_more : work_count + 1 ≡ suc work_count
    one_more = omega arith

-- The ring holds the task at `curr_`, then what is left when that is taken out.
pub contents-popped :
    {p : Pool}
    → IsValid p
    → 0 < p.work_count
    → contents p ≡ get_or p.work_queue p.curr no_task ∷ contents (popped p)
contents-popped {p} v some_task =
    ap (held work_queue queue_size curr) one_less
    ∙ ap₂ ◌∷◌ (ap (λ i. get_or work_queue i no_task) at_curr) (
        sym (
          held-set_start work_queue queue_size curr (work_count - 1) no_task v.curr_in
            (omega arith)))
  where
    open p use {work_queue, queue_size, curr, work_count}

    one_less : work_count ≡ suc (work_count - 1)
    one_less = omega arith

    at_curr : slot queue_size curr 0 ≡ curr
    at_curr = ap (λ t. t % queue_size) (omega arith) ∙ mod-eq_of_lt v.curr_in

pub contents_empty : (p : Pool) → p.work_count ≡ 0 → contents p ≡ []
contents_empty p e = ap (held p.work_queue p.queue_size p.curr) e

-- What `submit` reports of the queue's own answer: a pthread call that fails hides it.
abbrev pub report : SubmitCalls → ℤ → ℤ
report calls (pos n) = if calls.signal && calls.unlock then pos n else threadpool_lock_failure
report calls (negsuc n) = if calls.unlock then negsuc n else threadpool_lock_failure

pub submit_error-view :
    (calls : SubmitCalls) (args func : Option ℕ) (p : Pool)
    → calls.lock ≡ true
    → submit_error calls p ≡ report calls (offer (record { fun = func; args = args }) (view p)).0
unfolding offer
submit_error-view calls args func p lock = ground (arith, length-contents p)

pub view-submitted :
    (calls : SubmitCalls) (args func : Option ℕ) {p : Pool}
    → IsValid p
    → calls.lock ≡ true
    → view (submitted calls args func p) ≡ (offer (record { fun = func; args = args }) (view p)).1
unfolding offer
view-submitted calls args func {p} v lock =
    ground (arith, length-contents p, contents-pushed args func v)

-- With its lock taken, `submit` returns on every valid pool, leaves it valid, and does to the ring
-- what `offer` does to the queue: the task goes to the end unless the queue is full or closed. It
-- reports the answer of `offer`, or a failure of the signal or of the unlocking, and the lock is
-- held afterwards exactly if the unlocking failed.
pub submit_refines :
    (calls : SubmitCalls) (args func : Option ℕ) {p : Pool}
    → IsValid p
    → calls.lock ≡ true
    → (r : ℤ × Pool) × (submit calls args func p ≡ some r)
      × IsValid r.1
      × (view r.1 ≡ (offer (record { fun = func; args = args }) (view p)).1)
      × (r.0 ≡ report calls (offer (record { fun = func; args = args }) (view p)).0)
      × (r.1.locked ≡ not calls.unlock)
submit_refines calls args func {p} v lock = (
  (submit_error calls p, submitted calls args func p),
  submit_in_range calls args func v,
  submitted-IsValid calls args func v,
  view-submitted calls args func v lock,
  submit_error-view calls args func p lock,
  ground arith,
)

pub turn_of-view : {p : Pool} → IsValid p → turn_of p ≡ (poll (view p)).0
unfolding poll
turn_of-view {p} v = ground (arith, contents_empty p, contents-popped v)

pub view-after_turn : {p : Pool} → IsValid p → view (after_turn p) ≡ (poll (view p)).1
unfolding poll
view-after_turn {p} v = ground (arith, contents_empty p, contents-popped v)

-- A worker's turn on a valid pool has no fault, leaves it valid, and does to the ring what `poll`
-- does to the queue: it leaves if the queue is closed, waits if it is empty, and else takes the
-- oldest task out and runs it.
pub worker_turn_refines :
    {p : Pool}
    → IsValid p
    → (r : Turn × Pool) × (worker_turn p ≡ some r)
      × IsValid r.1
      × (r.0 ≡ (poll (view p)).0)
      × (view r.1 ≡ (poll (view p)).1)
worker_turn_refines {p} v = (
  (turn_of p, after_turn p),
  worker_turn_in_range v,
  after_turn-IsValid v,
  turn_of-view v,
  view-after_turn v,
)
