-- ===== src/ThreadPool/View.antt =====
-- The pool without its representation: `work_queue`, `curr_` and `tail_` are forgotten but for the
-- tasks that they hold, in order; all other fields stay.
use mathlib.Core.HLevel.{Σ_prop_path}
use mathlib.Core.Equiv.{IsEquiv, Iso, iso_to_equiv}
use mathlib.Core.Quot
use mathlib.Core.Quot.{Quot, Quot-set}
use native.Mathlib.Bridge.{le_prop}
use native.Mathlib.Nat.{ℕ_set, zero-mod}
use nonblocking_io.Common.{
  ℕ, ◌+◌, ◌≤◌, ◌<◌, ◌≡◌, refl, ap, ap₂, ◌∙◌, sym, Option, some, List, [], ◌∷◌, ◌++◌, append_assoc,
  append-nil, arith, length, resize, length-resize, ℤ,
}
use nonblocking_io.ThreadPool.{
  submit, worker_turn, Task, no_task, Pool, max_queue, pushed, Turn, SubmitCalls,
}
use nonblocking_io.ThreadPool.Invariant.{
  IsValid, pushed-IsValid, submit_error, submitted, submitted-IsValid, submit_in_range,
  worker_turn_in_range, turn_of, after_turn, after_turn-IsValid,
}
use nonblocking_io.ThreadPool.Fifo.{Queue, contents, view, contents-pushed, length-contents}
use nonblocking_io.ThreadPool.QueuePool.{
  QueuePool, without_ring, poll_pool, offer_pool, turn-poll, submit-offer,
}

abbrev pub ValidPool : Type 0
ValidPool = (p : Pool) × IsValid p

abbrev pub SameView : ValidPool → ValidPool → Type 0
SameView a b = without_ring a.0 ≡ without_ring b.0

abbrev pub PoolView : Type 0
PoolView = Quot SameView

-- The queues that fit into the ring of a pool.
abbrev pub IsBounded : Queue → Type 0
IsBounded q = (0 < q.bound) × (q.bound ≤ max_queue) × (length q.items ≤ q.bound)

abbrev pub BoundedPool : Type 0
BoundedPool = (s : QueuePool) × IsBounded s.queue

pub IsBounded-prop : (s : QueuePool) → IsProp (IsBounded s.queue)
IsBounded-prop s = hlevel le_prop

pub QueuePool-set : IsSet QueuePool
QueuePool-set = hlevel ℕ_set

pub BoundedPool-set : IsSet BoundedPool
BoundedPool-set = hlevel (QueuePool-set, le_prop)

pub view-IsBounded : {p : Pool} → IsValid p → IsBounded (view p)
view-IsBounded {p} v = (omega arith, v.small, rw (length-contents p) v.count_in)

-- The pool with a queue that a pool stands for.
unfoldable pub queue_pool_of : PoolView → BoundedPool
queue_pool_of =
    Quot.lift BoundedPool-set (λ a. (without_ring a.0, view-IsBounded a.1))
      (λ a b h. Σ_prop_path IsBounded-prop h)

-- One pool for each: a new ring, into which the tasks are put one after another.
abbrev empty_ring : QueuePool → Pool
empty_ring s = record {
  locked = s.locked;
  destroyed = s.destroyed;
  threads = s.threads;
  work_queue = resize s.queue.bound no_task [];
  thread_count = s.thread_count;
  queue_size = s.queue.bound;
  curr = 0;
  tail = 0;
  work_count = 0;
  shutdown = s.queue.closed;
  shutdown_mode = s.shutdown_mode;
  started_num = s.started_num;
  mask = s.mask;
}

abbrev fill : List Task → Pool → Pool
fill [] p = p
fill (t ∷ ts) p = fill ts (pushed t.args t.fun p)

empty_ring-IsValid :
    (s : QueuePool) → 0 < s.queue.bound → s.queue.bound ≤ max_queue → IsValid (empty_ring s)
empty_ring-IsValid s room small = record {
  fits = omega (arith, length-resize s.queue.bound no_task []);
  small = small;
  curr_in = room;
  count_in = omega arith;
  tail_at = sym (zero-mod s.queue.bound);
}

abbrev with_items : List Task → QueuePool → QueuePool
with_items xs s = record s { queue = record s.queue { items = xs } }

without_ring-fill :
    (ts : List Task) (p : Pool)
    → IsValid p
    → p.work_count + length ts ≤ p.queue_size
    → IsValid (fill ts p)
      × (without_ring (fill ts p) ≡ with_items (contents p ++ ts) (without_ring p))
without_ring-fill [] p v room =
    (v, ap (λ xs. with_items xs (without_ring p)) (sym (append-nil (contents p))))
without_ring-fill (t ∷ ts) p v room =
    let (valid, same) =
      without_ring-fill ts (pushed t.args t.fun p) (pushed-IsValid t.args t.fun v (omega arith))
        (omega arith) in
    (
      valid,
      same
          ∙ ap (λ xs. with_items xs (without_ring p))
              (ap (λ xs. xs ++ ts) (contents-pushed t.args t.fun v (omega arith))
                ∙ append_assoc (contents p) (t ∷ []) ts),
    )

pool_of : (s : BoundedPool) → (a : ValidPool) × (without_ring a.0 ≡ s.0)
pool_of (s, (room, small, fits)) =
    let (valid, same) =
      without_ring-fill s.queue.items (empty_ring s) (empty_ring-IsValid s room small)
        (omega (arith, fits)) in
    ((fill s.queue.items (empty_ring s), valid), same)

pools_and_queues : Iso PoolView BoundedPool
unfolding queue_pool_of
pools_and_queues = record {
  fun = queue_pool_of;
  inv = λ s. Quot.mk (pool_of s).0;
  rinv = λ s. Σ_prop_path IsBounded-prop (pool_of s).1;
  linv =
      Quot.ind (λ x. Quot-set _ _)
        (λ a. Quot.sound (pool_of (without_ring a.0, view-IsBounded a.1)).1);
}

pub Turn-set : IsSet Turn
Turn-set = hlevel ℕ_set

-- A worker's turn, and a submit, on what is left of the pool.
unfoldable pub turn : PoolView → Turn × PoolView
turn =
    Quot.lift (hlevel (Turn-set, Quot-set))
      (λ a. (turn_of a.0, Quot.mk (after_turn a.0, after_turn-IsValid a.1)))
      (λ a b h.
        let same = turn-poll a.1 ∙ ap poll_pool h ∙ sym (turn-poll b.1) in
        ap₂ (λ x y. (x, y)) (ap (λ (x : Turn × QueuePool). x.0) same)
          (Quot.sound (ap (λ (x : Turn × QueuePool). x.1) same)))

unfoldable pub put : SubmitCalls → (args func : Option ℕ) → PoolView → ℤ × PoolView
put calls args func =
    Quot.lift (hlevel (ℕ_set, Quot-set))
      (λ a. (
        submit_error calls a.0,
        Quot.mk (submitted calls args func a.0, submitted-IsValid calls args func a.1),
      ))
      (λ a b h.
        let same =
          submit-offer calls args func a.1
          ∙ ap (offer_pool calls (record { fun = func; args = args })) h
          ∙ sym (submit-offer calls args func b.1) in
        ap₂ (λ x y. (x, y)) (ap (λ (x : ℤ × QueuePool). x.0) same)
          (Quot.sound (ap (λ (x : ℤ × QueuePool). x.1) same)))

-- Valid pools up to how their ring holds the tasks, with all other fields kept, are just the pools
-- with a bounded queue in the ring's place: each of those is that of exactly one of them. On these,
-- `turn` and `put` are well defined; of a valid pool they say what `worker_turn` and a `submit`,
-- whatever its pthread calls return, give and leave. They are the queue's `poll`, with one less in
-- `started_num_` if the pool is closed, and the queue's `offer`, with the lock held afterwards if the
-- unlocking fails, and nothing done if the locking fails.
pub pools_are_queues :
    (calls : SubmitCalls) (args func : Option ℕ) (p : Pool) (v : IsValid p)
    → IsEquiv queue_pool_of
      × ((r : Turn × ValidPool) × (worker_turn p ≡ some (r.0, r.1.0))
          × (turn (Quot.mk (p, v)) ≡ (r.0, Quot.mk r.1))
          × ((r.0, (queue_pool_of (Quot.mk r.1)).0) ≡ poll_pool (queue_pool_of (Quot.mk (p, v))).0))
      × ((r : ℤ × ValidPool) × (submit calls args func p ≡ some (r.0, r.1.0))
          × (put calls args func (Quot.mk (p, v)) ≡ (r.0, Quot.mk r.1))
          × ((r.0, (queue_pool_of (Quot.mk r.1)).0)
              ≡ offer_pool calls
                  (record { fun = func; args = args })
                  (queue_pool_of (Quot.mk (p, v))).0))
unfolding queue_pool_of turn put pools_and_queues
pools_are_queues calls args func p v = (
  (iso_to_equiv pools_and_queues).1,
  ((turn_of p, (after_turn p, after_turn-IsValid v)), worker_turn_in_range v, refl, turn-poll v),
  (
    (submit_error calls p, (submitted calls args func p, submitted-IsValid calls args func v)),
    submit_in_range calls args func v,
    refl,
    submit-offer calls args func v,
  ),
)
