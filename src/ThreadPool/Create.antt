-- ===== src/ThreadPool/Create.antt =====
-- `create`: the sizes it settles on, the threads it starts, and the pool it leaves.
use mathlib.Core.Path.{subst}
use native.Mathlib.Decide.{dec_lt}
use nonblocking_io.Common.{
  ℕ, zero, suc, ◌+◌, ◌%◌, ◌≤◌, ◌<◌, ◌≡◌, ◌≢◌, refl, sym, ap, ◌∙◌, false, Option, none, some, List,
  [], ◌∷◌, arith, length, get_or, set, length-set, length-resize, get_or-set_ne, ℤ, pos, negsuc,
  coerce_in, to_ℕ, ◌⊎◌, inl, inr, Option-cases, ◌↔◌,
}
use nonblocking_io.ThreadPool.{
  no_task, Pool, max_threads, max_queue, create_loop, reset_for, create,
}
use nonblocking_io.ThreadPool.Invariant.{IsNew}

-- The number of threads and of slots that `create` settles on.
abbrev pub threads_for : ℕ → ℤ → ℕ
threads_for cpu_core z = to_ℕ (coerce_in z (pos cpu_core) (pos max_threads))

abbrev pub slots_for : ℤ → ℕ
slots_for z = to_ℕ (coerce_in z (pos 1024) (pos max_queue))

coerce_in_bounds :
    (z : ℤ) (l r : ℕ)
    → l ≤ r
    → (l ≤ to_ℕ (coerce_in z (pos l) (pos r))) × (to_ℕ (coerce_in z (pos l) (pos r)) ≤ r)
unfolding coerce_in
coerce_in_bounds z l r h = ground arith

reset_for-IsNew :
    (count size : ℕ) (p : Pool)
    → 0 < size
    → size ≤ max_queue
    → p.locked ≡ false
    → IsNew (reset_for count size p)
reset_for-IsNew count size p h small free = record {
  valid = record {
    fits = omega (arith, length-resize size no_task p.work_queue);
    small = small;
    curr_in = h;
    count_in = omega arith;
    tail_at = omega arith;
  };
  free = free;
  empty = refl;
  none_started = refl;
  no_threads = refl;
}

-- One round of the loop, where thread `i` starts.
abbrev begun_thread : (cpu_core i id : ℕ) → Pool → Pool
begun_thread cpu_core i id p = record p { mask = (i % cpu_core) ∷ []; threads = set p.threads i id }

create_loop-suc :
    (cpu_core : ℕ) (spawn : ℕ → Option ℕ) (left i : ℕ) (p : Pool) {id : ℕ}
    → spawn i ≡ some id
    → create_loop cpu_core spawn (suc left) i p
      ≡ create_loop cpu_core spawn left (i + 1) (begun_thread cpu_core i id p)
unfolding create_loop
create_loop-suc cpu_core spawn left i p e = rw (e, create_loop)

create_loop_stop :
    (cpu_core : ℕ) (spawn : ℕ → Option ℕ) (left i : ℕ) (p : Pool)
    → spawn i ≡ none
    → create_loop cpu_core spawn (suc left) i p
      ≡ (negsuc 0, record p { mask = (i % cpu_core) ∷ [] })
unfolding create_loop
create_loop_stop cpu_core spawn left i p e = rw (e, create_loop)

create_loop_done :
    (cpu_core : ℕ) (spawn : ℕ → Option ℕ) (i : ℕ) (p : Pool)
    → create_loop cpu_core spawn 0 i p ≡ (pos 0, p)
unfolding create_loop
create_loop_done cpu_core spawn i p = refl

-- All of the threads `i`, …, `i + left - 1` can be started.
abbrev pub AllStart : (ℕ → Option ℕ) → (left i : ℕ) → Type 0
AllStart spawn zero i = Unit
AllStart spawn (suc left) i = ((id : ℕ) × (spawn i ≡ some id)) × AllStart spawn left (i + 1)

-- What the loop does: it writes `mask` and `threads_` alone, keeps the ids below `i`, and returns 0
-- exactly if all threads start.
record Started (spawn : ℕ → Option ℕ) (left i : ℕ) (p : Pool) (r : ℤ × Pool) : Type 0 where
  frame : r.1 ≡ record p { mask = r.1.mask; threads = r.1.threads }
  size : length r.1.threads ≡ length p.threads
  below : (k : ℕ) → k < i → get_or r.1.threads k 0 ≡ get_or p.threads k 0
  outcome :
      ((r.0 ≡ pos 0) × AllStart spawn left i)
      ⊎ (r.0 ≡ negsuc 0) × ((k : ℕ) × (k < i + left) × (spawn k ≡ none))

Started-suc :
    (cpu_core : ℕ) {spawn : ℕ → Option ℕ} {left i id : ℕ} (p : Pool) {r : ℤ × Pool}
    → spawn i ≡ some id
    → Started spawn left (i + 1) (begun_thread cpu_core i id p) r
    → Started spawn (suc left) i p r
Started-suc cpu_core {spawn} {left} {i} {id} p e st = record {
  frame = st.frame;
  size = st.size ∙ length-set p.threads i id;
  below = λ k h. st.below k (omega arith) ∙ get_or-set_ne p.threads i k id 0 (omega arith);
  outcome = elim st.outcome [
    | inl (worked, all) ↦ inl (worked, ((id, e), all))
    | inr (failed, (k, h, none_left)) ↦ inr (failed, (k, omega arith, none_left))
  ];
}

create_loop-Started :
    (cpu_core : ℕ) (spawn : ℕ → Option ℕ) (left i : ℕ) (p : Pool)
    → Started spawn left i p (create_loop cpu_core spawn left i p)
create_loop-Started cpu_core spawn zero i p =
    rw (create_loop_done cpu_core spawn i p)
      record { frame = refl; size = refl; below = λ k h. refl; outcome = inl (refl, tt) }
create_loop-Started cpu_core spawn (suc left) i p = elim (Option-cases (spawn i)) [
  | inl failed ↦ rw (create_loop_stop cpu_core spawn left i p failed) record {
    frame = refl;
    size = refl;
    below = λ k h. refl;
    outcome = inr (refl, (i, omega arith, failed));
  }
  | inr (id, e) ↦ rw (create_loop-suc cpu_core spawn left i p e) (
      Started-suc cpu_core p e
        (create_loop-Started cpu_core spawn left (i + 1) (begun_thread cpu_core i id p)))
]

frame-IsNew :
    (mask threads : List ℕ) {p : Pool}
    → IsNew p
    → IsNew (record p { mask = mask; threads = threads })
frame-IsNew mask threads new = record {
  valid = record {
    fits = new.valid.fits;
    small = new.valid.small;
    curr_in = new.valid.curr_in;
    count_in = new.valid.count_in;
    tail_at = new.valid.tail_at;
  };
  free = new.free;
  empty = new.empty;
  none_started = new.none_started;
  no_threads = new.no_threads;
}

AllStart-none :
    (spawn : ℕ → Option ℕ) (left i k : ℕ)
    → AllStart spawn left i
    → i ≤ k
    → k < i + left
    → spawn k ≢ none
AllStart-none spawn zero i k all lo hi e = omega arith
AllStart-none spawn (suc left) i k all lo hi e = elim (dec_lt i k) [
  | yes later ↦ AllStart-none spawn left (i + 1) k all.1 (omega arith) (omega arith) e
  | no here ↦ cc (all.0.1, e, ap spawn (first here))
]
  where
    first : ¬ (i < k) → k ≡ i
    first h = omega arith

module _ (cpu_core : ℕ) (spawn : ℕ → Option ℕ) (thread_count queue_size : ℤ) (p : Pool) where
  abbrev count : ℕ
  count = threads_for cpu_core thread_count

  abbrev size : ℕ
  size = slots_for queue_size

  sizes :
      cpu_core ≤ max_threads
      → (cpu_core ≤ count) × (count ≤ max_threads) × (1024 ≤ size) × (size ≤ max_queue)
  sizes cores =
      let counts = coerce_in_bounds thread_count cpu_core max_threads cores in
      let slots = coerce_in_bounds queue_size 1024 max_queue (omega arith) in
      (counts.0, counts.1, slots.0, slots.1)

  settled :
      Started spawn
        (threads_for cpu_core thread_count)
        0
        (reset_for (threads_for cpu_core thread_count) (slots_for queue_size) p)
        (create cpu_core spawn thread_count queue_size p)
  unfolding create
  settled = create_loop-Started cpu_core spawn (threads_for cpu_core thread_count) 0 _

  -- For any arguments, on a machine with at most `MAX_THREADS` processors, and whether or not the
  -- threads can be started: `create` leaves an unlocked pool unlocked, valid and empty, with its
  -- counters at 0 and its shutdown flag as it was. The ring has between 1024 and `MAX_QUEUE` slots,
  -- and there are at least as many thread slots as processors, and at most `MAX_THREADS`.
  pub create-IsNew :
      cpu_core ≤ max_threads
      → p.locked ≡ false
      → let q = (create cpu_core spawn thread_count queue_size p).1 in
        IsNew q
        × (q.shutdown ≡ p.shutdown)
        × (1024 ≤ q.queue_size)
        × (q.queue_size ≤ max_queue)
        × (cpu_core ≤ length q.threads)
        × (length q.threads ≤ max_threads)
  create-IsNew cores free = (
    subst IsNew (sym st.frame) (
        frame-IsNew _ _ (
          reset_for-IsNew count size p (omega (arith, sizes cores)) (omega (arith, sizes cores))
            free)),
    ap (λ q. q.shutdown) st.frame,
    omega (arith, sizes cores, slots),
    omega (arith, sizes cores, slots),
    omega (arith, sizes cores, st.size, length-resize count 0 p.threads),
    omega (arith, sizes cores, st.size, length-resize count 0 p.threads),
  )
    where
      st :
          Started spawn count 0
            (reset_for count size p)
            (create cpu_core spawn thread_count queue_size p)
      st = settled

      slots : (create cpu_core spawn thread_count queue_size p).1.queue_size ≡ size
      slots = ap (λ q. q.queue_size) st.frame

  -- `create` returns 0 exactly if every thread that it asks for can be started, and else -1.
  create_outcome :
      let count = threads_for cpu_core thread_count in
      let err = (create cpu_core spawn thread_count queue_size p).0 in
      ((err ≡ pos 0) ↔ AllStart spawn count 0) × ((err ≡ pos 0) ⊎ (err ≡ negsuc 0))
  create_outcome = elim settled.outcome [
    | inl (worked, all) ↦ (((λ _. all), (λ _. worked)), inl worked)
    | inr (failed, (k, h, stops)) ↦ (
      (
        (λ worked. absurd (ground arith)),
        (λ all. absurd (
            AllStart-none spawn (threads_for cpu_core thread_count) 0 k all (omega arith) h stops)),
      ),
      inr failed,
    )
  ]
