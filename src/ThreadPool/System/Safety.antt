-- ===== src/ThreadPool/System/Safety.antt =====
-- What holds in every state that the threads and the clients of a pool can reach.
use mathlib.Core.Path.{subst}
use nonblocking_io.Common.{
  total, total-const, ℕ, ◌+◌, ◌^◌, ◌<◌, ◌≡◌, refl, sym, ap, Bool, false, some, ◌++◌, arith,
}
use nonblocking_io.ThreadPool.{Task, Pool, Turn, worker_turn}
use nonblocking_io.ThreadPool.Invariant.{IsValid, IsNew, turn_of, after_turn, worker_turn_in_range}
use nonblocking_io.ThreadPool.Fifo.{contents, contents_empty}
use nonblocking_io.ThreadPool.System.{
  fresh, Sys, Step, start, turn, wake, finish, accept, refuse, shut, Reach, here, next, initial,
}
use nonblocking_io.ThreadPool.System.Threads.{alive, begun, runs}
use nonblocking_io.ThreadPool.System.Invariant.{count, count-append, Inv, turned}
use nonblocking_io.ThreadPool.System.Invariant.Workers.{start-Inv, turn-Inv, wake-Inv, finish-Inv}
use nonblocking_io.ThreadPool.System.Invariant.Clients.{accept-Inv, refuse-Inv, shut-Inv}

pub initial-Inv : (n : ℕ) {p : Pool} → IsNew p → Inv n (initial p)
initial-Inv n {p} new = record {
  valid = new.valid;
  free = new.free;
  fifo = sym (contents_empty p new.empty);
  once = λ q. omega (arith, total-const (runs q) n fresh refl);
  started = omega (arith, new.none_started, total-const alive n fresh refl);
  threads = omega (arith, new.no_threads, total-const begun n fresh refl);
}

pub turn_unique :
    {p p' : Pool} {t : Turn}
    → IsValid p
    → worker_turn p ≡ some (t, p')
    → ◌≡◌ {A = Turn × Pool} (turn_of p, after_turn p) (t, p')
turn_unique v e = cc (worker_turn_in_range v)

pub Step-Inv : {n : ℕ} {s t : Sys} → n < 2 ^ 15 → Step n s t → Inv n s → Inv n t
Step-Inv few (start i lt e) inv = start-Inv few inv i lt e
Step-Inv {n} {s} few (turn i lt e taken) inv =
    subst (λ (r : Turn × Pool). Inv n (turned s i r.0 r.1)) (turn_unique inv.valid taken)
      (turn-Inv few inv i lt e)
Step-Inv few (wake i lt e) inv = wake-Inv few inv i lt e
Step-Inv few (finish i lt e) inv = finish-Inv few inv i lt e
Step-Inv few (accept args func e w) inv = accept-Inv inv args func e w
Step-Inv few (refuse args func e) inv = refuse-Inv inv args func e
Step-Inv few (shut mode e) inv = shut-Inv inv mode e

pub Reach-Inv : {n : ℕ} {s t : Sys} → n < 2 ^ 15 → Inv n s → Reach n s t → Inv n t
Reach-Inv few inv here = inv
Reach-Inv few inv (next r st) = Step-Inv few st (Reach-Inv few inv r)

-- From a new pool with `n` threads, whatever the interleaving: the tasks that `submit` accepted are,
-- in the order of acceptance, those that workers have taken, in the order of taking, and then those
-- in the ring. No task is lost, doubled or overtaken.
pub accepted-eq-taken-append-contents :
    (n : ℕ) {p : Pool} {s : Sys}
    → n < 2 ^ 15
    → IsNew p
    → Reach n (initial p) s
    → s.accepted ≡ s.taken ++ contents s.pool
accepted-eq-taken-append-contents n few new r = (Reach-Inv few (initial-Inv n new) r).fifo

-- From a new pool with `n` threads, whatever the interleaving: for every kind `q` of tasks, as many
-- tasks of it have been accepted by `submit` as are in the ring, are being run by some thread now, and
-- have been finished. So a task that is accepted is in one place at a time, and run at most once.
pub accepted_run_once :
    (n : ℕ) {p : Pool} {s : Sys} (q : Task → Bool)
    → n < 2 ^ 15
    → IsNew p
    → Reach n (initial p) s
    → count q s.accepted ≡ count q (contents s.pool) + total (runs q) n s.pc + count q s.finished
accepted_run_once n {s = s} q few new r =
    let inv = Reach-Inv few (initial-Inv n new) r in
    omega (arith, ap (count q) inv.fifo, count-append q s.taken (contents s.pool), inv.once q)

-- From a new pool with `n` threads, whatever the interleaving: the ring is valid, its lock is free
-- between the steps, `started_num_` counts the threads that have begun and not left, and
-- `thread_count_` those that have begun.
pub counters_agree :
    (n : ℕ) {p : Pool} {s : Sys}
    → n < 2 ^ 15
    → IsNew p
    → Reach n (initial p) s
    → IsValid s.pool
      × (s.pool.locked ≡ false)
      × (s.pool.started_num ≡ total alive n s.pc)
      × (s.pool.thread_count ≡ total begun n s.pc)
counters_agree n {s = s} few new r = (inv.valid, inv.free, inv.started, inv.threads)
  where
    inv : Inv n s
    inv = Reach-Inv few (initial-Inv n new) r
