-- ===== src/ThreadPool/System/Invariant.antt =====
-- What holds in every reachable state of the pool: the ring is valid and its lock free between the
-- steps, the tasks are accounted for, and the counters agree with the threads.
pub mod Workers
pub mod Clients
use nonblocking_io.Common.{
  update, total, total-update, total_same, total-le, total-const, ℕ, zero, suc, ◌+◌, ◌≤◌, ◌<◌, ◌^◌,
  ◌≡◌, refl, sym, ap, ◌∙◌, Bool, true, false, Option, none, some, List, [], ◌∷◌, ◌++◌, append_assoc,
  append-nil, arith, if◌then◌else◌, Bool-cases, ◌==◌, ℤ, pos, negsuc, inc16, dec16,
}
use nonblocking_io.ThreadPool.{
  Task, Pool, pushed, submit, Turn, wait, leave, run, worker_turn, thread_start,
}
use nonblocking_io.ThreadPool.Invariant.{
  IsValid, submit_error, submitted, submit_in_range, submitted-IsValid, turn_of, after_turn,
  worker_turn_in_range, after_turn-IsValid,
}
use nonblocking_io.ThreadPool.Fifo.{contents, contents-pushed, contents-popped}
use nonblocking_io.ThreadPool.System.{
  Pc, fresh, ready, waiting, running, exited, Sys, all_ok, after_pc, taken_by, Woken, one, nobody,
  Step, start, turn, wake, finish, accept, refuse, shut, Reach, here, next, initial,
}
use nonblocking_io.ThreadPool.System.Threads.{alive, begun, runs}

abbrev pub count : (Task → Bool) → List Task → ℕ
count q [] = 0
count q (t ∷ ts) = (if q t then 1 else 0) + count q ts

pub count-append :
    (q : Task → Bool) (xs ys : List Task) → count q (xs ++ ys) ≡ count q xs + count q ys
count-append q [] ys = omega arith
count-append q (x ∷ xs) ys = omega (arith, count-append q xs ys)

pub record Inv (n : ℕ) (s : Sys) : Type 0 where
  pub valid : IsValid s.pool
  pub free : s.pool.locked ≡ false
  pub fifo : s.accepted ≡ s.taken ++ contents s.pool
  pub once : (q : Task → Bool) → count q s.taken ≡ count q s.finished + total (runs q) n s.pc
  pub started : s.pool.started_num ≡ total alive n s.pc
  pub threads : s.pool.thread_count ≡ total begun n s.pc

abbrev pub turned : Sys → ℕ → Turn → Pool → Sys
turned s i t p = record s {
  pool = p;
  pc = update s.pc i (after_pc t);
  taken = s.taken ++ taken_by t;
}
