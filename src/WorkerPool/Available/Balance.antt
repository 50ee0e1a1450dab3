-- ===== src/WorkerPool/Available/Balance.antt =====
-- What `avail_woker_num_` stands for in every reachable state.
use nonblocking_io.Common.{
  total, total-update, total-le, total-const, ℕ, ◌+◌, ◌-◌, ◌/◌, ◌≤◌, ◌<◌, ◌≡◌, ◌↔◌, refl, true,
  false, none, some, arith, if◌then◌else◌, ℤ, pos, pos_part, neg_part, ltb_ℤ,
}
use nonblocking_io.WorkerPool.WaitTime.{wait_time, wait_time_bounds, wait_time-none}
use nonblocking_io.WorkerPool.Available.{
  inc_ℤ, dec_ℤ, top, counted, tested, polling, Avail, busy, Step, store, lower, test, poll, crash,
  raise, Reach, here, next,
}

-- The number and the busy workers together make up all the workers, once that number is stored, and
-- those that were busy at the moment of the store.
record IsBalanced (n : ℕ) (s : Avail) : Type 0 where
  sum :
      pos_part s.avail + total busy n s.pc
      ≡ (if s.stored then n + s.early else 0) + neg_part s.avail
  few : s.early ≤ n

inc_parts : (a : ℤ) → pos_part (inc_ℤ a) + neg_part a ≡ pos_part a + 1 + neg_part (inc_ℤ a)
inc_parts a = ground arith

dec_parts : (a : ℤ) → pos_part (dec_ℤ a) + 1 + neg_part a ≡ pos_part a + neg_part (dec_ℤ a)
dec_parts a = ground arith

Step-IsBalanced : {n : ℕ} {s t : Avail} → Step n s t → IsBalanced n s → IsBalanced n t
Step-IsBalanced {n} {s} (store e) b = record {
  sum = omega arith;
  few = total-le busy (λ c. ground arith) n s.pc;
}
Step-IsBalanced {n} {s} (lower i lt e) b =
    ground (arith, total-update busy n i counted s.pc lt, dec_parts s.avail)
Step-IsBalanced {n} {s} (test i lt e) b =
    ground (arith, total-update busy n i (tested s.avail) s.pc lt)
Step-IsBalanced {n} {s} (poll i {w = w} lt e waits) b =
    ground (arith, total-update busy n i (polling w) s.pc lt)
Step-IsBalanced (crash i lt e dies) b = record { sum = b.sum; few = b.few }
Step-IsBalanced {n} {s} (raise i lt e) b =
    ground (arith, total-update busy n i top s.pc lt, inc_parts s.avail)

Reach-IsBalanced : {n : ℕ} {s : Avail} → Reach n s → IsBalanced n s
Reach-IsBalanced {n} here = record {
  sum = omega (arith, total-const busy n top refl);
  few = omega arith;
}
Reach-IsBalanced (next r alive st) = Step-IsBalanced st (Reach-IsBalanced r)

pos_of_parts : (a : ℤ) (m : ℕ) → pos_part a ≡ m + neg_part a → a ≡ pos m
pos_of_parts a m h = ground arith

-- In every reachable state, once `startup` has stored the number of workers: if `k` workers were busy
-- at the moment of the store, it is `n + k` less the number of workers that are busy now. So the
-- count is right if `k` is 0, and stays too large by `k` for ever if it is not.
pub avail_counts_idle :
    (n : ℕ) {s : Avail}
    → Reach n s
    → s.stored ≡ true
    → s.avail ≡ pos (n + s.early - total busy n s.pc)
avail_counts_idle n {s} r stored =
    pos_of_parts s.avail (n + s.early - total busy n s.pc)
      (ground (arith, (Reach-IsBalanced r).sum, total-le busy (λ c. ground arith) n s.pc))

module _ (n : ℕ) {s : Avail} (r : Reach n s) (stored : s.stored ≡ true)
    (on_time : s.early ≡ 0) where
  avail-eq : s.avail ≡ pos (n - total busy n s.pc)
  avail-eq = ground (arith, avail_counts_idle n r stored)

  -- In every reachable state in which the number of workers has been stored, at a moment when no
  -- worker was busy: while some worker is not busy, a worker that has made its test, with whatever
  -- value, gets a timeout between 1 and `n` milliseconds.
  pub timeout_in_range :
      (a : ℤ)
      → total busy n s.pc < n
      → (w : ℕ) × (wait_time n a s.avail ≡ some (pos w)) × (0 < w) × (w ≤ n)
  timeout_in_range a some_idle =
      rw avail-eq (wait_time_bounds n a (n - total busy n s.pc) (omega arith) (omega arith))

  -- In every reachable state in which the number of workers has been stored, at a moment when no
  -- worker was busy: the division by zero happens exactly if every worker is busy, and the value that
  -- the worker read at its test was not above `n / 2`.
  pub crash_iff_all_busy :
      (a : ℤ)
      → (wait_time n a s.avail ≡ none) ↔ ((ltb_ℤ (pos (n / 2)) a ≡ false) × (total busy n s.pc ≡ n))
  crash_iff_all_busy a = (
    (λ e.
        let (low, none_left) = (wait_time-none n a s.avail).0 e in
        (low, ground (arith, avail-eq, none_left, total-le busy (λ c. ground arith) n s.pc))),
    (λ h. (wait_time-none n a s.avail).1 (h.0, ground (arith, avail-eq, h.1))),
  )
