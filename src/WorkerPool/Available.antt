-- ===== src/WorkerPool/Available.antt =====
-- `avail_woker_num_` of tcp_worker_pool.cpp: `n` workers that lower it, read it, poll and raise it
-- again, and `startup`, which stores the number of workers after it has started them.
pub mod Balance
pub mod Crash
use nonblocking_io.Common.{
  update, total, ℕ, zero, suc, ◌+◌, ◌<◌, ◌≡◌, Bool, true, false, Option, none, some, ℤ, pos, negsuc,
}
use nonblocking_io.WorkerPool.WaitTime.{wait_time}

-- `++` and `--` of the atomic `int`, whose range is never left.
abbrev pub inc_ℤ : ℤ → ℤ
inc_ℤ (pos n) = pos (suc n)
inc_ℤ (negsuc zero) = pos 0
inc_ℤ (negsuc (suc n)) = negsuc n

abbrev pub dec_ℤ : ℤ → ℤ
dec_ℤ (pos zero) = negsuc 0
dec_ℤ (pos (suc n)) = pos n
dec_ℤ (negsuc n) = negsuc (suc n)

-- Where a worker stands in a round of its loop: before it lowers the number, before its test, behind
-- the test with the value that it read, and in `epoll_wait` with its timeout.
pub data Phase : Type 0 where
  top : Phase
  counted : Phase
  tested : ℤ → Phase
  polling : ℤ → Phase

-- `early` is the number of workers that were busy at the moment when `startup` stored the number: that
-- had lowered it and not yet raised it again.
pub record Avail : Type 0 where
  pub avail : ℤ
  pub stored : Bool
  pub early : ℕ
  pub crashed : Bool
  pub pc : ℕ → Phase

-- A worker between its `--` and its `++`.
abbrev pub busy : Phase → ℕ
busy top = 0
busy counted = 1
busy (tested a) = 1
busy (polling w) = 1

pub data Step (n : ℕ) (s : Avail) : Avail → Type 0 where
  store :
      s.stored ≡ false
      → Step n s (record s { avail = pos n; stored = true; early = total busy n s.pc })
  lower :
      (i : ℕ)
      → i < n
      → s.pc i ≡ top
      → Step n s (record s { avail = dec_ℤ s.avail; pc = update s.pc i counted })
  test :
      (i : ℕ)
      → i < n
      → s.pc i ≡ counted
      → Step n s (record s { pc = update s.pc i (tested s.avail) })
  poll :
      (i : ℕ) {a w : ℤ}
      → i < n
      → s.pc i ≡ tested a
      → wait_time n a s.avail ≡ some w
      → Step n s (record s { pc = update s.pc i (polling w) })
  crash :
      (i : ℕ) {a : ℤ}
      → i < n
      → s.pc i ≡ tested a
      → wait_time n a s.avail ≡ none
      → Step n s (record s { crashed = true })
  raise :
      (i : ℕ) {w : ℤ}
      → i < n
      → s.pc i ≡ polling w
      → Step n s (record s { avail = inc_ℤ s.avail; pc = update s.pc i top })

-- The pool before `startup`, and what it can come to as long as the process has not been killed.
abbrev pub initial : Avail
initial = record { avail = pos 0; stored = false; early = 0; crashed = false; pc = λ _. top }

pub data Reach (n : ℕ) : Avail → Type 0 where
  here : Reach n initial
  next : {s t : Avail} → Reach n s → s.crashed ≡ false → Step n s t → Reach n t
