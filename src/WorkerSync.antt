-- ===== src/WorkerSync.antt =====
-- worker_sync.h: the lock, its guard and its condition, used by any number of threads.
pub mod Exclusion
pub mod Destroy
mod Tests
use nonblocking_io.Common.{
  ℕ, ◌+◌, ◌<◌, ◌≡◌, ◌≢◌, Bool, true, false, Option, none, some, update, if◌then◌else◌,
}

-- `mutex_` of a `worker_lock`: whether it is taken. Its kind is the default, which keeps no owner.
pub record Mutex : Type 0 where
  pub taken : Bool

-- `lock`; `none` is a thread that blocks.
abbrev pub lock : Mutex → Option Mutex
lock m = if m.taken then none else some (record { taken = true })

-- `unlock`, by whichever thread. (For one that does not hold the mutex, POSIX leaves the effect open;
-- glibc gives the mutex free.)
abbrev pub unlock : Mutex → Mutex
unlock m = record { taken = false }

-- Where a thread stands: without a guard; in the scope of a `worker_lockguard`; in that scope, but
-- after a call of the guard's `unlock`; in `wait` or `wait_for`; and awake there, about to take the
-- mutex again, with whether its time is over.
pub data Pc : Type 0 where
  outside : Pc
  holding : Pc
  released : Pc
  sleeping : (timed : Bool) → Pc
  woken : (timed_out : Bool) → Pc

-- `early` counts the calls of a guard's `unlock`; `timeouts` those of `wait_for` that gave true.
pub record Locks : Type 0 where
  pub mutex : Mutex
  pub pc : ℕ → Pc
  pub early : ℕ
  pub timeouts : ℕ

-- `pthread_cond_broadcast`, on one thread
abbrev pub wake_up : Pc → Pc
wake_up outside = outside
wake_up holding = holding
wake_up released = released
wake_up (sleeping timed) = woken false
wake_up (woken timed_out) = woken timed_out

pub data Step (n : ℕ) (s : Locks) : Locks → Type 0 where
  -- The guard's constructor.
  enter :
      (i : ℕ) {m : Mutex}
      → i < n
      → s.pc i ≡ outside
      → lock s.mutex ≡ some m
      → Step n s (record s { mutex = m; pc = update s.pc i holding })
  -- The guard's destructor, without and after a call of `unlock`.
  leave :
      (i : ℕ)
      → i < n
      → s.pc i ≡ holding
      → Step n s (record s { mutex = unlock s.mutex; pc = update s.pc i outside })
  leave_again :
      (i : ℕ)
      → i < n
      → s.pc i ≡ released
      → Step n s (record s { mutex = unlock s.mutex; pc = update s.pc i outside })
  -- The guard's `unlock`.
  unlock_early :
      (i : ℕ)
      → i < n
      → s.pc i ≡ holding
      → Step n s
          (record s { mutex = unlock s.mutex; pc = update s.pc i released; early = s.early + 1 })
  -- `wait`, and `wait_for`, which is timed.
  sleep :
      (i : ℕ) (timed : Bool)
      → i < n
      → s.pc i ≡ holding
      → Step n s (record s { mutex = unlock s.mutex; pc = update s.pc i (sleeping timed) })
  -- `notify_one`, or a wake-up without a reason; `notify_all`; the end of the time.
  notify_one :
      (i : ℕ) {timed : Bool}
      → i < n
      → s.pc i ≡ sleeping timed
      → Step n s (record s { pc = update s.pc i (woken false) })
  notify_all : Step n s (record s { pc = λ i. wake_up (s.pc i) })
  time_out :
      (i : ℕ)
      → i < n
      → s.pc i ≡ sleeping true
      → Step n s (record s { pc = update s.pc i (woken true) })
  -- The mutex is taken again, and the wait returns.
  resume :
      (i : ℕ) {timed_out : Bool} {m : Mutex}
      → i < n
      → s.pc i ≡ woken timed_out
      → lock s.mutex ≡ some m
      → Step n s (record s {
        mutex = m;
        pc = update s.pc i holding;
        timeouts = if timed_out then s.timeouts + 1 else s.timeouts;
      })

abbrev pub initial : Locks
initial = record { mutex = record { taken = false }; pc = λ _. outside; early = 0; timeouts = 0 }

pub data Reach (n : ℕ) : Locks → Type 0 where
  here : Reach n initial
  next : {s t : Locks} → Reach n s → Step n s t → Reach n t
