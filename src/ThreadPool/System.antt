-- ===== src/ThreadPool/System.antt =====
-- `create`d workers and the clients of one pool, interleaved in any order. A step is a section that
-- runs with `lock_` held, the start of a thread, the end of a task, or the wake-up of a waiting
-- thread. The pthread calls succeed: `pthread_cond_signal` wakes a waiting thread if there is one,
-- `pthread_cond_broadcast` wakes them all, and any waiting thread may wake by itself.
pub mod Threads
pub mod Invariant
pub mod Safety
pub mod Liveness
pub mod Stopping
pub mod Draining
use nonblocking_io.Common.{
  update, ℕ, zero, suc, ◌+◌, ◌<◌, ◌≡◌, ◌≢◌, Bool, true, false, Option, none, some, List, [], ◌∷◌,
  ◌++◌, ℤ, pos, negsuc,
}
use nonblocking_io.ThreadPool.{
  Task, Pool, ShutdownMode, SubmitCalls, submit, Turn, wait, leave, run, worker_turn, thread_start,
}
use nonblocking_io.ThreadPool.Shutdown.{ShutdownCalls, shutdown_locked}

-- Where a thread of the pool stands: before `thread_routine`, about to take the lock, in
-- `pthread_cond_wait`, running a task, or behind its loop.
pub data Pc : Type 0 where
  fresh : Pc
  ready : Pc
  waiting : Pc
  running : Task → Pc
  exited : Pc

-- The pool, its threads, and what has happened to tasks: `accepted` by `submit`, `taken` by a
-- worker, and `finished`, each in the order of the events.
pub record Sys : Type 0 where
  pub pool : Pool
  pub pc : ℕ → Pc
  pub accepted : List Task
  pub taken : List Task
  pub finished : List Task

abbrev pub all_ok : SubmitCalls
all_ok = record { lock = true; signal = true; unlock = true }

abbrev pub all_ok_shutdown : ShutdownCalls
all_ok_shutdown = record { lock = true; broadcast = true; unlock = true; join = λ _. true }

-- Where a worker stands after a turn, and the tasks that the turn takes.
abbrev pub after_pc : Turn → Pc
after_pc wait = waiting
after_pc leave = exited
after_pc (run t) = running t

abbrev pub taken_by : Turn → List Task
taken_by wait = []
taken_by leave = []
taken_by (run t) = t ∷ []

-- A task that `submit` answers with 0 has been accepted.
abbrev pub accepted_by : ℤ → Task → List Task
accepted_by (pos n) t = t ∷ []
accepted_by (negsuc n) t = []

abbrev pub woken : Pc → Pc
woken fresh = fresh
woken ready = ready
woken waiting = ready
woken (running t) = running t
woken exited = exited

-- The thread that `pthread_cond_signal` wakes: a waiting one, or none if none waits.
pub data Woken (n : ℕ) (pc : ℕ → Pc) : (ℕ → Pc) → Type 0 where
  one : (i : ℕ) → i < n → pc i ≡ waiting → Woken n pc (update pc i ready)
  nobody : ((i : ℕ) → i < n → pc i ≢ waiting) → Woken n pc pc

pub data Step (n : ℕ) (s : Sys) : Sys → Type 0 where
  start :
      (i : ℕ)
      → i < n
      → s.pc i ≡ fresh
      → Step n s (record s { pool = (thread_start s.pool).1; pc = update s.pc i ready })
  turn :
      (i : ℕ) {t : Turn} {p : Pool}
      → i < n
      → s.pc i ≡ ready
      → worker_turn s.pool ≡ some (t, p)
      → Step n s
          (record s { pool = p; pc = update s.pc i (after_pc t); taken = s.taken ++ taken_by t })
  wake : (i : ℕ) → i < n → s.pc i ≡ waiting → Step n s (record s { pc = update s.pc i ready })
  finish :
      (i : ℕ) {t : Task}
      → i < n
      → s.pc i ≡ running t
      → Step n s (record s { pc = update s.pc i ready; finished = s.finished ++ (t ∷ []) })
  accept :
      (args func : Option ℕ) {k : ℕ} {p : Pool} {pc : ℕ → Pc}
      → submit all_ok args func s.pool ≡ some (pos k, p)
      → Woken n s.pc pc
      → Step n s (record s {
        pool = p;
        pc = pc;
        accepted = s.accepted ++ (record { fun = func; args = args } ∷ []);
      })
  refuse :
      (args func : Option ℕ) {k : ℕ} {p : Pool}
      → submit all_ok args func s.pool ≡ some (negsuc k, p)
      → Step n s (record s { pool = p })
  shut :
      (mode : ShutdownMode) {k : ℕ} {p : Pool}
      → shutdown_locked all_ok_shutdown mode (record s.pool { locked = true }) ≡ (pos k, p)
      → Step n s (record s { pool = p; pc = λ i. woken (s.pc i) })

-- The state in which `create` leaves a pool: no thread has run yet.
abbrev pub initial : Pool → Sys
initial p = record { pool = p; pc = λ _. fresh; accepted = []; taken = []; finished = [] }

pub data Reach (n : ℕ) (s : Sys) : Sys → Type 0 where
  here : Reach n s s
  next : {t u : Sys} → Reach n s t → Step n t u → Reach n s u
