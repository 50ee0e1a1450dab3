-- ===== src/ThreadPool/System/Threads.antt =====
-- Sums over the threads of the pool, and what an update of one of them does to such a sum.
use nonblocking_io.Common.{ℕ, Bool, if◌then◌else◌}
use nonblocking_io.ThreadPool.{Task}
use nonblocking_io.ThreadPool.System.{Pc, fresh, ready, waiting, running, exited}

-- A thread that `started_num_` counts, and one that `thread_count_` counts.
abbrev pub alive : Pc → ℕ
alive fresh = 0
alive ready = 1
alive waiting = 1
alive (running t) = 1
alive exited = 0

abbrev pub begun : Pc → ℕ
begun fresh = 0
begun ready = 1
begun waiting = 1
begun (running t) = 1
begun exited = 1

-- A thread that runs a task of the kind `q`.
abbrev pub runs : (Task → Bool) → Pc → ℕ
runs q (running t) = if q t then 1 else 0
runs q fresh = 0
runs q ready = 0
runs q waiting = 0
runs q exited = 0
