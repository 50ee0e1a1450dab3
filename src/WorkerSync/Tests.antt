-- ===== src/WorkerSync/Tests.antt =====
-- Two threads and a lock, and the theorems applied.
use native.Mathlib.Decide.{ℕ_discrete}
use nonblocking_io.Common.{update, total, ◌≤◌, ◌≡◌, refl, true, arith}
use nonblocking_io.WorkerSync.{
  sleeping, woken, outside, holding, Locks, enter, sleep, time_out, resume, initial, Reach, here,
  next,
}
use nonblocking_io.WorkerSync.Destroy.{ebusy, destroy_lock, done, after, destructor_shuts_out}
use nonblocking_io.WorkerSync.Exclusion.{inside, taken_count, mutual_exclusion}

abbrev entered : Locks
entered = record initial { mutex = record { taken = true }; pc = update (λ _. outside) 0 holding }

entered-Reach : Reach 2 entered
entered-Reach = next here (enter 0 (omega arith) refl refl)

-- A wait that ends by its time.
timed_wait : (s : Locks) × Reach 2 s × (s.timeouts ≡ 1) × (s.mutex.taken ≡ true)
unfolding ℕ_discrete
timed_wait = (
  _,
  next (next (next entered-Reach (sleep 0 true (omega arith) refl)) (time_out 0 (omega arith) refl))
      (resume 0 {timed_out = true} (omega arith) refl refl),
  refl,
  refl,
)

mutual_exclusion_example :
    (total inside 2 entered.pc ≤ 1) × (total inside 2 entered.pc ≡ taken_count entered)
mutual_exclusion_example = mutual_exclusion 2 entered-Reach refl

-- Thread 1 enters and waits; thread 0 destroys the lock; thread 1 is woken.
abbrev waiting : Locks
waiting = record initial { pc = update (update (λ _. outside) 1 holding) 1 (sleeping true) }

waiting-Reach : Reach 2 waiting
unfolding ℕ_discrete
waiting-Reach = next (next here (enter 1 (omega arith) refl refl)) (sleep 1 true (omega arith) refl)

abbrev destroyed : Locks
destroyed = record waiting { mutex = record { taken = true }; pc = update waiting.pc 0 holding }

abbrev late : Locks
late = record destroyed { pc = update destroyed.pc 1 (woken true) }

destructor_shuts_out_example : (ebusy ≡ ebusy) × (true ≡ true) × (inside (late.pc 1) ≡ 0)
unfolding ℕ_discrete destroy_lock
destructor_shuts_out_example =
    destructor_shuts_out 2 0 1 {s = waiting} {t = destroyed} {u = late} {r = ebusy} (omega arith)
      (omega arith) (omega arith) waiting-Reach refl refl
      (after done (time_out 1 (omega arith) refl) refl) refl
