-- ===== src/Instance.antt =====
-- `instance()` of httpcode_map.h, error_map.h and thread_pool.cpp, which is the same three times, and
-- the static `shutdown` of thread_pool.cpp, called by any number of threads. The steps are the reads
-- and writes of the pointer, and what is done under the mutex.
pub mod Invariant
pub mod Once
mod Tests
use nonblocking_io.Common.{ℕ, ◌+◌, ◌<◌, ◌≡◌, Bool, true, false, Option, none, some, update}

-- Where a thread stands. In `instance`: behind the first check, with the mutex taken, behind the
-- second check, about to give the mutex back, about to return, and with what has been returned. In
-- `shutdown`: behind its first check, with the mutex taken, behind the second check, about to give
-- it back.
pub data Pc : Type 0 where
  idle : Pc
  missing : Pc
  locked : Pc
  making : Pc
  unlocking : Pc
  returning : Pc
  returned : Option ℕ → Pc
  stopping : Pc
  stop_locked : Pc
  deleting : Pc
  stop_unlocking : Pc

-- `instance_` points to the object with this number; `made` and `deleted` count the objects.
pub record Shared : Type 0 where
  pub instance_ptr : Option ℕ
  pub taken : Bool
  pub made : ℕ
  pub deleted : ℕ
  pub pc : ℕ → Pc

abbrev pub after_check : Option ℕ → Pc
after_check none = missing
after_check (some k) = returning

abbrev pub after_second : Option ℕ → Pc
after_second none = making
after_second (some k) = unlocking

abbrev pub after_stop_check : Option ℕ → Pc
after_stop_check none = idle
after_stop_check (some k) = stopping

abbrev pub after_stop_second : Option ℕ → Pc
after_stop_second none = stop_unlocking
after_stop_second (some k) = deleting

pub data Step (n : ℕ) (s : Shared) : Shared → Type 0 where
  check :
      (i : ℕ)
      → i < n
      → s.pc i ≡ idle
      → Step n s (record s { pc = update s.pc i (after_check s.instance_ptr) })
  take :
      (i : ℕ)
      → i < n
      → s.pc i ≡ missing
      → s.taken ≡ false
      → Step n s (record s { taken = true; pc = update s.pc i locked })
  check_again :
      (i : ℕ)
      → i < n
      → s.pc i ≡ locked
      → Step n s (record s { pc = update s.pc i (after_second s.instance_ptr) })
  make :
      (i : ℕ)
      → i < n
      → s.pc i ≡ making
      → Step n s
          (record s { instance_ptr = some s.made; made = s.made + 1; pc = update s.pc i unlocking })
  give :
      (i : ℕ)
      → i < n
      → s.pc i ≡ unlocking
      → Step n s (record s { taken = false; pc = update s.pc i returning })
  read :
      (i : ℕ)
      → i < n
      → s.pc i ≡ returning
      → Step n s (record s { pc = update s.pc i (returned s.instance_ptr) })
  call_again :
      (i : ℕ) {r : Option ℕ}
      → i < n
      → s.pc i ≡ returned r
      → Step n s (record s { pc = update s.pc i idle })
  stop_check :
      (i : ℕ)
      → i < n
      → s.pc i ≡ idle
      → Step n s (record s { pc = update s.pc i (after_stop_check s.instance_ptr) })
  stop_take :
      (i : ℕ)
      → i < n
      → s.pc i ≡ stopping
      → s.taken ≡ false
      → Step n s (record s { taken = true; pc = update s.pc i stop_locked })
  stop_check_again :
      (i : ℕ)
      → i < n
      → s.pc i ≡ stop_locked
      → Step n s (record s { pc = update s.pc i (after_stop_second s.instance_ptr) })
  delete :
      (i : ℕ)
      → i < n
      → s.pc i ≡ deleting
      → Step n s (record s {
        instance_ptr = none;
        deleted = s.deleted + 1;
        pc = update s.pc i stop_unlocking;
      })
  stop_give :
      (i : ℕ)
      → i < n
      → s.pc i ≡ stop_unlocking
      → Step n s (record s { taken = false; pc = update s.pc i idle })

-- No object yet, and no call.
abbrev pub initial : Shared
initial = record { instance_ptr = none; taken = false; made = 0; deleted = 0; pc = λ _. idle }

pub data Reach (n : ℕ) : Shared → Type 0 where
  here : Reach n initial
  next : {s t : Shared} → Reach n s → Step n s t → Reach n t
