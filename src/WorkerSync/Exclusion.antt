-- ===== src/WorkerSync/Exclusion.antt =====
-- How many threads are inside the scope of a guard.
use native.Mathlib.Decide.{ℕ_discrete}
use nonblocking_io.Common.{
  ap, update, total, total-update, total_same, total-const, ℕ, ◌+◌, ◌≤◌, ◌<◌, ◌≡◌, refl, Bool, true,
  false, arith, if◌then◌else◌,
}
use nonblocking_io.WorkerSync.{
  Pc, outside, holding, released, sleeping, woken, Locks, wake_up, Step, enter, leave, leave_again,
  unlock_early, sleep, notify_one, notify_all, time_out, resume, initial, Reach, here, next,
}

abbrev pub inside : Pc → ℕ
inside holding = 1
inside outside = 0
inside released = 0
inside (sleeping timed) = 0
inside (woken timed_out) = 0

-- A thread whose guard will unlock a second time.
abbrev pub owes : Pc → ℕ
owes released = 1
owes outside = 0
owes holding = 0
owes (sleeping timed) = 0
owes (woken timed_out) = 0

abbrev pub taken_count : Locks → ℕ
taken_count s = if s.mutex.taken then 1 else 0

inside-wake_up : (c : Pc) → inside (wake_up c) ≡ inside c
inside-wake_up c = ground arith

owes-wake_up : (c : Pc) → owes (wake_up c) ≡ owes c
owes-wake_up c = ground arith

-- Two facts: one for runs in which no guard has been unlocked early, one for all.
record Inv (n : ℕ) (s : Locks) : Type 0 where
  exclusive : s.early ≡ 0 → (total inside n s.pc ≡ taken_count s) × (total owes n s.pc ≡ 0)
  bounded : total inside n s.pc + total owes n s.pc ≤ taken_count s + s.early

module _ {n : ℕ} {s : Locks} (inv : Inv n s) where
  abbrev moved : ℕ → Pc → (taken : Bool) → (early timeouts : ℕ) → Locks
  moved i c taken early timeouts = record {
    mutex = record { taken = taken };
    pc = update s.pc i c;
    early = early;
    timeouts = timeouts;
  }

  -- A thread that takes the free mutex and comes in.
  in-Inv :
      (i timeouts : ℕ)
      → i < n
      → inside (s.pc i) ≡ 0
      → owes (s.pc i) ≡ 0
      → s.mutex.taken ≡ false
      → Inv n (moved i holding true s.early timeouts)
  in-Inv i timeouts lt away clean free = record {
    exclusive = λ z.
        let (e, o) = inv.exclusive z in
        ground
          (arith, total-update inside n i holding s.pc lt, total-update owes n i holding s.pc lt);
    bounded = ground (
      arith,
      inv.bounded,
      total-update inside n i holding s.pc lt,
      total-update owes n i holding s.pc lt,
    );
  }

  -- A thread that holds the mutex and goes, to a place that owes nothing.
  out-Inv :
      (i : ℕ) (c : Pc)
      → i < n
      → s.pc i ≡ holding
      → inside c ≡ 0
      → owes c ≡ 0
      → Inv n (moved i c false s.early s.timeouts)
  out-Inv i c lt at away clean = record {
    exclusive = λ z.
        let (e, o) = inv.exclusive z in
        ground (arith, total-update inside n i c s.pc lt, total-update owes n i c s.pc lt);
    bounded =
        ground
          (arith, inv.bounded, total-update inside n i c s.pc lt, total-update owes n i c s.pc lt);
  }

  -- A thread that stays where nothing is counted.
  same-Inv :
      (i timeouts : ℕ) (c : Pc)
      → i < n
      → inside (s.pc i) ≡ inside c
      → owes (s.pc i) ≡ owes c
      → Inv n (moved i c s.mutex.taken s.early timeouts)
  same-Inv i timeouts c lt same same' = record {
    exclusive = λ z.
        let (e, o) = inv.exclusive z in
        omega (arith, e, o, total-update inside n i c s.pc lt, total-update owes n i c s.pc lt);
    bounded =
        omega
          (arith, inv.bounded, total-update inside n i c s.pc lt, total-update owes n i c s.pc lt);
  }

  -- The guard's `unlock`, and then its destructor.
  early-Inv :
      (i : ℕ) → i < n → s.pc i ≡ holding → Inv n (moved i released false (s.early + 1) s.timeouts)
  early-Inv i lt at = record {
    exclusive = λ z. absurd (omega arith);
    bounded = ground (
      arith,
      inv.bounded,
      total-update inside n i released s.pc lt,
      total-update owes n i released s.pc lt,
    );
  }

  again-Inv : (i : ℕ) → i < n → s.pc i ≡ released → Inv n (moved i outside false s.early s.timeouts)
  again-Inv i lt at = record {
    exclusive = λ z.
        let (e, o) = inv.exclusive z in
        absurd (ground (arith, total-update owes n i outside s.pc lt));
    bounded = ground (
      arith,
      inv.bounded,
      total-update inside n i outside s.pc lt,
      total-update owes n i outside s.pc lt,
    );
  }

  all-Inv : Inv n (record s { pc = λ i. wake_up (s.pc i) })
  all-Inv = record {
    exclusive = λ z.
        let (e, o) = inv.exclusive z in
        omega (
          arith,
          e,
          o,
          total_same inside wake_up inside-wake_up n s.pc,
          total_same owes wake_up owes-wake_up n s.pc,
        );
    bounded = omega (
      arith,
      inv.bounded,
      total_same inside wake_up inside-wake_up n s.pc,
      total_same owes wake_up owes-wake_up n s.pc,
    );
  }

Step-Inv : {n : ℕ} {s t : Locks} → Step n s t → Inv n s → Inv n t
Step-Inv {s = s} (enter i lt at free) inv =
    ground (arith, in-Inv inv i s.timeouts lt (ap inside at) (ap owes at))
Step-Inv (leave i lt at) inv = out-Inv inv i outside lt at refl refl
Step-Inv (leave_again i lt at) inv = again-Inv inv i lt at
Step-Inv (unlock_early i lt at) inv = early-Inv inv i lt at
Step-Inv (sleep i timed lt at) inv = out-Inv inv i (sleeping timed) lt at refl refl
Step-Inv {s = s} (notify_one i lt at) inv =
    same-Inv inv i s.timeouts (woken false) lt (ap inside at) (ap owes at)
Step-Inv notify_all inv = all-Inv inv
Step-Inv {s = s} (time_out i lt at) inv =
    same-Inv inv i s.timeouts (woken true) lt (ap inside at) (ap owes at)
Step-Inv {s = s} (resume i {timed_out} lt at free) inv = ground (
  arith,
  in-Inv inv i (if timed_out then s.timeouts + 1 else s.timeouts) lt (ap inside at) (ap owes at),
)

initial-Inv : (n : ℕ) → Inv n initial
initial-Inv n = record {
  exclusive = λ z. (total-const inside n outside refl, total-const owes n outside refl);
  bounded = omega (arith, total-const inside n outside refl, total-const owes n outside refl);
}

Reach-Inv : {n : ℕ} {s : Locks} → Reach n s → Inv n s
Reach-Inv {n} here = initial-Inv n
Reach-Inv (next r st) = Step-Inv st (Reach-Inv r)

-- Whatever `n` threads do with guards, waits and notifications, as long as no guard has been unlocked
-- before the end of its scope: at most one thread is inside, and the mutex is taken exactly if one is.
pub mutual_exclusion :
    (n : ℕ) {s : Locks}
    → Reach n s
    → s.early ≡ 0
    → (total inside n s.pc ≤ 1) × (total inside n s.pc ≡ taken_count s)
mutual_exclusion n {s} r none_early =
    let (e, _) = (Reach-Inv r).exclusive none_early in (ground (arith, e), e)

-- Each call of a guard's `unlock` lets at most one thread more inside than the mutex allows.
inside-le-early : (n : ℕ) {s : Locks} → Reach n s → total inside n s.pc ≤ taken_count s + s.early
inside-le-early n r = omega (arith, (Reach-Inv r).bounded)

-- With at least two threads, one call of a guard's `unlock` is enough for two to be inside at once:
-- the guard unlocks again at the end of its scope, and frees the mutex that another thread has taken.
unlock_twice_breaks :
    (n : ℕ)
    → 1 < n
    → (s : Locks) × Reach n s × (s.early ≡ 1) × (s.pc 0 ≡ holding) × (s.pc 1 ≡ holding)
unfolding ℕ_discrete
unlock_twice_breaks n two = (
  _,
  next
      (next
        (next
          (next (next here (enter 0 (omega arith) refl refl)) (unlock_early 0 (omega arith) refl))
          (enter 1 two refl refl))
        (leave_again 0 (omega arith) refl))
      (enter 0 (omega arith) refl refl),
  refl,
  refl,
  refl,
)
