-- ===== src/WorkerPool/Available/Crash.antt =====
-- The division by zero in `worker_routine` is reachable, whatever the number of workers.
use mathlib.Core.Path.{fun_ext, subst}
use native.Mathlib.Decide.{ℕ_discrete}
use nonblocking_io.Common.{
  update, total-const, ap, ℕ, zero, suc, ◌-◌, ◌≤◌, ◌<◌, ◌≡◌, refl, true, false, arith, ltb,
  if◌then◌else◌, ℤ, pos,
}
use nonblocking_io.WorkerPool.WaitTime.{wait_time-none}
use nonblocking_io.WorkerPool.Available.{
  dec_ℤ, busy, Phase, top, counted, Avail, store, lower, test, crash, Reach, here, next,
}

-- The first `k` workers have lowered the number.
abbrev first_counted : ℕ → ℕ → Phase
first_counted k j = if ltb j k then counted else top

abbrev lowered : (n k : ℕ) → Avail
lowered n k = record {
  avail = pos (n - k);
  stored = true;
  early = 0;
  crashed = false;
  pc = first_counted k;
}

first_counted-suc : (k : ℕ) → update (first_counted k) k counted ≡ first_counted (suc k)
first_counted-suc k = fun_ext λ j. ground arith

none_counted : (λ (j : ℕ). top) ≡ first_counted 0
none_counted = fun_ext λ j. ground arith

-- A state in which the number is stored, from its parts.
abbrev running : ℤ → ℕ → (ℕ → Phase) → Avail
running a early pc = record { avail = a; stored = true; early = early; crashed = false; pc = pc }

running_congr :
    {a b : ℤ} {j k : ℕ} {f g : ℕ → Phase} → a ≡ b → j ≡ k → f ≡ g → running a j f ≡ running b k g
running_congr p q r i = running (p i) (q i) (r i)

minus-suc : (n k : ℕ) → k < n → n - k ≡ suc (n - suc k)
minus-suc n k h = omega arith

dec-pos : (n k : ℕ) → k < n → dec_ℤ (pos (n - k)) ≡ pos (n - suc k)
dec-pos n k h = rw (minus-suc n k h)

lowered-Reach : (n k : ℕ) → k ≤ n → Reach n (lowered n k)
lowered-Reach n zero h =
    subst (Reach n)
      (running_congr (ap pos (omega arith)) (total-const busy n top refl) none_counted)
      (next here refl (store refl))
lowered-Reach n (suc k) h =
    subst (Reach n) (running_congr (dec-pos n k h) refl (first_counted-suc k))
      (next (lowered-Reach n k (omega arith)) refl (lower k h (ground arith)))

all_lowered : (n : ℕ) → Reach n (running (pos 0) 0 (first_counted n))
all_lowered n =
    subst (Reach n) (running_congr (ap pos (omega arith)) refl refl)
      (lowered-Reach n n (omega arith))

-- With any number of workers, all of them may lower the number before the last one tests it, with no
-- other thread at fault and the number stored in time: the process is then killed by a division by
-- zero.
all_busy_crashes : (n : ℕ) → 0 < n → (s : Avail) × Reach n s × (s.early ≡ 0) × (s.crashed ≡ true)
unfolding ℕ_discrete
all_busy_crashes n some_worker = (
  _,
  next (next (all_lowered n) refl (test 0 some_worker (ground arith))) refl
      (crash 0 some_worker refl ((wait_time-none n (pos 0) (pos 0)).1 (ground arith, refl))),
  refl,
  refl,
)
