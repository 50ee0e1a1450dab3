-- ===== src/WorkerPool/WaitTime.antt =====
-- The timeout that `worker_routine` of tcp_worker_pool.cpp gives to `epoll_wait`.
use nonblocking_io.Common.{
  ℕ, zero, suc, ◌/◌, ◌%◌, ◌≤◌, ◌<◌, ◌≡◌, ◌↔◌, refl, false, Option, none, some, arith, if◌then◌else◌,
  ℤ, pos, negsuc, ltb_ℤ, Bool-cases, inl, inr,
}

-- `n % a` on `int`, for an `n` that is not negative: the remainder has the sign of `n`. A remainder by
-- 0 is undefined, and kills the process on x86.
abbrev pub rem_ℤ : ℕ → ℤ → Option ℤ
rem_ℤ n (pos zero) = none
rem_ℤ n (pos (suc d)) = some (pos (n % suc d))
rem_ℤ n (negsuc d) = some (pos (n % suc d))

-- `wttme == 0 ? 1 : wttme`
abbrev pub at_least_one : ℤ → ℤ
at_least_one (pos zero) = pos 1
at_least_one (pos (suc n)) = pos (suc n)
at_least_one (negsuc n) = negsuc n

abbrev pub finish_time : Option ℤ → Option ℤ
finish_time none = none
finish_time (some w) = some (at_least_one w)

-- `avail_woker_num_` is read twice: `tested` in the condition, `used` in the branch.
unfoldable pub wait_time : (worker_num : ℕ) (tested used : ℤ) → Option ℤ
wait_time worker_num tested used =
    finish_time (if ltb_ℤ (pos (worker_num / 2)) tested then some used else rem_ℤ worker_num used)

rem_ℤ_bounds : (n a : ℕ) → 0 < a → a ≤ n → (w : ℕ) × (rem_ℤ n (pos a) ≡ some (pos w)) × (w ≤ n)
rem_ℤ_bounds n zero h le = elim h [ ]
rem_ℤ_bounds n (suc d) h le = (n % suc d, refl, omega arith)

at_least_one_bounds :
    (n w : ℕ) → 0 < n → w ≤ n → (v : ℕ) × (at_least_one (pos w) ≡ pos v) × (0 < v) × (v ≤ n)
at_least_one_bounds n zero h le = (1, refl, omega arith, omega arith)
at_least_one_bounds n (suc w) h le = (suc w, refl, omega arith, omega arith)

-- With `n` workers of which between 1 and `n` are available when the number is used, whatever it was
-- when it was tested: the timeout is at least 1 millisecond and at most `n`.
pub wait_time_bounds :
    (n : ℕ) (tested : ℤ) (used : ℕ)
    → 0 < used
    → used ≤ n
    → (w : ℕ) × (wait_time n tested (pos used) ≡ some (pos w)) × (0 < w) × (w ≤ n)
unfolding wait_time
wait_time_bounds n tested used h le = elim (Bool-cases (ltb_ℤ (pos (n / 2)) tested)) [
  | inl more ↦
      let (v, e, lo, hi) = at_least_one_bounds n used (omega arith) le in (v, rw (more, e), lo, hi)
  | inr less ↦
      let (w, e, le') = rem_ℤ_bounds n used h le in
      let (v, e', lo, hi) = at_least_one_bounds n w (omega arith) le' in
      (v, rw (less, e, e'), lo, hi)
]

-- The division by zero happens exactly if no more than half of the workers were available at the
-- test, and none when the number is used.
pub wait_time-none :
    (n : ℕ) (tested used : ℤ)
    → (wait_time n tested used ≡ none) ↔ ((ltb_ℤ (pos (n / 2)) tested ≡ false) × (used ≡ pos 0))
unfolding wait_time
wait_time-none n tested used =
    ((λ e. (ground arith, ground arith)), (λ h. ground (arith, h.0, h.1)))
