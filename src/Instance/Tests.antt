-- ===== src/Instance/Tests.antt =====
-- A thread that makes the object and another that finds it, and the theorems applied.
use native.Mathlib.Decide.{ℕ_discrete}
use nonblocking_io.Common.{update, ℕ, ◌≤◌, ◌<◌, ◌≡◌, refl, Option, some, arith, false}
use nonblocking_io.Instance.{
  idle, missing, locked, making, unlocking, returning, returned, Shared, check, take, check_again,
  make, give, Reach, here, next,
}
use nonblocking_io.Instance.Once.{instance_once}

abbrev found : Shared
found = record {
  instance_ptr = some 0;
  taken = false;
  made = 1;
  deleted = 0;
  pc =
      update
        (update
          (update (update (update (update (λ _. idle) 0 missing) 0 locked) 0 making) 0 unlocking) 0
          returning)
        1 returning;
}

found-Reach : Reach 2 found
unfolding ℕ_discrete
found-Reach =
    next
      (next
        (next
          (next (next (next here (check 0 (omega arith) refl)) (take 0 (omega arith) refl refl))
            (check_again 0 (omega arith) refl))
          (make 0 (omega arith) refl))
        (give 0 (omega arith) refl))
      (check 1 (omega arith) refl)

instance_once_example :
    (found.made ≤ 1) × ((i : ℕ) (r : Option ℕ) → i < 2 → found.pc i ≡ returned r → r ≡ some 0)
instance_once_example = instance_once 2 found-Reach refl
