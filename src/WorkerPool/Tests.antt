-- ===== src/WorkerPool/Tests.antt =====
-- The worker pool on small inputs, and the theorems applied.
use native.Mathlib.Decide.{ℕ_discrete}
use nonblocking_io.Common.{
  update, total, ℕ, ◌+◌, ◌-◌, ◌/◌, ◌≤◌, ◌<◌, ◌≡◌, ◌↔◌, refl, true, false, none, some, List, [], ◌∷◌,
  ◌++◌, arith, length, length-replicate, ltb_ℤ, pos, negsuc,
}
use nonblocking_io.WorkerPool.Samples.{empty_buf}
use nonblocking_io.WorkerPool.WaitTime.{wait_time}
use nonblocking_io.WorkerPool.Available.{
  top, counted, tested, Avail, busy, store, lower, test, Reach, here, next,
}
use nonblocking_io.WorkerPool.Available.Balance.{
  avail_counts_idle, timeout_in_range, crash_iff_all_busy,
}
use nonblocking_io.WorkerPool.Reply.{bufsiz}
use Prim.Native.Nat.{bit_or}
use nonblocking_io.Common.{◌++◌, ℤ}
use nonblocking_io.Epoll.{Event, epollin, epollhup}
use nonblocking_io.WorkerPool.Callback.{Written, callback}
use nonblocking_io.WorkerPool.Callback.Answers.{texts, expected, callback_answers}

wait_times :
    (wait_time 8 (pos 7) (pos 7) ≡ some (pos 7))
    × (wait_time 8 (pos 3) (pos 3) ≡ some (pos 2))
    × (wait_time 8 (pos 2) (pos 2) ≡ some (pos 1))
    × (wait_time 8 (pos 0) (pos 0) ≡ none)
    × (wait_time 8 (negsuc 0) (negsuc 0) ≡ some (pos 1))
unfolding wait_time
wait_times = (refl, refl, refl, refl, refl)

-- Two workers; the number has been stored, and worker 0 has lowered and tested it.
abbrev tested_avail : Avail
tested_avail = record {
  avail = pos 1;
  stored = true;
  early = 0;
  crashed = false;
  pc = update (update (λ _. top) 0 counted) 0 (tested (pos 1));
}

tested_Reach : Reach 2 tested_avail
unfolding total ℕ_discrete
tested_Reach =
    next (next (next here refl (store refl)) refl (lower 0 (omega arith) refl)) refl
      (test 0 (omega arith) refl)

avail_counts_idle_example : tested_avail.avail ≡ pos (2 + 0 - total busy 2 tested_avail.pc)
avail_counts_idle_example = avail_counts_idle 2 tested_Reach refl

timeout_in_range_example :
    (w : ℕ) × (wait_time 2 (pos 1) tested_avail.avail ≡ some (pos w)) × (0 < w) × (w ≤ 2)
unfolding total ℕ_discrete
timeout_in_range_example = timeout_in_range 2 tested_Reach refl refl (pos 1) (omega arith)

crash_iff_all_busy_example :
    (wait_time 2 (pos 1) tested_avail.avail ≡ none)
    ↔ ((ltb_ℤ (pos (2 / 2)) (pos 1) ≡ false) × (total busy 2 tested_avail.pc ≡ 2))
crash_iff_all_busy_example = crash_iff_all_busy 2 tested_Reach refl refl (pos 1)

-- A read that gives bytes, one that finds the end and a hang-up, and one that fails.
abbrev batch : List (Event × ℤ)
batch =
    (record { fd = 5; events = epollin }, pos 100)
    ∷ (record { fd = 6; events = bit_or epollin epollhup }, pos 0)
    ∷ (record { fd = 7; events = epollin }, negsuc 0)
    ∷ []

callback_answers_example :
    (t : Written) × (callback batch (record { buf = empty_buf; out = [] }) ≡ some t)
    × (length t.buf ≡ bufsiz)
    × (texts t.out ≡ texts [] ++ expected batch)
callback_answers_example =
    callback_answers batch (record { buf = empty_buf; out = [] })
      (length-replicate {A = ℕ} bufsiz 0)
