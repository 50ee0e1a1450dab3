-- ===== src/ThreadPool/System/Draining.antt =====
-- After `shutdown_interval` has marked the pool: its threads all leave, and it can be freed.
use native.Mathlib.Decide.{dec_lt}
use nonblocking_io.Common.{
  update, total, total-update, total-pos, le-total, total_mono, ℕ, zero, suc, ◌^◌, ◌≤◌, ◌<◌, ◌≡◌,
  refl, true, arith, pos,
}
use nonblocking_io.ThreadPool.{Pool}
use nonblocking_io.ThreadPool.Invariant.{IsNew, turn_of, worker_turn_in_range}
use nonblocking_io.ThreadPool.Shutdown.{free_resource}
use nonblocking_io.ThreadPool.System.{
  Pc, fresh, ready, waiting, running, exited, Sys, after_pc, Step, start, turn, wake, finish, Reach,
  here, next, initial,
}
use nonblocking_io.ThreadPool.System.Threads.{alive}
use nonblocking_io.ThreadPool.System.Invariant.{Inv}
use nonblocking_io.ThreadPool.System.Safety.{initial-Inv, Step-Inv, Reach-Inv}
use nonblocking_io.ThreadPool.System.Stopping.{Reach-Keeps}

-- The steps that a thread still takes in a pool that is shut down, at most.
abbrev pub left : Pc → ℕ
left fresh = 2
left ready = 1
left waiting = 2
left (running t) = 2
left exited = 0

module _ {n : ℕ} {s : Sys} (inv : Inv n s) (stop : s.pool.shutdown ≡ true) where
  turn-left :
      (i : ℕ)
      → i < n
      → s.pc i ≡ ready
      → total left n (update s.pc i (after_pc (turn_of s.pool))) < total left n s.pc
  turn-left i lt e = ground (arith, total-update left n i (after_pc (turn_of s.pool)) s.pc lt)

  thread-Step :
      (i : ℕ) (c : Pc)
      → i < n
      → s.pc i ≡ c
      → 0 < left c
      → (t : Sys) × Step n s t × (total left n t.pc < total left n s.pc)
  thread-Step i fresh lt e h =
      (_, start i lt e, ground (arith, total-update left n i ready s.pc lt))
  thread-Step i ready lt e h = (_, turn i lt e (worker_turn_in_range inv.valid), turn-left i lt e)
  thread-Step i waiting lt e h =
      (_, wake i lt e, ground (arith, total-update left n i ready s.pc lt))
  thread-Step i (running t) lt e h =
      (_, finish i lt e, ground (arith, total-update left n i ready s.pc lt))
  thread-Step i exited lt e h = elim h [ ]

Step-Reach : {n : ℕ} {s t u : Sys} → Step n s t → Reach n t u → Reach n s u
Step-Reach st here = next here st
Step-Reach st (next r last) = next (Step-Reach st r) last

drain :
    {n : ℕ} (few : n < 2 ^ 15) (k : ℕ) {s : Sys}
    → Inv n s
    → s.pool.shutdown ≡ true
    → total left n s.pc ≤ k
    → (t : Sys) × Reach n s t × Inv n t × (total left n t.pc ≡ 0)
drain few zero {s} inv stop h = (s, here, inv, omega arith)
drain {n} few (suc k) {s} inv stop h = elim (dec_lt 0 (total left n s.pc)) [
  | yes some_left ↦
      let (i, lt, more) = total-pos left n s.pc some_left in
      let (t, st, less) = thread-Step inv stop i (s.pc i) lt refl more in
      let kept = Reach-Keeps few inv stop (next here st) in
      let (u, r, inv', done) = drain few k (Step-Inv few st inv) kept.shutdown (omega arith) in
      (u, Step-Reach st r, inv', done)
  | no none_left ↦ (s, here, inv, omega arith)
]

left_none : {n : ℕ} (pc : ℕ → Pc) → total left n pc ≡ 0 → (i : ℕ) → i < n → pc i ≡ exited
left_none {n} pc none_left i lt = ground (arith, le-total left n i pc lt)

freed : (p : Pool) → p.started_num ≡ 0 → (free_resource p).0 ≡ pos 0
unfolding free_resource
freed p e = ground arith

-- From a new pool, whatever the interleaving: once the pool is shut down, a state can be reached in
-- which every thread has left its loop, `started_num_` is 0, and `free_resource` succeeds.
pub shutdown_can_finish :
    (n : ℕ) {p : Pool} {s : Sys}
    → n < 2 ^ 15
    → IsNew p
    → Reach n (initial p) s
    → s.pool.shutdown ≡ true
    → (t : Sys) × Reach n s t
      × ((i : ℕ) → i < n → t.pc i ≡ exited)
      × (t.pool.started_num ≡ 0)
      × ((free_resource t.pool).0 ≡ pos 0)
shutdown_can_finish n {s = s} few new r stop =
    let (t, r', inv, done) =
      drain few (total left n s.pc) (Reach-Inv few (initial-Inv n new) r) stop (omega arith) in
    let stopped : t.pool.started_num ≡ 0 =
      omega (arith, inv.started, total_mono alive left (λ c. ground arith) n t.pc) in
    (t, r', left_none t.pc done, stopped, freed t.pool stopped)
