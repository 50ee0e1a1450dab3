-- ===== src/ThreadPool/System/Liveness.antt =====
-- No wake-up is lost: while the pool is open and its ring holds a task, some thread is on its way.
use mathlib.Core.Path.{subst}
use nonblocking_io.Common.{
  update, total, total-update, total-const, total-pos, le-total, ℕ, ◌^◌, ◌<◌, ◌≡◌, ◌≢◌, ◌⊎◌, inl,
  inr, refl, sym, ◌∙◌, true, false, arith,
}
use nonblocking_io.ThreadPool.{Pool, Turn, thread_start}
use nonblocking_io.ThreadPool.Invariant.{IsNew, accepts, turn_of, after_turn}
use nonblocking_io.ThreadPool.System.{
  Pc, fresh, ready, waiting, running, exited, Sys, after_pc, Woken, one, nobody, Step, start, turn,
  wake, finish, accept, refuse, shut, Reach, here, next, initial,
}
use nonblocking_io.ThreadPool.System.Invariant.{Inv}
use nonblocking_io.ThreadPool.System.Invariant.Clients.{
  submit_accepted, submit_refused, shutdown_locked_done,
}
use nonblocking_io.ThreadPool.System.Safety.{initial-Inv, turn_unique, Reach-Inv}

-- A thread that will take the lock without being woken, and one that has left.
abbrev pub awake : Pc → ℕ
awake fresh = 1
awake ready = 1
awake waiting = 0
awake (running t) = 1
awake exited = 0

abbrev gone : Pc → ℕ
gone fresh = 0
gone ready = 0
gone waiting = 0
gone (running t) = 0
gone exited = 1

-- While the pool is open no thread has left, and one is awake if there is a task.
record IsLive (n : ℕ) (p : Pool) (pc : ℕ → Pc) : Type 0 where
  no_exit : p.shutdown ≡ false → total gone n pc ≡ 0
  some_awake : p.shutdown ≡ false → (p.work_count ≡ 0) ⊎ (0 < total awake n pc)

module _ {n : ℕ} {s : Sys} (inv : Inv n s) (live : IsLive n s.pool s.pc) (i : ℕ) (lt : i < n) where
  -- Thread `i` becomes or stays ready.
  ready-IsLive :
      (p : Pool) → p.shutdown ≡ s.pool.shutdown → s.pc i ≢ exited → IsLive n p (update s.pc i ready)
  ready-IsLive p same e = record {
    no_exit = λ open_now.
        ground (arith, total-update gone n i ready s.pc lt, live.no_exit (sym same ∙ open_now));
    some_awake = λ open_now. inr (
        ground (
          arith,
          total-update awake n i ready s.pc lt,
          total-update awake n i waiting (update s.pc i ready) lt,
        ));
  }

  turn-IsLive :
      s.pc i ≡ ready → IsLive n (after_turn s.pool) (update s.pc i (after_pc (turn_of s.pool)))
  turn-IsLive e = record {
    no_exit = λ open_now. ground (
      arith,
      total-update gone n i (after_pc (turn_of s.pool)) s.pc lt,
      λ (h : s.pool.shutdown ≡ false). live.no_exit h,
    );
    some_awake = λ open_now. ground (
      arith,
      total-update awake n i (after_pc (turn_of s.pool)) s.pc lt,
      le-total awake n i s.pc lt,
    );
  }

module _ {n : ℕ} {s : Sys} (some_thread : 0 < n) (inv : Inv n s) (live : IsLive n s.pool s.pc) where
  -- A signal wakes a thread, or none waits; and none has left.
  Woken-awake :
      {pc : ℕ → Pc}
      → s.pool.shutdown ≡ false
      → Woken n s.pc pc
      → (total gone n pc ≡ 0) × (0 < total awake n pc)
  Woken-awake h (one i lt e) = (
    ground (arith, total-update gone n i ready s.pc lt, live.no_exit h),
    ground (arith, total-update awake n i ready s.pc lt),
  )
  Woken-awake h (nobody none_waits) = (
    live.no_exit h,
    ground (
      arith,
      none_waits 0 some_thread,
      le-total gone n 0 s.pc some_thread,
      le-total awake n 0 s.pc some_thread,
      live.no_exit h,
    ),
  )

accepts-open : (p : Pool) → accepts p ≡ true → p.shutdown ≡ false
accepts-open p e = ground arith

Step-IsLive :
    {n : ℕ} {s t : Sys} → 0 < n → Inv n s → Step n s t → IsLive n s.pool s.pc → IsLive n t.pool t.pc
unfolding thread_start
Step-IsLive {s = s} some_thread inv (start i lt e) live =
    ready-IsLive inv live i lt (thread_start s.pool).1 refl (ground arith)
Step-IsLive {n} {s = s} some_thread inv (turn i lt e taken) live =
    subst (λ (r : Turn × Pool). IsLive n r.1 (update s.pc i (after_pc r.0)))
      (turn_unique inv.valid taken) (turn-IsLive inv live i lt e)
Step-IsLive {s = s} some_thread inv (wake i lt e) live =
    ready-IsLive inv live i lt s.pool refl (ground arith)
Step-IsLive {s = s} some_thread inv (finish i lt e) live =
    ready-IsLive inv live i lt s.pool refl (ground arith)
Step-IsLive {s = s} some_thread inv (accept args func e w) live =
    let woken_one =
      Woken-awake some_thread inv live
        (accepts-open s.pool (submit_accepted args func inv.valid inv.free e).0) w in
    record { no_exit = λ _. woken_one.0; some_awake = λ _. inr woken_one.1 }
Step-IsLive {n} {s = s} some_thread inv (refuse args func e) live =
    subst (λ (p : Pool). IsLive n p s.pc) (sym (submit_refused args func inv.valid inv.free e)) live
Step-IsLive {s = s} some_thread inv (shut mode e) live = record {
  no_exit = λ open_now. ground (arith, shutdown_locked_done mode s.pool e);
  some_awake = λ open_now. ground (arith, shutdown_locked_done mode s.pool e);
}

Reach-IsLive :
    {n : ℕ} {s t : Sys}
    → n < 2 ^ 15
    → 0 < n
    → Inv n s
    → Reach n s t
    → IsLive n s.pool s.pc
    → IsLive n t.pool t.pc
Reach-IsLive few some_thread inv here live = live
Reach-IsLive few some_thread inv (next r st) live =
    Step-IsLive some_thread (Reach-Inv few inv r) st (Reach-IsLive few some_thread inv r live)

initial-IsLive : (n : ℕ) {p : Pool} → p.work_count ≡ 0 → IsLive n p (λ _. fresh)
initial-IsLive n e = record {
  no_exit = λ _. total-const gone n fresh refl;
  some_awake = λ _. inl e;
}

pub open-no_exit :
    (n : ℕ) {p : Pool} {s : Sys}
    → 0 < n
    → n < 2 ^ 15
    → IsNew p
    → Reach n (initial p) s
    → s.pool.shutdown ≡ false
    → (i : ℕ) → i < n
    → s.pc i ≢ exited
open-no_exit n {p} {s} some_thread few new r open_now i lt at = ground (
  arith,
  (Reach-IsLive few some_thread (initial-Inv n new) r (initial-IsLive n new.empty)).no_exit
      open_now,
  le-total gone n i s.pc lt,
  at,
)

-- From a new pool with at least one thread, whatever the interleaving: while the pool is not shut
-- down and its ring holds a task, some thread is about to start, about to take the lock or running
-- a task. So no task stays in the ring with all threads waiting for a signal.
pub no_lost_wake_up :
    (n : ℕ) {p : Pool} {s : Sys}
    → 0 < n
    → n < 2 ^ 15
    → IsNew p
    → Reach n (initial p) s
    → s.pool.shutdown ≡ false
    → 0 < s.pool.work_count
    → (i : ℕ) × (i < n) × (0 < awake (s.pc i))
no_lost_wake_up n {p} {s} some_thread few new r open_now some_task =
    total-pos awake n s.pc (ground (arith, live.some_awake open_now))
  where
    live : IsLive n s.pool s.pc
    live = Reach-IsLive few some_thread (initial-Inv n new) r (initial-IsLive n new.empty)
