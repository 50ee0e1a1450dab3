-- ===== src/ThreadPool/System/Stopping.antt =====
-- After `shutdown_interval` has marked the pool: what becomes of its tasks.
use mathlib.Core.Path.{subst}
use nonblocking_io.Common.{ℕ, ◌^◌, ◌<◌, ◌≡◌, refl, sym, ap, ◌∙◌, true, [], ◌++◌, append-nil, arith}
use nonblocking_io.ThreadPool.{Pool, Turn, thread_start}
use nonblocking_io.ThreadPool.Invariant.{IsNew, turn_of, after_turn}
use nonblocking_io.ThreadPool.Fifo.{contents}
use nonblocking_io.ThreadPool.System.{
  Sys, taken_by, woken, Step, start, turn, wake, finish, accept, refuse, shut, Reach, here, next,
  initial,
}
use nonblocking_io.ThreadPool.System.Invariant.{Inv, turned}
use nonblocking_io.ThreadPool.System.Invariant.Clients.{
  submit_accepted, submit_refused, shutdown_locked_done,
}
use nonblocking_io.ThreadPool.System.Safety.{initial-Inv, turn_unique, Reach-Inv}

-- What a step keeps in a pool that is shut down.
pub record Keeps (n : ℕ) (s t : Sys) : Type 0 where
  pub shutdown : t.pool.shutdown ≡ true
  pub ring : contents t.pool ≡ contents s.pool
  pub accepted : t.accepted ≡ s.accepted
  pub taken : t.taken ≡ s.taken

stopped_turn :
    {n : ℕ} {s : Sys} (i : ℕ)
    → s.pool.shutdown ≡ true
    → Keeps n s (turned s i (turn_of s.pool) (after_turn s.pool))
stopped_turn {n} {s} i stop = record {
  shutdown = ground arith;
  ring = ground arith;
  accepted = refl;
  taken = ap (λ ts. s.taken ++ ts) nothing ∙ append-nil s.taken;
}
  where
    nothing : taken_by (turn_of s.pool) ≡ []
    nothing = ground arith

Step-Keeps : {n : ℕ} {s t : Sys} → Inv n s → s.pool.shutdown ≡ true → Step n s t → Keeps n s t
unfolding thread_start
Step-Keeps inv stop (start i lt e) = record {
  shutdown = stop;
  ring = refl;
  accepted = refl;
  taken = refl;
}
Step-Keeps {n} {s} inv stop (turn i lt e taken) =
    subst (λ (r : Turn × Pool). Keeps n s (turned s i r.0 r.1)) (turn_unique inv.valid taken)
      (stopped_turn i stop)
Step-Keeps inv stop (wake i lt e) = record {
  shutdown = stop;
  ring = refl;
  accepted = refl;
  taken = refl;
}
Step-Keeps inv stop (finish i lt e) = record {
  shutdown = stop;
  ring = refl;
  accepted = refl;
  taken = refl;
}
Step-Keeps inv stop (accept args func e w) =
    absurd (ground (arith, submit_accepted args func inv.valid inv.free e))
Step-Keeps {n} {s} inv stop (refuse args func e) =
    subst (λ p. Keeps n s (record s { pool = p }))
      (sym (submit_refused args func inv.valid inv.free e))
      (record { shutdown = stop; ring = refl; accepted = refl; taken = refl })
Step-Keeps {n} {s} inv stop (shut mode e) =
    subst (λ p. Keeps n s (record s { pool = p; pc = λ i. woken (s.pc i) }))
      (sym (shutdown_locked_done mode s.pool e))
      (record { shutdown = refl; ring = refl; accepted = refl; taken = refl })

pub Reach-Keeps :
    {n : ℕ} {s t : Sys} → n < 2 ^ 15 → Inv n s → s.pool.shutdown ≡ true → Reach n s t → Keeps n s t
Reach-Keeps few inv stop here = record {
  shutdown = stop;
  ring = refl;
  accepted = refl;
  taken = refl;
}
Reach-Keeps few inv stop (next r st) =
    let before = Reach-Keeps few inv stop r in
    let last = Step-Keeps (Reach-Inv few inv r) before.shutdown st in
    record {
      shutdown = last.shutdown;
      ring = last.ring ∙ before.ring;
      accepted = last.accepted ∙ before.accepted;
      taken = last.taken ∙ before.taken;
    }

-- From a new pool, whatever the interleaving: once the pool is shut down, in either mode, no task is
-- accepted, none is taken, and the tasks in the ring stay there.
pub shutdown_drops_queue :
    (n : ℕ) {p : Pool} {s t : Sys}
    → n < 2 ^ 15
    → IsNew p
    → Reach n (initial p) s
    → s.pool.shutdown ≡ true
    → Reach n s t
    → (t.pool.shutdown ≡ true)
      × (t.accepted ≡ s.accepted)
      × (t.taken ≡ s.taken)
      × (contents t.pool ≡ contents s.pool)
shutdown_drops_queue n few new r stop r' =
    let keeps = Reach-Keeps few (Reach-Inv few (initial-Inv n new) r) stop r' in
    (keeps.shutdown, keeps.accepted, keeps.taken, keeps.ring)
