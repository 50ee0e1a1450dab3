-- ===== src/ThreadPool/System/Invariant/Workers.antt =====
-- The steps of a worker keep the invariant.
use nonblocking_io.Common.{
  update, total, total-update, total-le, ℕ, ◌≤◌, ◌<◌, ◌^◌, ◌≡◌, sym, ap, ◌∙◌, Bool, [], ◌∷◌, ◌++◌,
  append_assoc, arith, inc16, dec16,
}
use nonblocking_io.ThreadPool.{Task, Pool, thread_start}
use nonblocking_io.ThreadPool.Invariant.{IsValid, turn_of, after_turn, after_turn-IsValid}
use nonblocking_io.ThreadPool.Fifo.{contents, contents-popped}
use nonblocking_io.ThreadPool.System.{Pc, fresh, ready, waiting, running, Sys, after_pc, taken_by}
use nonblocking_io.ThreadPool.System.Threads.{alive, begun, runs}
use nonblocking_io.ThreadPool.System.Invariant.{count, count-append, Inv, turned}

-- A turn takes from the front of the ring what it runs.
contents-after_turn :
    {p : Pool} → IsValid p → contents p ≡ taken_by (turn_of p) ++ contents (after_turn p)
contents-after_turn {p} v = ground (arith, contents-popped v)

count-taken_by :
    (q : Task → Bool) (p : Pool) → count q (taken_by (turn_of p)) ≡ runs q (after_pc (turn_of p))
count-taken_by q p = ground arith

start-IsValid : {p : Pool} → IsValid p → IsValid (thread_start p).1
unfolding thread_start
start-IsValid v = record {
  fits = v.fits;
  small = v.small;
  curr_in = v.curr_in;
  count_in = v.count_in;
  tail_at = v.tail_at;
}

alive-le : (n : ℕ) (pc : ℕ → Pc) → total alive n pc ≤ n
alive-le = total-le alive (λ c. ground arith)

begun-le : (n : ℕ) (pc : ℕ → Pc) → total begun n pc ≤ n
begun-le = total-le begun (λ c. ground arith)

module _ {n : ℕ} {s : Sys} (few : n < 2 ^ 15) (inv : Inv n s) (i : ℕ) (lt : i < n) where
  pub start-Inv :
      s.pc i ≡ fresh → Inv n (record s { pool = (thread_start s.pool).1; pc = update s.pc i ready })
  unfolding thread_start inc16
  start-Inv e = record {
    valid = start-IsValid inv.valid;
    free = inv.free;
    fifo = inv.fifo;
    once = λ q. ground (arith, total-update (runs q) n i ready s.pc lt, inv.once q);
    started = ground (
      arith,
      total-update alive n i ready s.pc lt,
      inv.started,
      alive-le n (update s.pc i ready),
    );
    threads = ground (
      arith,
      total-update begun n i ready s.pc lt,
      inv.threads,
      begun-le n (update s.pc i ready),
    );
  }

  pub turn-Inv : s.pc i ≡ ready → Inv n (turned s i (turn_of s.pool) (after_turn s.pool))
  unfolding dec16
  turn-Inv e = record {
    valid = after_turn-IsValid inv.valid;
    free = ground (arith, inv.free);
    fifo =
        inv.fifo
        ∙ ap (λ ts. s.taken ++ ts) (contents-after_turn inv.valid)
        ∙ sym (append_assoc s.taken (taken_by (turn_of s.pool)) (contents (after_turn s.pool)));
    once = λ q. ground (
      arith,
      count-append q s.taken (taken_by (turn_of s.pool)),
      count-taken_by q s.pool,
      total-update (runs q) n i (after_pc (turn_of s.pool)) s.pc lt,
      inv.once q,
    );
    started = ground (
      arith,
      total-update alive n i (after_pc (turn_of s.pool)) s.pc lt,
      inv.started,
      alive-le n s.pc,
    );
    threads =
        ground (arith, total-update begun n i (after_pc (turn_of s.pool)) s.pc lt, inv.threads);
  }

  pub wake-Inv : s.pc i ≡ waiting → Inv n (record s { pc = update s.pc i ready })
  wake-Inv e = record {
    valid = inv.valid;
    free = inv.free;
    fifo = inv.fifo;
    once = λ q. ground (arith, total-update (runs q) n i ready s.pc lt, inv.once q);
    started = ground (arith, total-update alive n i ready s.pc lt, inv.started);
    threads = ground (arith, total-update begun n i ready s.pc lt, inv.threads);
  }

  pub finish-Inv :
      {t : Task}
      → s.pc i ≡ running t
      → Inv n (record s { pc = update s.pc i ready; finished = s.finished ++ (t ∷ []) })
  finish-Inv {t} e = record {
    valid = inv.valid;
    free = inv.free;
    fifo = inv.fifo;
    once = λ q. ground (
      arith,
      total-update (runs q) n i ready s.pc lt,
      inv.once q,
      count-append q s.finished (t ∷ []),
    );
    started = ground (arith, total-update alive n i ready s.pc lt, inv.started);
    threads = ground (arith, total-update begun n i ready s.pc lt, inv.threads);
  }
