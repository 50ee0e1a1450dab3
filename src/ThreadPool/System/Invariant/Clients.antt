-- ===== src/ThreadPool/System/Invariant/Clients.antt =====
-- The steps of a client, `submit` and `shutdown_interval`, keep the invariant.
use nonblocking_io.Common.{
  total, total-update, total_same, ℕ, ◌<◌, ◌≡◌, refl, sym, ap, ◌∙◌, true, false, Option, some, [],
  ◌∷◌, ◌++◌, append_assoc, arith, pos, negsuc,
}
use nonblocking_io.ThreadPool.{Pool, ShutdownMode, pushed, submit}
use nonblocking_io.ThreadPool.Shutdown.{shutdown_locked}
use nonblocking_io.ThreadPool.Invariant.{IsValid, accepts, submit_in_range, pushed-IsValid}
use nonblocking_io.ThreadPool.Fifo.{contents, contents-pushed}
use nonblocking_io.ThreadPool.System.{
  Pc, ready, waiting, Sys, all_ok, all_ok_shutdown, woken, Woken, one, nobody,
}
use nonblocking_io.ThreadPool.System.Threads.{alive, begun, runs}
use nonblocking_io.ThreadPool.System.Invariant.{Inv}

-- What `submit` has done where it answers 0, and where it answers an error.
module _ (args func : Option ℕ) {p p' : Pool} {k : ℕ} (v : IsValid p)
    (free : p.locked ≡ false) where
  pub submit_accepted :
      submit all_ok args func p ≡ some (pos k, p') → (accepts p ≡ true) × (p' ≡ pushed args func p)
  submit_accepted e = ground (arith, submit_in_range all_ok args func v)

  pub submit_refused : submit all_ok args func p ≡ some (negsuc k, p') → p' ≡ p
  submit_refused e = ground (arith, submit_in_range all_ok args func v)

Woken-total :
    (w : Pc → ℕ) {n : ℕ} {pc pc' : ℕ → Pc}
    → w ready ≡ w waiting
    → Woken n pc pc'
    → total w n pc' ≡ total w n pc
Woken-total w {n} {pc} same (one i lt e) = ground (arith, total-update w n i ready pc lt)
Woken-total w same (nobody none_waits) = refl

abbrev marked : ShutdownMode → Pool → Pool
marked mode p = record p { locked = false; shutdown = true; shutdown_mode = mode }

pub shutdown_locked_done :
    (mode : ShutdownMode) (p : Pool) {p' : Pool} {k : ℕ}
    → shutdown_locked all_ok_shutdown mode (record p { locked = true }) ≡ (pos k, p')
    → p' ≡ marked mode p
unfolding shutdown_locked
shutdown_locked_done mode p e = ground arith

marked-IsValid : (mode : ShutdownMode) {p : Pool} → IsValid p → IsValid (marked mode p)
marked-IsValid mode v = record {
  fits = v.fits;
  small = v.small;
  curr_in = v.curr_in;
  count_in = v.count_in;
  tail_at = v.tail_at;
}

module _ {n : ℕ} {s : Sys} (inv : Inv n s) where
  pushed-Inv :
      (args func : Option ℕ) {pc : ℕ → Pc}
      → s.pool.work_count < s.pool.queue_size
      → Woken n s.pc pc
      → Inv n (record s {
        pool = pushed args func s.pool;
        pc = pc;
        accepted = s.accepted ++ (record { fun = func; args = args } ∷ []);
      })
  pushed-Inv args func room w = record {
    valid = pushed-IsValid args func inv.valid room;
    free = inv.free;
    fifo =
        ap (λ ts. ts ++ (record { fun = func; args = args } ∷ [])) inv.fifo
        ∙ append_assoc s.taken (contents s.pool) (record { fun = func; args = args } ∷ [])
        ∙ ap (λ ts. s.taken ++ ts) (sym (contents-pushed args func inv.valid room));
    once = λ q. omega (arith, inv.once q, Woken-total (runs q) refl w);
    started = omega (arith, Woken-total alive refl w);
    threads = omega (arith, Woken-total begun refl w);
  }

  pub accept-Inv :
      (args func : Option ℕ) {k : ℕ} {p : Pool} {pc : ℕ → Pc}
      → submit all_ok args func s.pool ≡ some (pos k, p)
      → Woken n s.pc pc
      → Inv n (record s {
        pool = p;
        pc = pc;
        accepted = s.accepted ++ (record { fun = func; args = args } ∷ []);
      })
  accept-Inv args func e w =
      let (open_now, after) = submit_accepted args func inv.valid inv.free e in
      rw after (pushed-Inv args func (ground (arith, inv.valid)) w)

  pub refuse-Inv :
      (args func : Option ℕ) {k : ℕ} {p : Pool}
      → submit all_ok args func s.pool ≡ some (negsuc k, p)
      → Inv n (record s { pool = p })
  refuse-Inv args func e = rw (submit_refused args func inv.valid inv.free e) inv

  pub shut-Inv :
      (mode : ShutdownMode) {k : ℕ} {p : Pool}
      → shutdown_locked all_ok_shutdown mode (record s.pool { locked = true }) ≡ (pos k, p)
      → Inv n (record s { pool = p; pc = λ i. woken (s.pc i) })
  shut-Inv mode e = rw (shutdown_locked_done mode s.pool e) record {
    valid = marked-IsValid mode inv.valid;
    free = refl;
    fifo = inv.fifo;
    once = λ q. omega (arith, inv.once q, total_same (runs q) woken (λ c. ground arith) n s.pc);
    started = omega (arith, total_same alive woken (λ c. ground arith) n s.pc);
    threads = omega (arith, total_same begun woken (λ c. ground arith) n s.pc);
  }
