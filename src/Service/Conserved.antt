-- ===== src/Service/Conserved.antt =====
-- Where each client is that the server has accepted.
use mathlib.Core.List.{map, map-append}
use nonblocking_io.Common.{
  total, ℕ, ◌+◌, ◌^◌, ◌<◌, ◌≡◌, refl, sym, ap, ◌∙◌, Bool, none, some, List, [], ◌∷◌, ◌++◌, arith,
}
use nonblocking_io.ThreadPool.{Task, Pool}
use nonblocking_io.ThreadPool.Invariant.{IsNew}
use nonblocking_io.ThreadPool.Fifo.{contents}
use nonblocking_io.ThreadPool.System
use nonblocking_io.ThreadPool.System.{Sys}
use nonblocking_io.ThreadPool.System.Threads.{runs}
use nonblocking_io.ThreadPool.System.Invariant.{count, count-append, Inv}
use nonblocking_io.ThreadPool.System.Safety.{initial-Inv, Reach-Inv}
use nonblocking_io.WorkerPool.{ClientInfo}
use nonblocking_io.WorkerPool.Handover
use nonblocking_io.WorkerPool.Handover.{Storage, IsEmpty, clients, clients_handed_over}
use nonblocking_io.Server.{on_event}
use nonblocking_io.Server.Burst.{task_of}
use nonblocking_io.Service.{
  Service, Step, kept, lost, no_client, pool_step, served, take_out, Reach, here, next, initial,
}

module _ {Poller : Type 0} (add_event : Poller → (fd events : ℕ) → Poller) (n : ℕ) where
  -- A run of the service is a run of its thread pool, and one of its queue of clients.
  sys-Step :
      (s : Service Poller) {t u : Service Poller}
      → Step add_event n t u
      → System.Reach n s.sys t.sys
      → System.Reach n s.sys u.sys
  sys-Step s (kept events a c live e took w) r =
      System.next r (System.accept none (some c.fd) took w)
  sys-Step s (lost events a c live e refused) r =
      System.next r (System.refuse none (some c.fd) refused)
  sys-Step s (no_client events a live e) r = r
  sys-Step s (pool_step live st same_accepted same_finished) r = System.next r st
  sys-Step s (served i c live lt e among) r = System.next r (System.finish i lt e)
  sys-Step s (take_out live st same) r = r

  pub sys-Reach : {s t : Service Poller} → Reach add_event n s t → System.Reach n s.sys t.sys
  sys-Reach here = System.here
  sys-Reach {s} (next r st) = sys-Step s st (sys-Reach r)

  store-Step :
      (s : Service Poller) {t u : Service Poller}
      → Step add_event n t u
      → Handover.Reach add_event s.store t.store
      → Handover.Reach add_event s.store u.store
  store-Step s (kept events a c live e took w) r = r
  store-Step s (lost events a c live e refused) r = r
  store-Step s (no_client events a live e) r = r
  store-Step s (pool_step live st same_accepted same_finished) r = r
  store-Step s (served i c live lt e among) r = Handover.next r (Handover.put_in c)
  store-Step s (take_out live st same) r = Handover.next r st

  pub store-Reach :
      {s t : Service Poller} → Reach add_event n s t → Handover.Reach add_event s.store t.store
  store-Reach here = Handover.here
  store-Reach {s} (next r st) = store-Step s st (store-Reach r)

  -- What links the parts: a client submitted has its task accepted or dropped, and the finished tasks
  -- are those of the clients put into the queue.
  record IsLinked (s : Service Poller) : Type 0 where
    submitted :
        (q : Task → Bool)
        → count q (map task_of s.server.submitted) ≡ count q s.sys.accepted + count q s.dropped
    finished : s.sys.finished ≡ map task_of s.store.put

  count-submitted :
      (q : Task → Bool) (cs ds : List ClientInfo) (c : ClientInfo)
      → ds ≡ cs ++ (c ∷ [])
      → count q (map task_of ds) ≡ count q (map task_of cs) + count q (task_of c ∷ [])
  count-submitted q cs ds c e =
      ap (λ l. count q (map task_of l)) e
      ∙ ap (count q) (map-append task_of cs (c ∷ []))
      ∙ count-append q (map task_of cs) (task_of c ∷ [])

  Step-IsLinked : {s t : Service Poller} → Step add_event n s t → IsLinked s → IsLinked t
  Step-IsLinked {s} (kept events a c live e took w) k = record {
    submitted = λ q. omega (
      arith,
      count-submitted q s.server.submitted (on_event events a s.server).submitted c e,
      k.submitted q,
      count-append q s.sys.accepted (task_of c ∷ []),
    );
    finished = k.finished;
  }
  Step-IsLinked {s} (lost events a c live e refused) k = record {
    submitted = λ q. omega (
      arith,
      count-submitted q s.server.submitted (on_event events a s.server).submitted c e,
      k.submitted q,
      count-append q s.dropped (task_of c ∷ []),
    );
    finished = k.finished;
  }
  Step-IsLinked {s} (no_client events a live e) k = record {
    submitted = λ q. ap (λ l. count q (map task_of l)) e ∙ k.submitted q;
    finished = k.finished;
  }
  Step-IsLinked {s} (pool_step live st same_accepted same_finished) k = record {
    submitted = λ q. k.submitted q ∙ ap (λ l. count q l + count q s.dropped) (sym same_accepted);
    finished = same_finished ∙ k.finished;
  }
  Step-IsLinked {s} (served i c live lt e among) k = record {
    submitted = k.submitted;
    finished =
        ap (λ l. l ++ (task_of c ∷ [])) k.finished ∙ sym (map-append task_of s.store.put (c ∷ []));
  }
  Step-IsLinked {s} (take_out live st same) k = record {
    submitted = k.submitted;
    finished = k.finished ∙ ap (map task_of) (sym same);
  }

  Reach-IsLinked : {s t : Service Poller} → IsLinked s → Reach add_event n s t → IsLinked t
  Reach-IsLinked k here = k
  Reach-IsLinked k (next r st) = Step-IsLinked st (Reach-IsLinked k r)

  initial-IsLinked :
      {p : Pool} {store : Storage Poller} → store.put ≡ [] → IsLinked (initial p store)
  initial-IsLinked e = record { submitted = λ q. refl; finished = sym (ap (map task_of) e) }

  -- From a new thread pool with `n` threads and empty workers, whatever the interleaving of the
  -- accept loop, the threads, a shutdown and the workers, and for every kind `q` of tasks: each
  -- client that the server has submitted is in exactly one place. Its task was dropped, is in the
  -- ring, or is being run; or it is in `event_storage_`, or a worker has taken it.
  pub clients_conserved :
      (q : Task → Bool) {p : Pool} {store : Storage Poller} {s : Service Poller}
      → n < 2 ^ 15
      → IsNew p
      → IsEmpty add_event store
      → Reach add_event n (initial p store) s
      → count q (map task_of s.server.submitted)
        ≡ count q s.dropped
          + count q (contents s.sys.pool)
          + total (runs q) n s.sys.pc
          + count q (map task_of s.store.storage)
          + count q (map task_of (clients s.store.taken))
  clients_conserved q {p} {store} {s} few new empty r =
      let inv : Inv n s.sys = Reach-Inv few (initial-Inv n new) (sys-Reach r) in
      let (put_eq, _) = clients_handed_over add_event empty (store-Reach r) in
      let link = Reach-IsLinked (initial-IsLinked empty.none_put) r in
      omega (
        arith,
        link.submitted q,
        ap (count q) inv.fifo ∙ count-append q s.sys.taken (contents s.sys.pool),
        inv.once q,
        ap (count q) link.finished
            ∙ ap (λ l. count q (map task_of l)) put_eq
            ∙ ap (count q) (map-append task_of (clients s.store.taken) s.store.storage)
            ∙ count-append q (map task_of (clients s.store.taken)) (map task_of s.store.storage),
      )
