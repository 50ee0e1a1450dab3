-- ===== src/Service/Opened.antt =====
-- The service over the process's table of descriptors, from which `accept` takes the clients' ones. No
-- descriptor of a client is closed: the body of `handle_disconnect` is commented out.
mod Tests
use mathlib.Core.Path.{subst}
use nonblocking_io.Common.{
  ℕ, ◌^◌, ◌<◌, ◌≡◌, sym, ap₂, refl, Bool, true, Option, none, some, ◌==◌, if◌then◌else◌, All,
  lookup,
}
use nonblocking_io.ThreadPool.{Pool}
use nonblocking_io.ThreadPool.Invariant.{IsNew}
use nonblocking_io.WorkerPool.{ClientInfo}
use nonblocking_io.WorkerPool.Handover.{Storage, IsEmpty}
use nonblocking_io.Server.{Server, new_server}
use nonblocking_io.Descriptors.{Files, IsTable, connection}
use nonblocking_io.Descriptors.Distinct.{AreOpen, connection-AreOpen}
use nonblocking_io.Service.{Service, initial}
use nonblocking_io.Service
use nonblocking_io.Service.Tables.{TakenBy, table_entry}

module _ {Poller State : Type 0} (add_event : Poller → (fd events : ℕ) → Poller) (n : ℕ)
    (f : Files State) where
  -- `event`: an event of the listening socket, with what `accept` then gives. `other`: a step of the
  -- service that is none.
  pub data Step (s : Service Poller × State) : Service Poller × State → Type 0 where
    event :
        (events : ℕ) (host : Option ℕ) (port : ℕ) {u : Service Poller}
        → Service.Step add_event n s.0 u
        → u.server ≡ (connection f events host port (s.0.server, s.1)).0
        → Step s (u, (connection f events host port (s.0.server, s.1)).1)
    other :
        {u : Service Poller}
        → Service.Step add_event n s.0 u
        → u.server ≡ s.0.server
        → Step s (u, s.1)

  pub data Reach (s : Service Poller × State) : Service Poller × State → Type 0 where
    here : Reach s s
    next : {t u : Service Poller × State} → Reach s t → Step t u → Reach s u

  Reach-run : {s t : Service Poller × State} → Reach s t → Service.Reach add_event n s.0 t.0
  Reach-run here = Service.here
  Reach-run (next r (event events host port st e)) = Service.next (Reach-run r) st
  Reach-run (next r (other st e)) = Service.next (Reach-run r) st

  module _ (law : IsTable f) where
    Reach-AreOpen :
        {s t : Service Poller × State}
        → Reach s t
        → AreOpen f law (s.0.server, s.1)
        → AreOpen f law (t.0.server, t.1)
    Reach-AreOpen here h = h
    Reach-AreOpen (next {t} r (event events host port {u} st e)) h =
        subst (λ x. AreOpen f law (x, (connection f events host port (t.0.server, t.1)).1)) (sym e)
          (connection-AreOpen f law events host port (t.0.server, t.1) (Reach-AreOpen r h))
    Reach-AreOpen (next {t} r (other st e)) h =
        subst (λ x. AreOpen f law (x, t.1)) (sym e) (Reach-AreOpen r h)

    -- From a new thread pool with fewer than 32768 threads and empty workers, over a table of
    -- descriptors with the documented laws, whatever the interleaving: the descriptors of all
    -- clients that the server has submitted are open, and a client that worker `j` has taken stands
    -- under its descriptor in the `client_infos` of that worker, with its own data, and no other
    -- worker has an entry for that descriptor.
    pub table_of_taken :
        {p : Pool} {store : Storage Poller} {s : Service Poller × State} (i j : ℕ) (c : ClientInfo)
        (t : State)
        → n < 2 ^ 15
        → IsNew p
        → IsEmpty add_event store
        → Reach (initial p store, t) s
        → TakenBy j c s.0.store.taken
        → (lookup c.fd (s.0.store.workers i).client_infos ≡ (if i == j then some c else none))
          × All (λ d. f.is_open s.1 d.fd ≡ true) s.0.server.submitted
    table_of_taken i j c t few new empty r taken =
        let open_now = Reach-AreOpen r (record { distinct = tt; all_open = tt }) in
        (
          table_entry add_event n i j c few new empty (Reach-run r) open_now.distinct taken,
          open_now.all_open,
        )
