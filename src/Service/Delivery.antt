-- ===== src/Service/Delivery.antt =====
-- That every client which has not been dropped can come to a worker.
use mathlib.Core.List.{map}
use native.Mathlib.Decide.{ℕ_discrete}
use nonblocking_io.Common.{
  total, total_mono, le-total, ℕ, ◌+◌, ◌^◌, ◌<◌, ◌≡◌, ◌≢◌, refl, ap, ◌∙◌, Bool, false, List, [],
  ◌∷◌, arith,
}
use nonblocking_io.ThreadPool.{Task, Turn, Pool, run, thread_start}
use nonblocking_io.ThreadPool.Invariant.{IsNew}
use nonblocking_io.ThreadPool.Fifo.{Queue, contents, view, poll, worker_turn_refines}
use nonblocking_io.ThreadPool.System
use nonblocking_io.ThreadPool.System.{Sys, Pc, fresh, ready, waiting, running, exited, after_pc}
use nonblocking_io.ThreadPool.System.Threads.{runs}
use nonblocking_io.ThreadPool.System.Invariant.{count}
use nonblocking_io.ThreadPool.System.Safety.{initial-Inv, Reach-Inv}
use nonblocking_io.ThreadPool.System.Liveness.{open-no_exit}
use nonblocking_io.WorkerPool.Handover.{Storage, IsEmpty, clients}
use nonblocking_io.Server.{Server}
use nonblocking_io.Server.Burst.{task_of}
use nonblocking_io.Service.{Service, pool_step, here, next}
use nonblocking_io.Service.Conserved.{clients_conserved, sys-Reach}
use nonblocking_io.Service.Progress.{
  any, runs-le, Later, Reach-trans, Later-trans, Later-refl, take_all, Started, end_all,
}

poll-run :
    (q : Queue) {x : Task} {xs : List Task}
    → q.closed ≡ false
    → q.items ≡ x ∷ xs
    → poll q ≡ (run x, record q { items = xs })
unfolding poll
poll-run q open_now holds = rw (open_now, holds) refl

module _ {Poller : Type 0} (add_event : Poller → (fd events : ℕ) → Poller) (n : ℕ) {p : Pool}
    {store : Storage Poller} (some_thread : 0 < n) (few : n < 2 ^ 15) (new : IsNew p)
    (empty : IsEmpty add_event store) where
  abbrev IsStarted : Service Poller → Type 0
  IsStarted = Started add_event n few new empty

  -- Thread 0 of an open pool comes to the point where it takes the lock.
  get_ready :
      (c : Pc) (s : Service Poller)
      → s.server.aborted ≡ false
      → s.sys.pc 0 ≡ c
      → c ≢ exited
      → runs any c ≡ 0
      → (t : Service Poller) × Later add_event n s t
        × (contents t.sys.pool ≡ contents s.sys.pool)
        × (t.sys.pc 0 ≡ ready)
  unfolding thread_start ℕ_discrete
  get_ready fresh s live at stays idle = (
    _,
    record {
      run = next here (pool_step live (System.start 0 some_thread at) refl refl);
      server = refl;
      shutdown = refl;
      dropped = refl;
    },
    refl,
    refl,
  )
  get_ready ready s live at stays idle = (s, Later-refl add_event n s, refl, at)
  get_ready waiting s live at stays idle = (
    _,
    record {
      run = next here (pool_step live (System.wake 0 some_thread at) refl refl);
      server = refl;
      shutdown = refl;
      dropped = refl;
    },
    refl,
    refl,
  )
  get_ready (running t) s live at stays idle = absurd (omega (arith, idle))
  get_ready exited s live at stays idle = absurd (stays refl)

  -- A thread that has the lock takes the oldest task.
  take_oldest :
      (s : Service Poller) {x : Task} {xs : List Task}
      → IsStarted s
      → s.server.aborted ≡ false
      → s.sys.pool.shutdown ≡ false
      → contents s.sys.pool ≡ x ∷ xs
      → s.sys.pc 0 ≡ ready
      → (t : Service Poller) × Later add_event n s t × (contents t.sys.pool ≡ xs)
  take_oldest s {x} {xs} r live open_now holds at =
      let (turn, e, _, _, after) =
        worker_turn_refines (Reach-Inv few (initial-Inv n new) (sys-Reach add_event n r)).valid in
      let polled =
        after ∙ ap (λ (y : Turn × Queue). y.1) (poll-run (view s.sys.pool) open_now holds) in
      (
        _,
        record {
          run =
              next here (
                pool_step live (System.turn 0 {t = turn.0} {p = turn.1} some_thread at e) refl
                  refl);
          server = refl;
          shutdown = ap (λ (q : Queue). q.closed) polled;
          dropped = refl;
        },
        ap (λ (q : Queue). q.items) polled,
      )

  -- The ring comes to be empty, with no task being run.
  empty_ring :
      (xs : List Task) (s : Service Poller)
      → IsStarted s
      → s.server.aborted ≡ false
      → s.sys.pool.shutdown ≡ false
      → contents s.sys.pool ≡ xs
      → (t : Service Poller) × Later add_event n s t
        × (contents t.sys.pool ≡ [])
        × (total (runs any) n t.sys.pc ≡ 0)
  empty_ring [] s r live open_now holds =
      let (t, later, same, none_runs) =
        end_all add_event n few new empty (total (runs any) n s.sys.pc) s r live refl in
      (t, later, ap contents same ∙ holds, none_runs)
  empty_ring (x ∷ xs) s r live open_now holds =
      let (t, later, same, none_runs) =
        end_all add_event n few new empty (total (runs any) n s.sys.pc) s r live refl in
      let live_t : t.server.aborted ≡ false = ap (λ (v : Server). v.aborted) later.server ∙ live in
      let rt : IsStarted t = Reach-trans add_event n r later.run in
      let (u, later', same', at) =
        get_ready (t.sys.pc 0) t live_t refl
          (open-no_exit n some_thread few new (sys-Reach add_event n rt) (later.shutdown ∙ open_now)
            0 some_thread)
          (omega (arith, le-total (runs any) n 0 t.sys.pc some_thread, none_runs)) in
      let live_u : u.server.aborted ≡ false =
        ap (λ (v : Server). v.aborted) later'.server ∙ live_t in
      let ru : IsStarted u = Reach-trans add_event n rt later'.run in
      let (v, later'', holds') =
        take_oldest u ru live_u (later'.shutdown ∙ later.shutdown ∙ open_now)
          (same' ∙ ap contents same ∙ holds) at in
      let (w, last, none_left, none_run) =
        empty_ring xs v (Reach-trans add_event n ru later''.run)
          (ap (λ (v : Server). v.aborted) later''.server ∙ live_u)
          (later''.shutdown ∙ later'.shutdown ∙ later.shutdown ∙ open_now) holds' in
      (
        w,
        Later-trans add_event n later
            (Later-trans add_event n later' (Later-trans add_event n later'' last)),
        none_left,
        none_run,
      )

  -- With between 1 and 32767 threads, from a new thread pool and empty workers: from every state
  -- that the service can come to in which the process has not been aborted and the pool not been
  -- shut down, it can come to one in
  -- which, for every kind `q` of tasks, the clients submitted are those whose task has been dropped
  -- and those that a worker has taken, while it submits no more and drops nothing more.
  pub clients_can_arrive :
      {s : Service Poller}
      → IsStarted s
      → s.server.aborted ≡ false
      → s.sys.pool.shutdown ≡ false
      → (t : Service Poller) × Later add_event n s t
        × ((q : Task → Bool)
            → count q (map task_of s.server.submitted)
              ≡ count q s.dropped + count q (map task_of (clients t.store.taken)))
  clients_can_arrive {s} r live open_now =
      let (t, later, ring, none_runs) = empty_ring (contents s.sys.pool) s r live open_now refl in
      let (u, later', same, none_stored) =
        take_all add_event n t.store.storage t (ap (λ (v : Server). v.aborted) later.server ∙ live)
          refl in
      let all = Later-trans add_event n later later' in
      (
        u,
        all,
        λ q. omega (
          arith,
          ap (λ (v : Server). count q (map task_of v.submitted)) all.server,
          ap (count q) all.dropped,
          clients_conserved add_event n q few new empty (Reach-trans add_event n r all.run),
          total_mono (runs q) (runs any) (runs-le q) n u.sys.pc,
          ap (λ (y : Sys). total (runs any) n y.pc) same ∙ none_runs,
          ap (λ (y : Sys). count q (contents y.pool)) same ∙ ap (count q) ring,
          ap (λ xs. count q (map task_of xs)) none_stored,
        ),
      )
