-- ===== src/Service/Progress.antt =====
-- That tasks can always come to their ends, and stored clients to a worker.
use mathlib.Core.List.{map}
use nonblocking_io.Common.{
  total, total-update, total-pos, le-total, ℕ, zero, suc, ◌^◌, ◌<◌, ◌≡◌, refl, ap, ◌∙◌, Bool, true,
  false, ◌&&◌, Option, none, some, List, [], ◌∷◌, ◌++◌, arith, ◌==◌, inl, inr, Bool-cases, update,
  ◌≤◌, if◌then◌else◌,
}
use nonblocking_io.ThreadPool.{Task, Pool}
use nonblocking_io.ThreadPool.Invariant.{IsNew}
use nonblocking_io.ThreadPool.System.{running, fresh, ready, waiting, exited, Pc}
use nonblocking_io.ThreadPool.System.Threads.{runs}
use nonblocking_io.ThreadPool.System.Invariant.{count}
use nonblocking_io.WorkerPool.{ClientInfo, put_client, take_first}
use nonblocking_io.WorkerPool.Handover
use nonblocking_io.WorkerPool.Handover.{Storage, IsEmpty, clients}
use nonblocking_io.Server.{Server}
use nonblocking_io.Server.Burst.{task_of}
use nonblocking_io.Service.{Service, Among, served, take_out, Reach, here, next, initial}
use nonblocking_io.Service.Conserved.{clients_conserved}

abbrev same_option : Option ℕ → Option ℕ → Bool
same_option none none = true
same_option none (some b) = false
same_option (some a) none = false
same_option (some a) (some b) = a == b

abbrev same_task : Task → Task → Bool
same_task t u = same_option t.fun u.fun && same_option t.args u.args

same_option_refl : (a : Option ℕ) → same_option a a ≡ true
same_option_refl a = ground arith

same_option-eq : (a b : Option ℕ) → same_option a b ≡ true → a ≡ b
same_option-eq a b h = ground (arith, h)

same_task_refl : (t : Task) → same_task t t ≡ true
same_task_refl t = ground (arith, same_option_refl t.fun, same_option_refl t.args)

same_task-eq : (t u : Task) → same_task t u ≡ true → t ≡ u
same_task-eq t u h = ground (arith, h, same_option-eq t.fun u.fun, same_option-eq t.args u.args)

client_of_task :
    (q : Task → Bool) (cs : List ClientInfo)
    → 0 < count q (map task_of cs)
    → (c : ClientInfo) × Among c cs × (q (task_of c) ≡ true)
client_of_task q [] h = elim h [ ]
client_of_task q (c ∷ cs) h = elim (Bool-cases (q (task_of c))) [
  | inl yes_c ↦ (c, inl refl, yes_c)
  | inr no_c ↦
      let (d, among, e) = client_of_task q cs (ground (arith, h, no_c)) in (d, inr among, e)
]

abbrev pub any : Task → Bool
any t = true

running_of : (c : Pc) → 0 < runs any c → (t : Task) × (c ≡ running t)
running_of fresh h = elim h [ ]
running_of ready h = elim h [ ]
running_of waiting h = elim h [ ]
running_of (running t) h = (t, refl)
running_of exited h = elim h [ ]

pub runs-le : (q : Task → Bool) (c : Pc) → runs q c ≤ runs any c
runs-le q c = ground arith

module _ {Poller : Type 0} (add_event : Poller → (fd events : ℕ) → Poller) (n : ℕ) where
  -- `t` comes after `s`, and in between no client has come or been dropped, nor the pool been shut
  -- down.
  pub record Later (s t : Service Poller) : Type 0 where
    pub run : Reach add_event n s t
    pub server : t.server ≡ s.server
    pub shutdown : t.sys.pool.shutdown ≡ s.sys.pool.shutdown
    pub dropped : t.dropped ≡ s.dropped

  pub Reach-trans :
      {s t u : Service Poller}
      → Reach add_event n s t
      → Reach add_event n t u
      → Reach add_event n s u
  Reach-trans r here = r
  Reach-trans r (next r' st) = next (Reach-trans r r') st

  pub Later-trans : {s t u : Service Poller} → Later s t → Later t u → Later s u
  Later-trans a b = record {
    run = Reach-trans a.run b.run;
    server = b.server ∙ a.server;
    shutdown = b.shutdown ∙ a.shutdown;
    dropped = b.dropped ∙ a.dropped;
  }

  pub Later-refl : (s : Service Poller) → Later s s
  Later-refl s = record { run = here; server = refl; shutdown = refl; dropped = refl }

  -- Worker 0 has taken the client `c`, and the task of `c` on thread `i` is over.
  abbrev taken_one : ClientInfo → Service Poller → Service Poller
  taken_one c s = record s {
    store = record s.store {
      storage = (take_first add_event s.store.storage (s.store.workers 0)).0;
      workers = λ j.
          if j == 0
          then (take_first add_event s.store.storage (s.store.workers j)).1
          else s.store.workers j;
      taken = s.store.taken ++ ((0, c) ∷ []);
    };
  }

  abbrev ended : ℕ → ClientInfo → Service Poller → Service Poller
  ended i c s = record s {
    sys = record s.sys {
      pc = update s.sys.pc i ready;
      finished = s.sys.finished ++ (task_of c ∷ []);
    };
    store = record s.store {
      storage = put_client c s.store.storage;
      put = s.store.put ++ (c ∷ []);
    };
  }

  ended-Later :
      {s : Service Poller} (i : ℕ) (c : ClientInfo)
      → s.server.aborted ≡ false
      → i < n
      → s.sys.pc i ≡ running (task_of c)
      → Among c s.server.submitted
      → Later s (ended i c s)
  ended-Later i c live lt at among = record {
    run = next here (served i c live lt at among);
    server = refl;
    shutdown = refl;
    dropped = refl;
  }

  -- Worker 0 takes all clients of the queue.
  pub take_all :
      (cs : List ClientInfo) (s : Service Poller)
      → s.server.aborted ≡ false
      → s.store.storage ≡ cs
      → (t : Service Poller) × Later s t × (t.sys ≡ s.sys) × (t.store.storage ≡ [])
  take_all [] s live e = (s, Later-refl s, refl, e)
  take_all (c ∷ cs) s live e =
      let (t, later, same, none_left) =
        take_all cs (taken_one c s) live
          (ap (λ xs. (take_first add_event xs (s.store.workers 0)).0) e) in
      let first : Later s (taken_one c s) = record {
        run = next here (take_out live (Handover.take_out 0 e) refl);
        server = refl;
        shutdown = refl;
        dropped = refl;
      } in
      (t, Later-trans first later, same, none_left)

  module _ {p : Pool} {store : Storage Poller} (few : n < 2 ^ 15) (new : IsNew p)
      (empty : IsEmpty add_event store) where
    abbrev pub Started : Service Poller → Type 0
    Started = Reach add_event n (initial p store)

    -- A task that is run is the closure of a client that was submitted.
    client_of_thread :
        {s : Service Poller} (i : ℕ) (t : Task)
        → Started s
        → i < n
        → s.sys.pc i ≡ running t
        → (c : ClientInfo) × Among c s.server.submitted × (t ≡ task_of c)
    client_of_thread {s} i t r lt at =
        let (c, among, e) = client_of_task (same_task t) s.server.submitted (
          ground (
            arith,
            clients_conserved add_event n (same_task t) few new empty r,
            le-total (runs (same_task t)) n i s.sys.pc lt,
            at,
            same_task_refl t,
          )) in
        (c, among, same_task-eq t (task_of c) e)

    -- A task that is being run comes to its end.
    end_one :
        {s : Service Poller}
        → Started s
        → s.server.aborted ≡ false
        → 0 < total (runs any) n s.sys.pc
        → (t : Service Poller) × Later s t
          × (t.sys.pool ≡ s.sys.pool)
          × (suc (total (runs any) n t.sys.pc) ≡ total (runs any) n s.sys.pc)
    end_one {s} r live some_run =
        let (i, lt, runs_i) = total-pos (runs any) n s.sys.pc some_run in
        let (t, at) = running_of (s.sys.pc i) runs_i in
        let (c, among, is_c) = client_of_thread i t r lt at in
        (
          ended i c s,
          ended-Later i c live lt (at ∙ ap running is_c) among,
          refl,
          omega (arith, total-update (runs any) n i ready s.sys.pc lt, ap (runs any) at),
        )

    -- All the tasks that are being run come to their ends.
    pub end_all :
        (left : ℕ) (s : Service Poller)
        → Started s
        → s.server.aborted ≡ false
        → total (runs any) n s.sys.pc ≡ left
        → (t : Service Poller) × Later s t
          × (t.sys.pool ≡ s.sys.pool)
          × (total (runs any) n t.sys.pc ≡ 0)
    end_all zero s r live e = (s, Later-refl s, refl, e)
    end_all (suc left) s r live e =
        let (t, later, same, one_less) = end_one r live (omega arith) in
        let (u, later', same', none_left) =
          end_all left t (Reach-trans r later.run)
            (ap (λ (v : Server). v.aborted) later.server ∙ live) (omega arith) in
        (u, Later-trans later later', same' ∙ same, none_left)
