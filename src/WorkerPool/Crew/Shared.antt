-- ===== src/WorkerPool/Crew/Shared.antt =====
-- That the workers' rounds share the queue as the steps of WorkerPool/Handover do.
use nonblocking_io.Common.{
  ℕ, ◌≡◌, refl, sym, ap, ◌∙◌, Option, none, some, List, [], ◌∷◌, ◌++◌, append-nil, arith, ℤ,
  insert_all,
}
use nonblocking_io.Epoll.{Kernel, Event, poll_event}
use nonblocking_io.WorkerPool.{ClientInfo, put_client, take_first}
use nonblocking_io.WorkerPool.WaitTime.{wait_time}
use nonblocking_io.WorkerPool.Handover
use nonblocking_io.WorkerPool.Handover.{Storage, clients, taken_by, clients_handed_over}
use nonblocking_io.WorkerPool.Round.{
  Round, Input, add_to, arrive_and_take, answer_all, poll_for, worker_round,
}
use nonblocking_io.WorkerPool.Crew.{
  Crew, round_of, with_round, Step, arrive, round, Reach, here, next,
}

module _ {State : Type 0} (k : Kernel State) where
  -- A poll changes neither the queue nor the records.
  record Keeps (s r : Round State) : Type 0 where
    storage : r.storage ≡ s.storage
    infos : r.worker.client_infos ≡ s.worker.client_infos

  answer-Keeps :
      (read_of : ℕ → ℤ) (ready : Option (List Event)) (s : Round State) {r : Round State}
      → answer_all k read_of ready s ≡ some r
      → Keeps s r
  answer-Keeps read_of none s e = ground (arith, e)
  answer-Keeps read_of (some events) s e = ground (arith, e)

  poll-Keeps :
      (read_of : ℕ → ℤ) (timeout : Option ℤ) (s : Round State) {r : Round State}
      → poll_for k read_of timeout s ≡ some r
      → Keeps s r
  unfolding poll_event
  poll-Keeps read_of none s e = ground (arith, e)
  poll-Keeps read_of (some timeout) s e =
      let (ready, _, poller) = poll_event k s.worker.poller timeout in
      let kept =
        answer-Keeps read_of ready (record s { worker = record s.worker { poller = poller } }) e in
      record { storage = kept.storage; infos = kept.infos }

  round-Keeps :
      (worker_num : ℕ) (i : Input) (s : Round State) {r : Round State}
      → worker_round k worker_num i s ≡ some r
      → Keeps (arrive_and_take k i.arrived s) r
  unfolding worker_round
  round-Keeps worker_num i s e =
      poll-Keeps i.read_of (wait_time worker_num i.tested i.used) (arrive_and_take k i.arrived s) e

  -- `h` has the same queue as the crew, and the same records for each worker.
  record Matches (s : Crew State) (h : Storage State) : Type 0 where
    storage : h.storage ≡ s.storage
    infos : (j : ℕ) → (h.workers j).client_infos ≡ (s.workers j).client_infos
    put : h.put ≡ s.arrived

  module _ (worker_num : ℕ) {first : Storage State} where
    -- What a worker of the queue's relation does for a round, by what it finds.
    round-Matches :
        (j : ℕ) (xs : List ClientInfo) (s : Crew State) (i : Input) {r : Round State}
        {h : Storage State}
        → s.storage ++ i.arrived ≡ xs
        → h.storage ≡ xs
        → Keeps (arrive_and_take k i.arrived (round_of k worker_num j s)) r
        → Handover.Reach (add_to k) first h
        → Matches s h
        → (h' : Storage State) × Handover.Reach (add_to k) first h'
          × Matches (with_round k worker_num j r s) h'
    round-Matches j [] s i {r} {h} e e' kept run m = (
      h,
      run,
      record {
        storage = e' ∙ sym (kept.storage ∙ ap (λ ys. (take_first (add_to k) ys (s.workers j)).0) e);
        infos = λ l. ground (
          arith,
          m.infos l,
          m.infos j,
          kept.infos ∙ ap (λ ys. (take_first (add_to k) ys (s.workers j)).1.client_infos) e,
        );
        put = m.put;
      },
    )
    round-Matches j (c ∷ cs) s i {r} {h} e e' kept run m = (
      _,
      Handover.next run (Handover.take_out j e'),
      record {
        storage =
            ap (λ ys. (take_first (add_to k) ys (h.workers j)).0) e'
            ∙ sym (kept.storage ∙ ap (λ ys. (take_first (add_to k) ys (s.workers j)).0) e);
        infos = λ l. ground (
          arith,
          m.infos l,
          m.infos j,
          kept.infos ∙ ap (λ ys. (take_first (add_to k) ys (s.workers j)).1.client_infos) e,
          e',
        );
        put = m.put;
      },
    )

    Step-Matches :
        {s t : Crew State} {h : Storage State}
        → Step k worker_num s t
        → Handover.Reach (add_to k) first h
        → Matches s h
        → (h' : Storage State) × Handover.Reach (add_to k) first h' × Matches t h'
    Step-Matches {s} (arrive c) run m = (
      _,
      Handover.next run (Handover.put_in c),
      record {
        storage = ap (put_client c) m.storage;
        infos = m.infos;
        put = ap (λ xs. xs ++ (c ∷ [])) m.put;
      },
    )
    Step-Matches {s} {h = h} (round j i lt none_new e) run m =
        let same = ap (λ xs. s.storage ++ xs) none_new ∙ append-nil s.storage in
        round-Matches j (s.storage ++ i.arrived) s i refl (m.storage ∙ sym same)
          (round-Keeps worker_num i (round_of k worker_num j s) e) run m

    Reach-Matches :
        {s t : Crew State} {h : Storage State}
        → Reach k worker_num s t
        → Handover.Reach (add_to k) first h
        → Matches s h
        → (h' : Storage State) × Handover.Reach (add_to k) first h' × Matches t h'
    Reach-Matches here run m = (_, run, m)
    Reach-Matches (next r st) run m =
        let (h, run', m') = Reach-Matches r run m in Step-Matches st run' m'

  -- No client has come, and no worker has a record.
  pub record IsEmpty (s : Crew State) : Type 0 where
    pub no_clients : s.storage ≡ []
    pub no_infos : (j : ℕ) → (s.workers j).client_infos ≡ []
    pub none_arrived : s.arrived ≡ []

  -- From a crew that holds no client, whatever the order of arrivals and of the workers' rounds, and
  -- whatever the polls, the reads and the numbers of available workers are in them: the clients that
  -- have arrived are those that have been taken, in the order of arrival, and those in the queue. Each
  -- has been taken by one worker, and the `client_infos` of a worker are the clients that it has
  -- taken, entered in that order.
  pub crew_hands_over :
      (worker_num : ℕ) {s t : Crew State}
      → IsEmpty s
      → Reach k worker_num s t
      → (taken : List (ℕ × ClientInfo)) × (t.arrived ≡ clients taken ++ t.storage)
        × ((j : ℕ) → (t.workers j).client_infos ≡ insert_all (taken_by j taken) [])
  crew_hands_over worker_num {s} {t} empty r =
      let start : Storage State = record {
        storage = [];
        workers = s.workers;
        put = [];
        taken = [];
      } in
      let (h, run, m) = Reach-Matches worker_num {first = start} r Handover.here (record {
        storage = sym empty.no_clients;
        infos = λ j. refl;
        put = sym empty.none_arrived;
      }) in
      let (put, tables) =
        clients_handed_over (add_to k)
          (record {
            no_clients = refl;
            no_infos = empty.no_infos;
            none_put = refl;
            none_taken = refl;
          })
          run in
      (
        h.taken,
        sym m.put ∙ put ∙ ap (λ xs. clients h.taken ++ xs) m.storage,
        λ j. sym (m.infos j) ∙ tables j,
      )
