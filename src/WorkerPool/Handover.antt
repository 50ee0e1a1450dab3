-- ===== src/WorkerPool/Handover.antt =====
-- `event_storage_` between the tasks that put clients in and the workers that take them out, each
-- under `locker_`.
use nonblocking_io.Common.{
  ℕ, ◌≡◌, refl, ap, sym, ◌∙◌, List, [], ◌∷◌, ◌++◌, append_assoc, append-nil, arith, insert,
  insert_all, insert_all-append, ◌==◌, if◌then◌else◌,
}
use nonblocking_io.WorkerPool.{ClientInfo, Worker, put_client, take_first}

-- A client as an entry of `client_infos`.
abbrev pub entry : ClientInfo → ℕ × ClientInfo
entry info = (info.fd, info)

-- Those of the clients taken that worker `i` has taken, in order, as entries.
abbrev pub taken_by : ℕ → List (ℕ × ClientInfo) → List (ℕ × ClientInfo)
taken_by i [] = []
taken_by i ((j, info) ∷ rest) = if i == j then entry info ∷ taken_by i rest else taken_by i rest

abbrev pub clients : List (ℕ × ClientInfo) → List ClientInfo
clients [] = []
clients ((j, info) ∷ rest) = info ∷ clients rest

-- The queue, the workers, and what has happened: the clients put in, and those taken out, each with
-- its worker.
pub record Storage (Poller : Type 0) : Type 0 where
  pub storage : List ClientInfo
  pub workers : ℕ → Worker Poller
  pub put : List ClientInfo
  pub taken : List (ℕ × ClientInfo)

clients-append :
    (xs : List (ℕ × ClientInfo)) (i : ℕ) (info : ClientInfo)
    → clients (xs ++ ((i, info) ∷ [])) ≡ clients xs ++ (info ∷ [])
clients-append [] i info = refl
clients-append ((j, c) ∷ xs) i info = ap (λ t. c ∷ t) (clients-append xs i info)

taken_by-append :
    (k : ℕ) (xs : List (ℕ × ClientInfo)) (i : ℕ) (info : ClientInfo)
    → taken_by k (xs ++ ((i, info) ∷ []))
      ≡ taken_by k xs ++ (if k == i then entry info ∷ [] else [])
taken_by-append k [] i info = ground arith
taken_by-append k ((j, c) ∷ xs) i info = ground (arith, taken_by-append k xs i info)

insert_all-last :
    (xs m : List (ℕ × ClientInfo)) (k : ℕ) (v : ClientInfo)
    → insert_all (xs ++ ((k, v) ∷ [])) m ≡ insert k v (insert_all xs m)
unfolding insert_all
insert_all-last xs m k v = insert_all-append xs ((k, v) ∷ []) m

module _ {Poller : Type 0} (add_event : Poller → (fd events : ℕ) → Poller) where
  pub data Step (s : Storage Poller) : Storage Poller → Type 0 where
    put_in :
        (info : ClientInfo)
        → Step s (record s { storage = put_client info s.storage; put = s.put ++ (info ∷ []) })
    take_out :
        (i : ℕ) {info : ClientInfo} {rest : List ClientInfo}
        → s.storage ≡ info ∷ rest
        → Step s (record s {
          storage = (take_first add_event s.storage (s.workers i)).0;
          workers =
              λ j. if j == i then (take_first add_event s.storage (s.workers j)).1 else s.workers j;
          taken = s.taken ++ ((i, info) ∷ []);
        })

  -- The workers hold no client yet.
  pub record IsEmpty (s : Storage Poller) : Type 0 where
    pub no_clients : s.storage ≡ []
    pub no_infos : (i : ℕ) → (s.workers i).client_infos ≡ []
    pub none_put : s.put ≡ []
    pub none_taken : s.taken ≡ []

  pub data Reach (s : Storage Poller) : Storage Poller → Type 0 where
    here : Reach s s
    next : {t u : Storage Poller} → Reach s t → Step t u → Reach s u

  record IsKept (s : Storage Poller) : Type 0 where
    fifo : s.put ≡ clients s.taken ++ s.storage
    infos : (i : ℕ) → (s.workers i).client_infos ≡ insert_all (taken_by i s.taken) []

  Step-IsKept : {s t : Storage Poller} → Step s t → IsKept s → IsKept t
  unfolding put_client
  Step-IsKept {s} (put_in info) k = record {
    fifo =
        ap (λ xs. xs ++ (info ∷ [])) k.fifo ∙ append_assoc (clients s.taken) s.storage (info ∷ []);
    infos = k.infos;
  }
  Step-IsKept {s} (take_out i {info} {rest} e) k = record {
    fifo =
        k.fifo
        ∙ ap (λ st. clients s.taken ++ st) e
        ∙ sym (append_assoc (clients s.taken) (info ∷ []) rest)
        ∙ ap (λ xs. xs ++ rest) (sym (clients-append s.taken i info))
        ∙ ap
            (λ st.
              clients (s.taken ++ ((i, info) ∷ [])) ++ (take_first add_event st (s.workers i)).0)
            (sym e);
    infos = λ j. ground (
      arith,
      e,
      k.infos j,
      taken_by-append j s.taken i info,
      insert_all-last (taken_by j s.taken) [] info.fd info,
      append-nil (taken_by j s.taken),
    );
  }

  Reach-IsKept : {s t : Storage Poller} → IsKept s → Reach s t → IsKept t
  Reach-IsKept k here = k
  Reach-IsKept k (next r st) = Step-IsKept st (Reach-IsKept k r)

  IsEmpty-IsKept : {s : Storage Poller} → IsEmpty s → IsKept s
  unfolding insert_all
  IsEmpty-IsKept {s} h = record {
    fifo = ground (arith, h.none_put, h.none_taken, h.no_clients);
    infos = λ i. ground (arith, h.no_infos i, h.none_taken);
  }

  -- From workers that hold no client, whatever the order of tasks and workers: the clients put in are
  -- those taken out, in the same order, and then those in the queue. Each is taken by one worker, and
  -- the `client_infos` of a worker are the clients that it has taken, entered in that order.
  pub clients_handed_over :
      {s t : Storage Poller}
      → IsEmpty s
      → Reach s t
      → (t.put ≡ clients t.taken ++ t.storage)
        × ((i : ℕ) → (t.workers i).client_infos ≡ insert_all (taken_by i t.taken) [])
  clients_handed_over h r = let k = Reach-IsKept (IsEmpty-IsKept h) r in (k.fifo, k.infos)
