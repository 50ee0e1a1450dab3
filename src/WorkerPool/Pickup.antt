-- ===== src/WorkerPool/Pickup.antt =====
-- How a worker comes to a client in `worker_routine` of tcp_worker_pool.cpp, and a task to its
-- place in the queue in `submit`: `event_storage_` is looked at without the lock, and again with
-- it. Each access to what the threads share is a step of its own, and `pop` and `emplace` are a
-- read and a write.
pub mod Sections
pub mod Locked
mod Tests
use nonblocking_io.Common.{
  ℕ, ◌<◌, ◌≡◌, Bool, true, false, some, List, [], ◌∷◌, ◌++◌, update, ◌==◌, if◌then◌else◌, insert,
}
use nonblocking_io.WorkerSync.{Mutex, lock, unlock}
use nonblocking_io.WorkerPool.{ClientInfo, put_client}
use nonblocking_io.WorkerPool.Handover.{Storage}

-- Where a thread stands. A worker: outside; behind its first look at the queue, which held a client;
-- with the lock; behind its second look; with a copy of the front; within `pop`, which has read the
-- queue and not yet changed it; with the client out of the queue; with the client in `client_infos`;
-- and about to give the lock back. A thread of the pool: at the end of a task with a client; with the
-- lock; within `emplace`, which has read the queue; and about to give the lock back.
pub data Pc : Type 0 where
  outside : Pc
  seen : Pc
  held : Pc
  facing : Pc
  fronted : ClientInfo → Pc
  popping : ClientInfo → List ClientInfo → Pc
  recording : ClientInfo → Pc
  watching : ClientInfo → Pc
  bringing : ClientInfo → Pc
  storing : ClientInfo → Pc
  emplacing : ClientInfo → List ClientInfo → Pc
  leaving : Pc

-- `faulted` is a `front` or `pop` of an empty queue, which is undefined.
pub record Pickup (Poller : Type 0) : Type 0 where
  pub mutex : Mutex
  pub store : Storage Poller
  pub pc : ℕ → Pc
  pub faulted : Bool

abbrev pub after_look : List ClientInfo → Pc
after_look [] = outside
after_look (c ∷ cs) = seen

abbrev pub after_second_look : List ClientInfo → Pc
after_second_look [] = leaving
after_second_look (c ∷ cs) = facing

module _ {Poller : Type 0} where
  -- Worker `i` has taken the client `c` out; the queue is what `pop` has made of the one it read.
  abbrev pub removed : ℕ → ClientInfo → List ClientInfo → Storage Poller → Storage Poller
  removed i c rest s = record s { storage = rest; taken = s.taken ++ ((i, c) ∷ []) }

  -- `client_infos.insert` of worker `i`
  abbrev pub recorded : ℕ → ClientInfo → Storage Poller → Storage Poller
  recorded i c s = record s {
    workers = λ j.
        if j == i
        then record (s.workers j) { client_infos = insert c.fd c (s.workers j).client_infos }
        else s.workers j;
  }

  -- The queue is what `emplace` has made of the one it read.
  abbrev pub stored : ClientInfo → List ClientInfo → Storage Poller → Storage Poller
  stored c storage s = record s { storage = put_client c storage; put = s.put ++ (c ∷ []) }

module _ {Poller : Type 0} (add_event : Poller → (fd events : ℕ) → Poller) where
  -- `poller_.add_event` of worker `i`
  abbrev pub watched : ℕ → ClientInfo → Storage Poller → Storage Poller
  watched i c s = record s {
    workers = λ j.
        if j == i
        then record (s.workers j) { poller = add_event (s.workers j).poller c.fd c.events }
        else s.workers j;
  }

  pub data Step (n : ℕ) (s : Pickup Poller) : Pickup Poller → Type 0 where
    look :
        (i : ℕ)
        → i < n
        → s.pc i ≡ outside
        → Step n s (record s { pc = update s.pc i (after_look s.store.storage) })
    acquire :
        (i : ℕ) {m : Mutex}
        → i < n
        → s.pc i ≡ seen
        → lock s.mutex ≡ some m
        → Step n s (record s { mutex = m; pc = update s.pc i held })
    look_again :
        (i : ℕ)
        → i < n
        → s.pc i ≡ held
        → Step n s (record s { pc = update s.pc i (after_second_look s.store.storage) })
    front :
        (i : ℕ) {c : ClientInfo} {cs : List ClientInfo}
        → i < n
        → s.pc i ≡ facing
        → s.store.storage ≡ c ∷ cs
        → Step n s (record s { pc = update s.pc i (fronted c) })
    front_empty :
        (i : ℕ)
        → i < n
        → s.pc i ≡ facing
        → s.store.storage ≡ []
        → Step n s (record s { faulted = true })
    begin_pop :
        (i : ℕ) {c : ClientInfo}
        → i < n
        → s.pc i ≡ fronted c
        → Step n s (record s { pc = update s.pc i (popping c s.store.storage) })
    pop :
        (i : ℕ) {c d : ClientInfo} {ds : List ClientInfo}
        → i < n
        → s.pc i ≡ popping c (d ∷ ds)
        → Step n s (record s { store = removed i c ds s.store; pc = update s.pc i (recording c) })
    pop_empty :
        (i : ℕ) {c : ClientInfo}
        → i < n
        → s.pc i ≡ popping c []
        → Step n s (record s { faulted = true })
    insert_info :
        (i : ℕ) {c : ClientInfo}
        → i < n
        → s.pc i ≡ recording c
        → Step n s (record s { store = recorded i c s.store; pc = update s.pc i (watching c) })
    add :
        (i : ℕ) {c : ClientInfo}
        → i < n
        → s.pc i ≡ watching c
        → Step n s (record s { store = watched i c s.store; pc = update s.pc i leaving })
    release :
        (i : ℕ)
        → i < n
        → s.pc i ≡ leaving
        → Step n s (record s { mutex = unlock s.mutex; pc = update s.pc i outside })
    bring :
        (i : ℕ) (c : ClientInfo)
        → i < n
        → s.pc i ≡ outside
        → Step n s (record s { pc = update s.pc i (bringing c) })
    acquire_for :
        (i : ℕ) {c : ClientInfo} {m : Mutex}
        → i < n
        → s.pc i ≡ bringing c
        → lock s.mutex ≡ some m
        → Step n s (record s { mutex = m; pc = update s.pc i (storing c) })
    begin_emplace :
        (i : ℕ) {c : ClientInfo}
        → i < n
        → s.pc i ≡ storing c
        → Step n s (record s { pc = update s.pc i (emplacing c s.store.storage) })
    emplace :
        (i : ℕ) {c : ClientInfo} {storage : List ClientInfo}
        → i < n
        → s.pc i ≡ emplacing c storage
        → Step n s (record s { store = stored c storage s.store; pc = update s.pc i leaving })

  -- The lock is free, and no thread has begun.
  abbrev pub initial : Storage Poller → Pickup Poller
  initial store = record {
    mutex = record { taken = false };
    store = store;
    pc = λ _. outside;
    faulted = false;
  }

  pub data Reach (n : ℕ) (s : Pickup Poller) : Pickup Poller → Type 0 where
    here : Reach n s s
    next : {t u : Pickup Poller} → Reach n s t → Step n t u → Reach n s u
