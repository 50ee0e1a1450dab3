-- ===== src/Server/Burst.antt =====
-- What becomes of the clients that the accept loop submits before a thread takes one: the calls of
-- `worker_pool.submit` in tcp_server.cpp, through the worker pool to the ring of the thread pool.
mod Tests
use mathlib.Core.Path.{subst}
use mathlib.Core.List.{map}
use nonblocking_io.Common.{
  ℕ, ◌+◌, ◌≤◌, ◌<◌, ◌≡◌, refl, sym, ap, ◌∙◌, Bool, true, false, Option, none, some, List, [], ◌∷◌,
  ◌++◌, append_assoc, append-nil, arith, length, length-append, take, take-append, take-all,
  Bool-cases, inl, inr, ◌==◌, if◌then◌else◌,
}
use nonblocking_io.ThreadPool.{Task, Pool, SubmitCalls}
use nonblocking_io.ThreadPool.Invariant.{IsValid}
use nonblocking_io.ThreadPool.Fifo.{Queue, view, offer, contents, length-contents}
use nonblocking_io.WorkerPool
use nonblocking_io.WorkerPool.{ClientInfo, WorkerPool}
use nonblocking_io.WorkerPool.Laws.{submit-offer}

-- The closure over a client is named by the client's descriptor.
abbrev pub task_of : ClientInfo → Task
task_of info = record { fun = some info.fd; args = none }

module _ {Poller : Type 0} (cpu_core : ℕ) (spawn : ℕ → Option ℕ) (calls : SubmitCalls) where
  unfoldable pub submit_clients :
      List ClientInfo → WorkerPool Poller × Pool → Option (WorkerPool Poller × Pool)
  submit_clients [] s = some s
  submit_clients (info ∷ infos) (p, threads) =
      elim (WorkerPool.submit cpu_core spawn calls info.fd p threads) [
        | none ↦ none
        | some s ↦ submit_clients infos s
      ]

-- An open queue that is not past its bound.
record IsOpen (q : Queue) : Type 0 where
  room : length q.items ≤ q.bound
  open_now : q.closed ≡ false

offer-IsOpen : (t : Task) {q : Queue} → IsOpen q → IsOpen (offer t q).1
unfolding offer
offer-IsOpen t {q} h = record {
  room = ground (arith, h.room, h.open_now, length-append q.items (t ∷ []));
  open_now = ground (arith, h.open_now);
}

offer_bound : (t : Task) (q : Queue) → (offer t q).1.bound ≡ q.bound
unfolding offer
offer_bound t q = ground arith

-- An offer, and then what comes later, up to the bound.
offer_taken :
    (t : Task) {q : Queue} (later : List Task)
    → IsOpen q
    → take q.bound ((offer t q).1.items ++ later) ≡ take q.bound (q.items ++ (t ∷ later))
unfolding offer
offer_taken t {q} later h = elim (Bool-cases (length q.items == q.bound)) [
  | inl full ↦ rw full (full_lem (ground (arith, full)))
  | inr space ↦ rw (space, h.open_now) (ap (take q.bound) (append_assoc q.items (t ∷ []) later))
]
  where
    full_lem :
        length q.items ≡ q.bound
        → take q.bound (q.items ++ later) ≡ take q.bound (q.items ++ (t ∷ later))
    full_lem e =
        ap (λ n. take n (q.items ++ later)) (sym e)
        ∙ take-append q.items later
        ∙ sym (take-append q.items (t ∷ later))
        ∙ ap (λ n. take n (q.items ++ (t ∷ later))) e

module _ {Poller : Type 0} (cpu_core : ℕ) (spawn : ℕ → Option ℕ) (calls : SubmitCalls) where
  submitted_taken :
      (infos : List ClientInfo) (p : WorkerPool Poller) {threads : Pool}
      → p.started ≡ true
      → IsValid threads
      → IsOpen (view threads)
      → calls.lock ≡ true
      → (r : WorkerPool Poller × Pool) × (submit_clients cpu_core spawn calls infos (p, threads)
          ≡ some r)
        × (r.0 ≡ p)
        × (contents r.1 ≡ take threads.queue_size (contents threads ++ map task_of infos))
  unfolding submit_clients
  submitted_taken [] p {threads} on v open_now lock = (
    (p, threads),
    refl,
    refl,
    sym (
        ap (take threads.queue_size) (append-nil (contents threads))
        ∙ take-all (contents threads) threads.queue_size open_now.room),
  )
  submitted_taken (info ∷ infos) p {threads} on v open_now lock =
      let ((p', threads'), e, same, valid, viewed) =
        submit-offer cpu_core spawn calls info.fd p on v lock in
      let still : IsOpen (view threads') =
        subst IsOpen (sym viewed) (offer-IsOpen (task_of info) open_now) in
      let (r, e', same', taken) =
        submitted_taken infos p' (ap (λ w. w.started) same ∙ on) valid still lock in
      (
        r,
        rw (submit_clients, e) e',
        same' ∙ same,
        taken
            ∙ ap (λ n. take n (contents threads' ++ map task_of infos))
                (ap (λ q. q.bound) viewed ∙ offer_bound (task_of info) (view threads))
            ∙ ap (λ q. take threads.queue_size (q.items ++ map task_of infos)) viewed
            ∙ offer_taken (task_of info) (map task_of infos) open_now,
      )

  -- With a started worker pool, over a valid thread pool that is open and whose lock can be taken,
  -- and while no thread takes a task: after any clients are submitted, the ring holds what it held
  -- and then the clients' tasks in their order, cut off at the size of the ring. The clients behind
  -- that are lost, and the worker pool does not tell.
  pub burst_kept :
      (infos : List ClientInfo) (p : WorkerPool Poller) {threads : Pool}
      → p.started ≡ true
      → IsValid threads
      → threads.shutdown ≡ false
      → calls.lock ≡ true
      → (r : WorkerPool Poller × Pool) × (submit_clients cpu_core spawn calls infos (p, threads)
          ≡ some r)
        × (r.0 ≡ p)
        × (contents r.1 ≡ take threads.queue_size (contents threads ++ map task_of infos))
  burst_kept infos p {threads} on v open_now lock =
      submitted_taken infos p on v
        (record { room = omega (arith, length-contents threads, v.count_in); open_now = open_now })
        lock
