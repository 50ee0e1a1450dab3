-- ===== src/Service/Tables.antt =====
-- Which worker's `client_infos` has a client that a worker has taken.
use mathlib.Core.List.{map}
use nonblocking_io.Common.{
  ℕ, ◌^◌, ◌≤◌, ◌<◌, ◌≡◌, ◌≢◌, refl, ap, ◌∙◌, ◌⊎◌, inl, inr, Bool, false, Option, none, some, List,
  [], ◌∷◌, arith, ◌==◌, if◌then◌else◌, All, lookup, lookup-insert_all,
}
use nonblocking_io.ThreadPool.{Task, Pool}
use nonblocking_io.ThreadPool.Invariant.{IsNew}
use nonblocking_io.ThreadPool.System.Invariant.{count}
use nonblocking_io.WorkerPool.{ClientInfo}
use nonblocking_io.WorkerPool.Handover.{Storage, IsEmpty, clients, taken_by, clients_handed_over}
use nonblocking_io.Server.Burst.{task_of}
use nonblocking_io.Service.{Service, Reach, initial}
use nonblocking_io.Service.Conserved.{clients_conserved, store-Reach}

-- No two clients of a list have the same descriptor.
abbrev pub AllDistinct : List ClientInfo → Type 0
AllDistinct [] = Unit {0}
AllDistinct (c ∷ cs) = All (λ d. c.fd ≢ d.fd) cs × AllDistinct cs

-- Worker `j` has taken the client `c`.
abbrev pub TakenBy : ℕ → ClientInfo → List (ℕ × ClientInfo) → Type 0
TakenBy j c [] = ⊥
TakenBy j c ((i, d) ∷ rest) = ((i ≡ j) × (d ≡ c)) ⊎ TakenBy j c rest

abbrev has_fd : ℕ → Option ℕ → Bool
has_fd k none = false
has_fd k (some fd) = fd == k

abbrev with_fd : ℕ → Task → Bool
with_fd k t = has_fd k t.fun

-- How many clients have the descriptor `k`.
abbrev fd_count : ℕ → List ClientInfo → ℕ
fd_count k cs = count (with_fd k) (map task_of cs)

fd_count_none : (k : ℕ) (cs : List ClientInfo) → All (λ d. k ≢ d.fd) cs → fd_count k cs ≡ 0
fd_count_none k [] h = refl
fd_count_none k (c ∷ cs) (h, hs) = ground (arith, h, fd_count_none k cs hs)

AllDistinct-count : (k : ℕ) (cs : List ClientInfo) → AllDistinct cs → fd_count k cs ≤ 1
AllDistinct-count k [] h = omega arith
AllDistinct-count k (c ∷ cs) (h, hs) =
    ground (arith, AllDistinct-count k cs hs, ap (λ fd. fd_count fd cs), fd_count_none c.fd cs h)

absent :
    (i k : ℕ) (taken : List (ℕ × ClientInfo))
    → fd_count k (clients taken) ≡ 0
    → lookup k (taken_by i taken) ≡ none
unfolding lookup
absent i k [] h = refl
absent i k ((j, d) ∷ rest) h = ground (arith, h, absent i k rest)

TakenBy-count :
    (j : ℕ) (c : ClientInfo) (taken : List (ℕ × ClientInfo))
    → TakenBy j c taken
    → 0 < fd_count c.fd (clients taken)
TakenBy-count j c [] t = absurd t
TakenBy-count j c ((h, d) ∷ rest) (inl (here, is_c)) =
    ground (arith, ap (λ (x : ClientInfo). x.fd) is_c)
TakenBy-count j c ((h, d) ∷ rest) (inr later) = ground (arith, TakenBy-count j c rest later)

present :
    (i j : ℕ) (c : ClientInfo) (taken : List (ℕ × ClientInfo))
    → ((k : ℕ) → fd_count k (clients taken) ≤ 1)
    → TakenBy j c taken
    → lookup c.fd (taken_by i taken) ≡ (if i == j then some c else none)
unfolding lookup
present i j c [] once t = absurd t
present i j c ((h, d) ∷ rest) once (inl (here, is_c)) =
    ground (arith, absent i c.fd rest, once c.fd, is_c, here, ap (λ (x : ClientInfo). x.fd) is_c)
present i j c ((h, d) ∷ rest) once (inr later) = ground (
  arith,
  present i j c rest (λ k. omega (arith, once k)) later,
  once c.fd,
  TakenBy-count j c rest later,
)

module _ {Poller : Type 0} (add_event : Poller → (fd events : ℕ) → Poller) (n : ℕ) where
  -- From a new thread pool with fewer than 32768 threads and empty workers, whatever the
  -- interleaving, as long as no two clients that the server has submitted have the same descriptor: a
  -- client that worker `j` has taken stands under its descriptor in the `client_infos` of that worker,
  -- with its own data, and no other worker has an entry for that descriptor.
  pub table_entry :
      {p : Pool} {store : Storage Poller} {s : Service Poller} (i j : ℕ) (c : ClientInfo)
      → n < 2 ^ 15
      → IsNew p
      → IsEmpty add_event store
      → Reach add_event n (initial p store) s
      → AllDistinct s.server.submitted
      → TakenBy j c s.store.taken
      → lookup c.fd (s.store.workers i).client_infos ≡ (if i == j then some c else none)
  unfolding lookup
  table_entry {p} {store} {s} i j c few new empty r distinct taken =
      ap (lookup c.fd) ((clients_handed_over add_event empty (store-Reach add_event n r)).1 i)
      ∙ lookup-insert_all c.fd (taken_by i s.store.taken) []
      ∙ present i j c s.store.taken
          (λ k. omega (
            arith,
            clients_conserved add_event n (with_fd k) few new empty r,
            AllDistinct-count k s.server.submitted distinct,
          ))
          taken
