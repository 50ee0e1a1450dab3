-- ===== src/Service/Opened/Tests.antt =====
-- `accept` gives the client the descriptor 5, and worker 0 takes it.
use nonblocking_io.Common.{
  ◌≡◌, refl, Bool, true, none, some, List, [], ◌∷◌, arith, inl, ◌==◌, if◌then◌else◌, All, lookup,
}
use nonblocking_io.Epoll.{epollin}
use nonblocking_io.Server.{on_event}
use nonblocking_io.WorkerPool.Samples.{add_one, nothing}
use nonblocking_io.Descriptors.{connection}
use nonblocking_io.Descriptors.Lowest.{bit, table, table-IsTable}
use nonblocking_io.Service.{initial}
use nonblocking_io.Service.Tests.{
  pool, pool-IsNew, client, taken, begun-Step, come-Step, in_hand-Step, over-Step, taken-Step,
}
use nonblocking_io.Service.Opened.{event, other, Reach, here, next, table_of_taken}

abbrev five_open : List Bool
five_open = true ∷ true ∷ true ∷ true ∷ true ∷ []

abbrev six_open : List Bool
six_open = true ∷ true ∷ true ∷ true ∷ true ∷ true ∷ []

taken-Reach : Reach add_one 1 table (initial pool nothing, five_open) (taken, six_open)
unfolding connection on_event
taken-Reach =
    next
      (next
        (next
          (next (next here (other begun-Step refl)) (event epollin (some 7) 5000 come-Step refl))
          (other in_hand-Step refl))
        (other over-Step refl))
      (other taken-Step refl)

table_of_taken_example :
    (lookup 5 (taken.store.workers 3).client_infos ≡ (if 3 == 0 then some client else none))
    × All (λ d. bit six_open d.fd ≡ true) taken.server.submitted
table_of_taken_example =
    table_of_taken add_one 1 table table-IsTable 3 0 client five_open (omega arith) pool-IsNew
      (record { no_clients = refl; no_infos = λ i. refl; none_put = refl; none_taken = refl })
      taken-Reach (inl (refl, refl))
