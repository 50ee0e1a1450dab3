-- ===== src/Descriptors/Tests.antt =====
-- Nested scopes over a table.
use nonblocking_io.Common.{◌≡◌, refl, Bool, true, false, some, List, [], ◌∷◌}
use nonblocking_io.Descriptors.{tcp_client, epoll_wrapper, scopes}
use nonblocking_io.Descriptors.Scopes.{scopes_restore}
use nonblocking_io.Descriptors.Lowest.{bit, table, table-IsTable}

-- The standard streams are open, and 4.
abbrev some_open : List Bool
some_open = true ∷ true ∷ true ∷ false ∷ true ∷ []

scopes-some :
    scopes table (tcp_client ∷ epoll_wrapper ∷ tcp_client ∷ []) some_open
    ≡ some (true ∷ true ∷ true ∷ false ∷ true ∷ false ∷ false ∷ [])
unfolding scopes
scopes-some = refl

scopes_restore_example :
    bit (true ∷ true ∷ true ∷ false ∷ true ∷ false ∷ false ∷ []) 5 ≡ bit some_open 5
scopes_restore_example =
    scopes_restore table table-IsTable (tcp_client ∷ epoll_wrapper ∷ tcp_client ∷ []) some_open _ 5
      scopes-some
