-- ===== src/ErrorMap/Domain.antt =====
-- Which error numbers have a text.
use nonblocking_io.Common.{is_some, ℕ, ◌≡◌, ◌&&◌, arith, leb, lookup, lookup-insert_all, []}
use nonblocking_io.ErrorMap.{error_entries, error_map, errmap_find}

-- The map answers as the list of the entries does.
errmap_find-eq-lookup : (code : ℕ) → errmap_find code ≡ lookup code error_entries
unfolding errmap_find error_map lookup
errmap_find-eq-lookup code = lookup-insert_all code error_entries []

-- There is a text exactly for the error numbers 1 to 34, `EPERM` to `ERANGE`.
pub errmap_find-domain : (code : ℕ) → is_some (errmap_find code) ≡ (leb 1 code && leb code 34)
unfolding lookup
errmap_find-domain code = ground (arith, errmap_find-eq-lookup code)
