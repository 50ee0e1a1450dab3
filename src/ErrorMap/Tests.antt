-- ===== src/ErrorMap/Tests.antt =====
-- The table of error texts at some numbers.
use nonblocking_io.Common.{is_some, ◌≡◌, refl, Bool, true, false, ◌&&◌, Option, none, some, leb}
use nonblocking_io.ErrorMap.{errmap_find}

no_text : (errmap_find 0 ≡ none) × (errmap_find 35 ≡ none)
unfolding errmap_find nonblocking_io.Common.lookup nonblocking_io.ErrorMap.error_map
    nonblocking_io.Common.insert_all nonblocking_io.Common.insert
no_text = (refl, refl)
