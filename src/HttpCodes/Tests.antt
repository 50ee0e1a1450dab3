-- ===== src/HttpCodes/Tests.antt =====
-- The table of status codes at some codes.
use nonblocking_io.Common.{is_some, ◌≡◌, refl, Bool, true, false, Option, none, some}
use nonblocking_io.HttpCodes.{http_codes_at}

some_codes : (http_codes_at 404 ≡ some "Not Found") × (http_codes_at 306 ≡ none)
unfolding http_codes_at nonblocking_io.Common.lookup nonblocking_io.HttpCodes.code_map
    nonblocking_io.Common.insert_all nonblocking_io.Common.insert
some_codes = (refl, refl)
