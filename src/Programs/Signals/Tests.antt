-- ===== src/Programs/Signals/Tests.antt =====
-- A `#` in the second sleep, behind another byte.
use nonblocking_io.Common.{ℕ, ◌≡◌, true, none, List, [], ◌∷◌, ◌++◌, pos, negsuc}
use nonblocking_io.AsyncSigio.{Sigio, Instance, EnableCalls}
use nonblocking_io.Programs.Signals.{o_async_io, o_async_io_ends}

abbrev keyboard : Instance
keyboard = record { async_fd = 0; callback = 7; perror = true }

abbrev calls : EnableCalls
calls = record { sigaction = pos 0; set_own = pos 0; get_flags = pos 2; set_flags = λ f. pos 0 }

abbrev no_callbacks : Sigio
no_callbacks = record { callbacks = []; closed = [] }

abbrev rounds : List (List (List ℕ))
rounds = ((b'a' ∷ []) ∷ []) ∷ ((b'b' ∷ b'#' ∷ []) ∷ []) ∷ [] ∷ []

o_async_io_ends_example :
    let r = o_async_io keyboard calls none (λ t. negsuc 0) rounds no_callbacks in
    (r.waited.finish ≡ true)
    × (r.waited.lines ≡ 2)
    × (r.sigio.callbacks ≡ [] ++ (7 ∷ []))
    × (r.sigio.closed ≡ [] ++ (0 ∷ []))
o_async_io_ends_example = o_async_io_ends keyboard calls none (λ t. negsuc 0) rounds no_callbacks
