-- ===== src/AsyncSigio/Tests.antt =====
-- Two instances of which one is gone.
use nonblocking_io.Common.{◌≡◌, true, List, [], ◌∷◌, ◌++◌}
use nonblocking_io.AsyncSigio.{Sigio, Instance, async_sigio_handler}
use nonblocking_io.AsyncSigio.Registry.{Op, made, gone, run_ops, calls_of, handler_calls_all}

abbrev keyboard : Instance
keyboard = record { async_fd = 0; callback = 7; perror = true }

abbrev ops : List Op
ops = made keyboard ∷ gone keyboard ∷ made (record keyboard { callback = 8 }) ∷ []

abbrev no_callbacks : Sigio
no_callbacks = record { callbacks = []; closed = [] }

handler_calls_all_example :
    async_sigio_handler 29 (run_ops ops no_callbacks)
    ≡ async_sigio_handler 29 no_callbacks ++ calls_of ops 29
handler_calls_all_example = handler_calls_all ops no_callbacks 29
