-- ===== src/Programs/Pipe.antt =====
-- The pipe test of main.cpp: `event_str2`, the callback and the loop of `epoll_pipe`.
pub mod Ends
mod Tests
use Prim.Native.Nat.{bit_or}
use nonblocking_io.Common.{
  ℕ, ◌+◌, ◌-◌, Bool, true, false, not, ◌&&◌, Option, none, some, List, [], ◌∷◌, ◌++◌, ltb,
  if◌then◌else◌, ℤ, pos, negsuc, ltb_ℤ, length, bytes,
}
use nonblocking_io.Epoll.{has, Event, epollin, epollhup, epollerr, is_minus_one}
use nonblocking_io.WorkerPool.Available.{dec_ℤ}
use nonblocking_io.WorkerPool.EventStr.{put_if}

unfoldable pub event_str2 : (str : List ℕ) → (events : ℕ) → Option (List ℕ)
unfolding bytes
event_str2 str events =
    put_if (has events epollerr) (length (bytes "epoll in ") + length (bytes "epoll hup "))
      (bytes "epoll err ")
      (put_if (has events epollhup) (length (bytes "epoll in ")) (bytes "epoll hup ")
        (put_if (has events epollin) 0 (bytes "epoll in ") (some str)))

-- `open_fd`; the descriptors read, with what `read` gave; and whether the process has ended itself.
pub record Pipe : Type 0 where
  pub open_fd : ℤ
  pub reads : List (ℕ × ℤ)
  pub aborted : Bool

-- `check_print_abt` on what `read` returned, before the print.
abbrev pub on_read : ℕ → ℤ → Pipe → Pipe
on_read fd n p =
    if is_minus_one n
    then record p { aborted = true }
    else record p { reads = p.reads ++ ((fd, n) ∷ []) }

-- One event, with what `read` returns if it is called.
abbrev pub pipe_event : Event → ℤ → Pipe → Pipe
pipe_event e n p =
    if has e.events epollin
    then on_read e.fd n p
    else if has e.events (bit_or epollhup epollerr)
    then record p { open_fd = dec_ℤ p.open_fd }
    else p

unfoldable pub pipe_callback : List (Event × ℤ) → Pipe → Pipe
pipe_callback [] p = p
pipe_callback ((e, n) ∷ rest) p =
    let done = pipe_callback rest (pipe_event e n p) in
    if (pipe_event e n p).aborted then pipe_event e n p else done

-- The loop of `thread_poll`, over what its polls deliver.
unfoldable pub thread_poll : List (List (Event × ℤ)) → Pipe → Pipe
unfolding pipe_callback
thread_poll [] p = p
thread_poll (batch ∷ batches) p =
    let rest = thread_poll batches (pipe_callback batch p) in
    if not p.aborted && ltb_ℤ (pos 0) p.open_fd then rest else p

-- The loop that opens the files of the arguments, over what `open` returns: the descriptors for which
-- `add_event` is called, and whether `check_print_abt` has ended the process.
unfoldable pub open_files : List ℤ → List ℤ × Bool
open_files [] = ([], false)
open_files (fd ∷ fds) =
    let (rest, ended) = open_files fds in if is_minus_one fd then ([], true) else (fd ∷ rest, ended)

-- `epoll_pipe`, with what `epoll_create1` returns, what `open` returns for each argument but the
-- first, and what the polls deliver; `none` is the usage.
abbrev pub pipe_of : (argc : ℕ) → List ℤ × Bool → List (List (Event × ℤ)) → Pipe
pipe_of argc (fds, true) batches = record { open_fd = pos 0; reads = []; aborted = true }
pipe_of argc (fds, false) batches =
    thread_poll batches (record { open_fd = pos (argc - 1); reads = []; aborted = false })

unfoldable pub epoll_pipe :
    (argc : ℕ) (help : Bool) (epoll_fd : ℤ) → List ℤ → List (List (Event × ℤ)) → Option Pipe
unfolding thread_poll open_files
epoll_pipe argc help epoll_fd opened batches =
    if ltb argc 2
    then none
    else if help
    then none
    else if is_minus_one epoll_fd
    then some (record { open_fd = pos 0; reads = []; aborted = true })
    else some (pipe_of argc (open_files opened) batches)
