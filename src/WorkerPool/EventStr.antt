-- ===== src/WorkerPool/EventStr.antt =====
-- `event_str` of tcp_worker_pool.cpp, the text of an event's bits.
pub mod Shown
use nonblocking_io.Common.{
  ℕ, ◌+◌, Bool, Option, none, some, List, length, bytes, write_text, if◌then◌else◌,
}
use nonblocking_io.Epoll.{has, epollin, epollhup, epollerr, epollrdhup}

-- `if (bit) strcpy(p, text)`, with `p` at `offset`; `none` is a write past the end.
abbrev pub put_if : Bool → (offset : ℕ) → (text : List ℕ) → Option (List ℕ) → Option (List ℕ)
put_if bit offset text none = none
put_if bit offset text (some str) = if bit then write_text offset text str else some str

-- `p` moves on whether or not a text has been copied. `str` is what `new char[128]` gives.
unfoldable pub event_str : (str : List ℕ) → (events : ℕ) → Option (List ℕ)
unfolding bytes
event_str str events =
    put_if (has events epollrdhup)
      (length (bytes "epoll in ") + length (bytes "epoll hup ") + length (bytes "epoll err"))
      (bytes "epoll hup")
      (put_if (has events epollerr) (length (bytes "epoll in ") + length (bytes "epoll hup "))
        (bytes "epoll err ")
        (put_if (has events epollhup) (length (bytes "epoll in ")) (bytes "epoll hup ")
          (put_if (has events epollin) 0 (bytes "epoll in ") (some str))))
