-- ===== src/Server/Startup.antt =====
-- tcp_server.cpp, `startup`: the address of the host, and the calls up to the loop.
use nonblocking_io.Common.{
  ℕ, ◌*◌, ◌≡◌, refl, ◌||◌, Option, none, some, List, [], ◌∷◌, ◌++◌, arith, if◌then◌else◌, ℤ, pos,
  negsuc, bytes, htonl, htons, same_text, not_same, take, zero, suc, All, ◌≢◌,
}
use nonblocking_io.Epoll.{is_minus_one}
use nonblocking_io.Server.{server_max_connection}

abbrev pub inaddr_any : ℕ
inaddr_any = 0

abbrev pub inaddr_loopback : ℕ
inaddr_loopback = 0x7f000001

-- The bytes of a host that is not null; the tests of `startup` in their order.
abbrev pub text_address : (inet_addr : List ℕ → ℕ) → List ℕ → ℕ
text_address inet_addr host =
    if same_text host []
      || same_text host (bytes "0.0.0.0")
      || same_text host (bytes "0")
      || same_text host (bytes "*")
    then htonl inaddr_any
    else if same_text host (bytes "localhost")
    then htonl inaddr_loopback
    else inet_addr host

unfoldable pub host_address : (inet_addr : List ℕ → ℕ) → Option (List ℕ) → ℕ
host_address inet_addr none = htonl inaddr_any
host_address inet_addr (some host) = text_address inet_addr host

-- What `startup` does, in order.
pub data Call : Type 0 where
  open_socket : Call
  set_reuse_address : Call
  set_send_buffer : (size : ℕ) → Call
  bind_to : (address port : ℕ) → Call
  set_non_block : Call
  listen_for : (backlog : ℕ) → Call
  start_workers : Call
  poll : Call
  abort : Call

-- What the calls that are checked return.
pub record Results : Type 0 where
  pub socket : ℤ
  pub bind : ℤ
  pub non_block : ℤ
  pub listen : ℤ

-- `CHECK_PERROR_ABT(result, ...)`, before what comes next.
abbrev pub check_abort : ℤ → List Call → List Call
check_abort (pos n) next = next
check_abort (negsuc zero) next = abort ∷ []
check_abort (negsuc (suc n)) next = next

-- `startup`. `poll_for_connect` does not return.
unfoldable pub startup_calls :
    (inet_addr : List ℕ → ℕ) (host : Option (List ℕ)) (port : ℕ) → Results → List Call
unfolding host_address
startup_calls inet_addr host port r =
    open_socket
    ∷ check_abort r.socket (
        set_reuse_address
        ∷ set_send_buffer (512 * 1024)
        ∷ bind_to (host_address inet_addr host) (htons port)
        ∷ check_abort r.bind (
            set_non_block
            ∷ check_abort r.non_block (
                listen_for server_max_connection
                ∷ check_abort r.listen (start_workers ∷ poll ∷ []))))

-- The whole sequence.
abbrev pub all_calls : (address port : ℕ) → List Call
all_calls address port =
    open_socket
    ∷ set_reuse_address
    ∷ set_send_buffer 524288
    ∷ bind_to address port
    ∷ set_non_block
    ∷ listen_for 2048
    ∷ start_workers
    ∷ poll
    ∷ []

-- How many calls have been made when the first of the checked ones fails.
abbrev pub first_failure : Results → Option ℕ
first_failure r =
    if is_minus_one r.socket
    then some 1
    else if is_minus_one r.bind
    then some 4
    else if is_minus_one r.non_block
    then some 5
    else if is_minus_one r.listen
    then some 6
    else none

-- What is run for a first failure, or none.
abbrev pub stopped_at : Option ℕ → List Call → List Call
stopped_at none calls = calls
stopped_at (some k) calls = take k calls ++ (abort ∷ [])

check_abort_if :
    (r : ℤ) (next : List Call) → check_abort r next ≡ (if is_minus_one r then abort ∷ [] else next)
check_abort_if (pos n) next = refl
check_abort_if (negsuc zero) next = refl
check_abort_if (negsuc (suc n)) next = refl

-- `startup` makes its eight calls in order and ends with an abort directly behind the first call that
-- gives -1: the workers are started and connections polled only after the socket, the bind, the
-- non-blocking mode and the listen have all succeeded.
startup_stops :
    (inet_addr : List ℕ → ℕ) (host : Option (List ℕ)) (port : ℕ) (r : Results)
    → startup_calls inet_addr host port r
      ≡ stopped_at (first_failure r) (all_calls (host_address inet_addr host) (htons port))
unfolding startup_calls
startup_stops inet_addr host port r = ground (
  arith,
  check_abort_if r.socket,
  check_abort_if r.bind,
  check_abort_if r.non_block,
  check_abort_if r.listen,
)

-- The texts of a host that stand for all addresses.
abbrev pub any_texts : List (List ℕ)
any_texts = [] ∷ bytes "0.0.0.0" ∷ bytes "0" ∷ bytes "*" ∷ []

-- A null host, the empty text, "0.0.0.0", "0" and "*" mean the address 0, any; "localhost" means
-- 127.0.0.1, as the bytes 7f 00 00 01 of a little-endian processor; every other text is what
-- `inet_addr` makes of it.
host_address_cases :
    (inet_addr : List ℕ → ℕ)
    → (host_address inet_addr none ≡ 0)
      × All (λ text. host_address inet_addr (some text) ≡ 0) any_texts
      × (host_address inet_addr (some (bytes "localhost")) ≡ 0x0100007f)
      × ((text : List ℕ)
          → All (λ t. text ≢ t) any_texts
          → text ≢ bytes "localhost"
          → host_address inet_addr (some text) ≡ inet_addr text)
unfolding host_address same_text bytes
host_address_cases inet_addr = (
  refl,
  (refl, (refl, (refl, (refl, tt)))),
  refl,
  λ text (a, (b, (c, (d, _)))) e.
      rw (not_same a, not_same b, not_same c, not_same d, not_same e) refl,
)
