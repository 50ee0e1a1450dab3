-- ===== src/Programs/Options.antt =====
-- The options of example_tcpserver.cpp and example_tcpclient.cpp.
pub mod Last
mod Tests
use nonblocking_io.Common.{
  ℕ, ◌^◌, ◌%◌, Option, none, some, List, [], ◌∷◌, Bool, true, false, ltb, ◌==◌, if◌then◌else◌, ℤ,
  atoi, to_unsigned,
}
use nonblocking_io.WorkerPool.{WorkerPool, new_worker_pool}
use nonblocking_io.TcpClient.{Client, new_client, cnnto_server2}

-- What `getopt` returns before its -1: the character, and `optarg` if the pattern says that the option
-- takes one. An option that the pattern lacks, or one whose argument is missing, is '?'.
pub record Opt : Type 0 where
  pub char : ℕ
  pub optarg : List ℕ

pub record ServerOptions : Type 0 where
  pub thread_num : ℕ
  pub svr_port : ℕ

-- The cases of `main`; the last one prints the usage and goes on.
abbrev pub server_option : Opt → ServerOptions → ServerOptions
server_option o s =
    if o.char == b'n'
    then record s { thread_num = to_unsigned (2 ^ 32) (atoi o.optarg) }
    else if o.char == b'p'
    then record s { svr_port = to_unsigned (2 ^ 16) (atoi o.optarg) }
    else s

unfoldable pub server_options : List Opt → ServerOptions → ServerOptions
unfolding atoi
server_options [] s = s
server_options (o ∷ opts) s = server_options opts (server_option o s)

abbrev pub default_options : (cpu_core : ℕ) → ServerOptions
default_options cpu_core = record { thread_num = cpu_core; svr_port = 5555 }

-- The worker pool of the server that `main` makes: `tcp_worker_pool` takes an `uint16_t`.
unfoldable pub main_pool :
    {Poller : Type 0} → (cpu_core : ℕ) → Poller → List Opt → WorkerPool Poller
unfolding server_options new_worker_pool
main_pool cpu_core new opts =
    new_worker_pool cpu_core ((server_options opts (default_options cpu_core)).thread_num % 2 ^ 16)
      new

-- How `client_test` ends: with the usage and `exit`, by the null pointer that `strcmp` gets, or with
-- what `connect` returned and the client.
pub data ClientRun : Type 0 where
  usage : ClientRun
  null_address : ClientRun
  ran : ℤ → Client → ClientRun

pub record ClientOptions : Type 0 where
  pub svr_addr : Option (List ℕ)
  pub svr_port : ℕ

-- The loop of `client_test`; `none` is the jump to `hint`.
unfoldable pub client_options : List Opt → ClientOptions → Option ClientOptions
unfolding atoi
client_options [] s = some s
client_options (o ∷ opts) s =
    let addr = client_options opts (record s { svr_addr = some o.optarg }) in
    let port = client_options opts (record s { svr_port = to_unsigned (2 ^ 16) (atoi o.optarg) }) in
    if o.char == b's' then addr else if o.char == b'p' then port else none

module _ (inet_addr : List ℕ → ℕ) (res : ℤ) where
  abbrev pub connect_with : Option (List ℕ) → ℕ → ClientRun
  connect_with none port = null_address
  connect_with (some text) port =
      let (r, c) = cnnto_server2 inet_addr res port text new_client in ran r c

  abbrev pub run_with : Option ClientOptions → ClientRun
  run_with none = usage
  run_with (some o) = connect_with o.svr_addr o.svr_port

  unfoldable pub client_test : (argc : ℕ) → List Opt → ClientRun
  unfolding client_options cnnto_server2
  client_test argc opts =
      if ltb argc 3
      then usage
      else run_with (client_options opts (record { svr_addr = none; svr_port = 0 }))
