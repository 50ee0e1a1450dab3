-- ===== src/TcpClient.antt =====
-- tcp_client.h and tcp_client.cpp: a client that connects only after it knows its server.
pub mod Connects
mod Tests
use nonblocking_io.Common.{
  ℕ, Bool, true, false, Option, none, some, List, [], ◌∷◌, ◌++◌, if◌then◌else◌, ℤ, pos, negsuc,
  bytes,
}
use nonblocking_io.Common.{same_text, htons}

-- `calls` are the addresses and ports of the calls of `connect`, in order.
pub record Client : Type 0 where
  pub cnn_svr_set : Bool
  pub address : ℕ
  pub port : ℕ
  pub calls : List (ℕ × ℕ)

abbrev pub new_client : Client
new_client = record { cnn_svr_set = false; address = 0; port = 0; calls = [] }

-- The argument of `inet_addr`.
unfoldable pub server_text : List ℕ → List ℕ
server_text svr_addr =
    if same_text svr_addr (bytes "localhost") then bytes "127.0.0.1" else svr_addr

unfoldable pub parse_serverarg : (inet_addr : List ℕ → ℕ) → (port : ℕ) → List ℕ → Client → Client
unfolding server_text
parse_serverarg inet_addr port svr_addr c = record c {
  port = htons port;
  address = inet_addr (server_text svr_addr);
  cnn_svr_set = true;
}

-- `res` is what `connect` returns if it is called.
unfoldable pub cnnto_server : (res : ℤ) → Client → ℤ × Client
cnnto_server res c =
    if c.cnn_svr_set
    then (res, record c { calls = c.calls ++ ((c.address, c.port) ∷ []) })
    else (negsuc 0, c)

unfoldable pub cnnto_server2 :
    (inet_addr : List ℕ → ℕ) → (res : ℤ) → (port : ℕ) → List ℕ → Client → ℤ × Client
unfolding parse_serverarg cnnto_server
cnnto_server2 inet_addr res port svr_addr c =
    cnnto_server res (parse_serverarg inet_addr port svr_addr c)
