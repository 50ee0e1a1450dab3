-- ===== src/TcpClient/Tests.antt =====
-- A client told its server, and used before and after.
use nonblocking_io.Common.{
  ℕ, ◌≡◌, refl, Bool, true, false, Option, none, some, List, [], ◌∷◌, ◌++◌, ℤ, pos, negsuc, length,
  bytes,
}
use nonblocking_io.Common.{htons}
use nonblocking_io.TcpClient.{new_client}
use nonblocking_io.TcpClient.Connects.{Use, set_server, connect, connect_to, use_client}

abbrev uses : List Use
uses =
    connect (pos 0)
    ∷ set_server 80 (bytes "10.0.0.1")
    ∷ connect (negsuc 0)
    ∷ connect_to (pos 0) 8080 (bytes "localhost")
    ∷ connect (pos 0)
    ∷ []

-- `length` stands for `inet_addr`: "10.0.0.1" has 8 characters, "127.0.0.1" has 9.
calls_made :
    (use_client length uses new_client).calls
    ≡ ((8, htons 80) ∷ (9, htons 8080) ∷ (9, htons 8080) ∷ [])
unfolding use_client nonblocking_io.TcpClient.server_text nonblocking_io.TcpClient.parse_serverarg
    nonblocking_io.TcpClient.cnnto_server nonblocking_io.TcpClient.cnnto_server2
    nonblocking_io.Common.same_text nonblocking_io.Common.bytes
calls_made = refl
