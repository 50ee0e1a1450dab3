-- ===== src/TcpClient/Connects.antt =====
-- Where a client connects to, over any use of it.
use nonblocking_io.Common.{
  ℕ, ◌≡◌, refl, sym, ap, ◌∙◌, Option, none, some, List, [], ◌∷◌, ◌++◌, append_assoc, append-nil, ℤ,
  if◌then◌else◌, Bool-cases, inl, inr,
}
use nonblocking_io.Common.{htons}
use nonblocking_io.TcpClient.{Client, server_text, parse_serverarg, cnnto_server, cnnto_server2}

-- A use of a client, with what `connect` returns. The constructor that takes an address only parses
-- it.
pub data Use : Type 0 where
  set_server : (port : ℕ) → List ℕ → Use
  connect : ℤ → Use
  connect_to : ℤ → (port : ℕ) → List ℕ → Use

module _ (inet_addr : List ℕ → ℕ) where
  unfoldable pub use_client : List Use → Client → Client
  unfolding parse_serverarg cnnto_server cnnto_server2
  use_client [] c = c
  use_client (set_server port text ∷ uses) c =
      use_client uses (parse_serverarg inet_addr port text c)
  use_client (connect res ∷ uses) c = use_client uses (cnnto_server res c).1
  use_client (connect_to res port text ∷ uses) c =
      use_client uses (cnnto_server2 inet_addr res port text c).1

  abbrev pub server_of : (port : ℕ) → List ℕ → ℕ × ℕ
  server_of port text = (inet_addr (server_text text), htons port)

  -- The servers that a client should call, given the one that it has been told last, if any.
  unfoldable pub calls_from : Option (ℕ × ℕ) → List Use → List (ℕ × ℕ)
  unfolding server_text
  calls_from last [] = []
  calls_from last (set_server port text ∷ uses) = calls_from (some (server_of port text)) uses
  calls_from none (connect res ∷ uses) = calls_from none uses
  calls_from (some server) (connect res ∷ uses) = server ∷ calls_from (some server) uses
  calls_from last (connect_to res port text ∷ uses) =
      server_of port text ∷ calls_from (some (server_of port text)) uses

  abbrev pub known : Client → Option (ℕ × ℕ)
  known c = if c.cnn_svr_set then some (c.address, c.port) else none

  connect_known :
      (res : ℤ) (c : Client) (uses : List Use)
      → (known (cnnto_server res c).1 ≡ known c)
        × (c.calls ++ calls_from (known c) (connect res ∷ uses)
            ≡ (cnnto_server res c).1.calls ++ calls_from (known c) uses)
  unfolding cnnto_server calls_from
  connect_known res c uses = elim (Bool-cases c.cnn_svr_set) [
    | inl told ↦ rw told (
      refl,
      sym (
          append_assoc c.calls ((c.address, c.port) ∷ [])
            (calls_from (some (c.address, c.port)) uses)),
    )
    | inr untold ↦ rw untold (refl, refl)
  ]

  -- Over any use of a client, whatever `connect` returns and from any state: the client calls
  -- `connect` with the server that it has been told last, once for each request, and for a request
  -- before it has been told one, not at all.
  connects_to_last :
      (uses : List Use) (c : Client)
      → (use_client uses c).calls ≡ c.calls ++ calls_from (known c) uses
  unfolding use_client calls_from cnnto_server
  connects_to_last [] c = sym (append-nil c.calls)
  connects_to_last (set_server port text ∷ uses) c =
      connects_to_last uses (parse_serverarg inet_addr port text c)
  connects_to_last (connect res ∷ uses) c =
      let (same, moved) = connect_known res c uses in
      connects_to_last uses (cnnto_server res c).1
      ∙ ap (λ k. (cnnto_server res c).1.calls ++ calls_from k uses) same
      ∙ sym moved
  connects_to_last (connect_to res port text ∷ uses) c =
      connects_to_last uses (cnnto_server2 inet_addr res port text c).1
      ∙ append_assoc c.calls (server_of port text ∷ [])
          (calls_from (some (server_of port text)) uses)
