-- ===== src/WorkerPool/Message.antt =====
-- The layout of a response that http_parser.h draws, with its struct for the first line.
pub mod Framing
mod Tests
use nonblocking_io.Common.{ℕ, ◌+◌, List, [], ◌∷◌, ◌++◌, ◌==◌, if◌then◌else◌, bytes, decimal}
use nonblocking_io.WorkerPool.Reply.{crlf}

pub record ResponseLine : Type 0 where
  pub version : List ℕ
  pub status_code : ℕ
  pub short_msg : List ℕ

abbrev pub Field : Type 0
Field = List ℕ × List ℕ

unfoldable pub response_bytes : ResponseLine → List ℕ
unfolding bytes decimal
response_bytes l =
    l.version
    ++ (bytes " " ++ (decimal l.status_code ++ (bytes " " ++ (l.short_msg ++ bytes crlf))))

-- A header's lines, and the empty line behind them.
unfoldable pub header_bytes : List Field → List ℕ
unfolding bytes
header_bytes [] = bytes crlf
header_bytes ((name, value) ∷ fields) =
    name ++ (bytes ": " ++ (value ++ (bytes crlf ++ header_bytes fields)))

-- A whole message. Only the body may be empty: there is a first field.
unfoldable pub message : (first : List ℕ) → Field → List Field → (body : List ℕ) → List ℕ
unfolding header_bytes
message first field fields body = first ++ (header_bytes (field ∷ fields) ++ body)
