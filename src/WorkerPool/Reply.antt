-- ===== src/WorkerPool/Reply.antt =====
-- What the server writes to a client: `handle_epollin` and `handle_error` of tcp_worker_pool.cpp, and
-- the read and the replies of the task that `submit` makes. The buffers `TRD_SEND_BUF` of the
-- threads hold `BUFSIZ` bytes, and a `send` sends all of them.
pub mod Replies
pub mod PageReply
pub mod Errors
use Prim.Native.String.{String}
use nonblocking_io.Common.{
  ℕ, zero, suc, ◌+◌, ◌^◌, Option, none, some, List, [], ◌∷◌, ◌++◌, ℤ, pos, negsuc, length, bytes,
  bytes_of_all, decimal, write_text, strlen, c_str,
}
use nonblocking_io.HttpCodes.{http_codes_at}
use nonblocking_io.WorkerPool.Page.{page_lines}

-- `BUFSIZ` of glibc
abbrev pub bufsiz : ℕ
bufsiz = 2 ^ 13

-- What becomes of a call: nothing is sent; the buffer, as it then is, is sent; or it faults, by a
-- write past the buffer or by `std::out_of_range`.
pub data Reply : Type 0 where
  silent : Reply
  sent : List ℕ → Reply
  fault : Reply

abbrev pub send : Option (List ℕ) → Reply
send none = fault
send (some buf) = sent buf

-- `HTTP_VERSION`, `CRLF`
abbrev pub http_version : String
http_version = "HTTP/1.1"

abbrev pub crlf : String
crlf = "\r\n"

-- The line of `handle_error`; `handle_epollin` formats its first line alike.
unfoldable pub status_line : ℕ → String → List ℕ
unfolding bytes decimal
status_line code msg =
    bytes http_version ++ (bytes " " ++ (decimal code ++ (bytes " " ++ (bytes msg ++ bytes crlf))))

unfoldable pub content_length : ℕ → List ℕ
unfolding bytes decimal
content_length n = bytes "Content-length: " ++ (decimal n ++ (bytes crlf ++ bytes crlf))

-- `none` is a code that the table lacks.
abbrev pub error_reply : ℕ → Option String → List ℕ → Reply
error_reply errcode none buf = fault
error_reply errcode (some msg) buf = send (write_text 0 (status_line errcode msg) buf)

unfoldable pub handle_error : ℕ → List ℕ → Reply
handle_error errcode buf = error_reply errcode (http_codes_at errcode) buf

-- The second `sprintf` of `handle_epollin`, at the end of the first one's text.
abbrev pub add_length : Option (List ℕ) → Option (List ℕ)
add_length none = none
add_length (some buf) = write_text (strlen buf) (content_length 0) buf

abbrev pub ok_reply : Option String → List ℕ → Reply
ok_reply none buf = fault
ok_reply (some msg) buf = send (add_length (write_text 0 (status_line 200 msg) buf))

-- `handle_disconnect`: its body is commented out.
abbrev pub handle_disconnect : Reply
handle_disconnect = silent

-- `n` is what `read` returns.
unfoldable pub handle_epollin : ℤ → List ℕ → Reply
handle_epollin (pos zero) buf = handle_disconnect
handle_epollin (negsuc n) buf = handle_error 400 buf
handle_epollin (pos (suc n)) buf = ok_reply (http_codes_at 200) buf

-- `strlen(body.c_str())`, and the body up to its first NUL.
unfoldable pub page_body : List ℕ
unfolding bytes_of_all
page_body = bytes_of_all page_lines

unfoldable pub page_header : ℕ → List ℕ
unfolding bytes decimal
page_header n = bytes "HTTP/1.1 200 OK\r\nContent-length: " ++ (decimal n ++ bytes "\r\n\r\n")

-- `strcpy(p, body)` at the end of the header.
abbrev pub add_page : List ℕ → Option (List ℕ) → Option (List ℕ)
add_page body none = none
add_page body (some buf) = write_text (strlen buf) (c_str body) buf

unfoldable pub page_reply : List ℕ → List ℕ → Reply
page_reply body buf = send (add_page body (write_text 0 (page_header (strlen body)) buf))

-- The reads and replies of the task; `readn` is what `read` returns.
unfoldable pub task_reply : ℤ → List ℕ → List ℕ → Reply
task_reply (pos zero) body buf = send (write_text 0 (bytes "i will keep you connected\n") buf)
task_reply (pos (suc n)) body buf = page_reply body buf
task_reply (negsuc n) body buf = silent
