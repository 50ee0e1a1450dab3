-- ===== src/WorkerPool/Message/Framing.antt =====
-- Which replies of the server are messages of that layout.
use Prim.Native.String.{String}
use nonblocking_io.Common.{
  ℕ, suc, ◌+◌, ◌≤◌, ◌≡◌, ◌≢◌, refl, sym, ap, ◌∙◌, true, false, some, List, [], ◌∷◌, ◌++◌, arith,
  pos, drop, length, length-append, feeds, feeds-append, bytes, decimal, is_digit,
  decimal_only_digits, All, ◌⊎◌, inl, inr,
}
use nonblocking_io.HttpCodes.{http_codes_at}
use nonblocking_io.HttpCodes.Domain.{is_known, http_codes_at_one_line}
use nonblocking_io.WorkerPool.Reply.{
  bufsiz, sent, fault, status_line, handle_error, handle_epollin, page_body, page_header, crlf,
  task_reply,
}
use nonblocking_io.WorkerPool.Reply.Replies.{over, handle_epollin-answer}
use nonblocking_io.WorkerPool.Reply.PageReply.{
  task_reply-answer, length-page_body, header, header_lem,
}
use nonblocking_io.WorkerPool.Callback.Answers.{length-over}
use nonblocking_io.WorkerPool.Reply.Errors.{handle_error_cases}
use nonblocking_io.WorkerPool.Message.{ResponseLine, Field, response_bytes, header_bytes, message}

abbrev ok_line : ResponseLine
ok_line = record { version = bytes "HTTP/1.1"; status_code = 200; short_msg = bytes "OK" }

-- The response 200 with one field, the length of its body.
abbrev pub ok_message : List ℕ → List ℕ
ok_message body =
    message (response_bytes ok_line) (bytes "Content-length", decimal (length body)) [] body

ok_message-page_header :
    (n : ℕ) (body : List ℕ)
    → message (response_bytes ok_line) (bytes "Content-length", decimal n) [] body
      ≡ page_header n ++ body
unfolding message response_bytes header_bytes bytes decimal page_header
ok_message-page_header n body = refl

ok_message-page_body :
    ok_message page_body ≡ bytes "HTTP/1.1 200 OK\r\nContent-length: 3644\r\n\r\n" ++ page_body
ok_message-page_body =
    ok_message-page_header (length page_body) page_body
    ∙ ap (λ n. page_header n ++ page_body) length-page_body
    ∙ ap (λ t. t ++ page_body) header_lem.0

ok_message_empty : ok_message [] ≡ bytes "HTTP/1.1 200 OK\r\nContent-length: 0\r\n\r\n"
unfolding message response_bytes header_bytes bytes decimal
ok_message_empty = refl

ok_text_size : length (bytes "HTTP/1.1 200 OK\r\nContent-length: 0\r\n\r\n") ≡ 38
unfolding bytes
ok_text_size = refl

length-ok_message : (length (ok_message page_body) ≡ 3685) × (length (ok_message []) ≡ 38)
length-ok_message = (
  ap length ok_message-page_body
      ∙ omega (arith, length-append header page_body, header_lem, length-page_body),
  ap length ok_message_empty ∙ ok_text_size,
)

-- Whatever a thread's buffer of `BUFSIZ` bytes held: where a read gives bytes, a task sends the buffer
-- with the response 200 whose one field is the length of its body, the page, and a worker's callback
-- sends the one without a body. Behind the response come a NUL and old bytes, up to `BUFSIZ` in all.
pub requests_answered :
    (n : ℕ) (buf : List ℕ)
    → length buf ≡ bufsiz
    → (old old' : List ℕ) × (task_reply (pos (suc n)) page_body buf
        ≡ sent (ok_message page_body ++ (0 ∷ old)))
      × (handle_epollin (pos (suc n)) buf ≡ sent (ok_message [] ++ (0 ∷ old')))
      × (length (ok_message page_body ++ (0 ∷ old)) ≡ bufsiz)
      × (length (ok_message [] ++ (0 ∷ old')) ≡ bufsiz)
requests_answered n buf whole = (
  drop (length (ok_message page_body) + 1) buf,
  drop (length (ok_message []) + 1) buf,
  task_reply-answer buf whole (pos (suc n))
      ∙ ap (λ t. sent (over t buf)) (sym ok_message-page_body),
  handle_epollin-answer buf whole (pos (suc n))
      ∙ ap (λ t. sent (over t buf)) (sym ok_message_empty),
  length-over (ok_message page_body) buf (omega (arith, whole, length-ok_message)) ∙ whole,
  length-over (ok_message []) buf (omega (arith, whole, length-ok_message)) ∙ whole,
)

feeds-header_bytes : (fields : List Field) → 1 ≤ feeds (header_bytes fields)
unfolding header_bytes feeds bytes
feeds-header_bytes [] = omega arith
feeds-header_bytes ((name, value) ∷ fields) = omega (
  arith,
  feeds-append name (bytes ": " ++ (value ++ (bytes crlf ++ header_bytes fields))),
  feeds-append value (bytes crlf ++ header_bytes fields),
)

-- A message has two line feeds at least, those of its first field and of the empty line.
feeds-message :
    (first : List ℕ) (field : Field) (fields : List Field) (body : List ℕ)
    → 2 ≤ feeds (message first field fields body)
unfolding message feeds header_bytes bytes
feeds-message first (name, value) fields body = omega (
  arith,
  feeds-append first (header_bytes ((name, value) ∷ fields) ++ body),
  feeds-append (header_bytes ((name, value) ∷ fields)) body,
  feeds-append name (bytes ": " ++ (value ++ (bytes crlf ++ header_bytes fields))),
  feeds-append value (bytes crlf ++ header_bytes fields),
  feeds-header_bytes fields,
)

feeds-digits : (xs : List ℕ) → All (λ x. is_digit x ≡ true) xs → feeds xs ≡ 0
unfolding feeds
feeds-digits [] h = refl
feeds-digits (x ∷ xs) (h, hs) = ground (arith, h, feeds-digits xs hs)

line_feeds : (feeds (bytes "HTTP/1.1") ≡ 0) × (feeds (bytes " ") ≡ 0) × (feeds (bytes crlf) ≡ 1)
unfolding bytes feeds
line_feeds = (refl, refl, refl)

status_line-response_bytes :
    (code : ℕ) (msg : String)
    → status_line code msg
      ≡ response_bytes
          (record { version = bytes "HTTP/1.1"; status_code = code; short_msg = bytes msg })
unfolding status_line response_bytes
status_line-response_bytes code msg = refl

feeds-status_line :
    (code : ℕ) (msg : String) → feeds (bytes msg) ≡ 0 → feeds (status_line code msg) ≡ 1
unfolding status_line
feeds-status_line code msg h = omega (
  arith,
  line_feeds,
  feeds-digits (decimal code) (decimal_only_digits code),
  feeds-append (bytes "HTTP/1.1")
      (bytes " " ++ (decimal code ++ (bytes " " ++ (bytes msg ++ bytes crlf)))),
  feeds-append (bytes " ") (decimal code ++ (bytes " " ++ (bytes msg ++ bytes crlf))),
  feeds-append (decimal code) (bytes " " ++ (bytes msg ++ bytes crlf)),
  feeds-append (bytes " ") (bytes msg ++ bytes crlf),
  feeds-append (bytes msg) (bytes crlf),
)

-- For every code, with a buffer of `BUFSIZ` bytes: for a code that the table lacks `handle_error`
-- throws. For one that it has, it sends the response's first line, with that code and the table's
-- text, and behind its NUL what the buffer held; and that line is no message of the layout, with
-- whatever first line, fields and body, since neither a field nor the empty line follows.
pub error_lines_unframed :
    (code : ℕ) (buf : List ℕ)
    → length buf ≡ bufsiz
    → ((is_known code ≡ false) × (handle_error code buf ≡ fault))
      ⊎ ((is_known code ≡ true)
          × (msg : String) × (http_codes_at code ≡ some msg)
          × (handle_error code buf
              ≡ sent (
                  over
                    (response_bytes (record {
                      version = bytes "HTTP/1.1";
                      status_code = code;
                      short_msg = bytes msg;
                    }))
                    buf))
          × ((first : List ℕ) (field : Field) (fields : List Field) (body : List ℕ)
              → message first field fields body
                ≢ response_bytes (record {
                  version = bytes "HTTP/1.1";
                  status_code = code;
                  short_msg = bytes msg;
                })))
error_lines_unframed code buf whole = elim (handle_error_cases code buf whole) [
  | inl unknown ↦ inl unknown
  | inr (known, msg, found, line) ↦ inr (
    known,
    msg,
    found,
    line ∙ ap (λ t. sent (over t buf)) (status_line-response_bytes code msg),
    λ first field fields body e. absurd (
        omega (
          arith,
          feeds-message first field fields body,
          ap feeds (e ∙ sym (status_line-response_bytes code msg)),
          feeds-status_line code msg (http_codes_at_one_line code found),
        )),
  )
]
