-- ===== src/WorkerPool/Reply/Replies.antt =====
-- The bytes that reach a client.
use nonblocking_io.Common.{
  ℕ, zero, suc, ◌+◌, ◌<◌, ◌≡◌, refl, ap, sym, ◌∙◌, true, some, List, ◌∷◌, ◌++◌, append_assoc, arith,
  ℤ, pos, negsuc, length, length-append, drop, bytes, decimal, write_text, strlen, no_nul,
  drop-drop, length-drop, strlen-append, write_text-start, write_text-end, lookup, insert_all,
  insert,
}
use nonblocking_io.HttpCodes.{code_map, http_codes_at}
use nonblocking_io.WorkerPool.Reply.{
  bufsiz, Reply, silent, sent, send, status_line, content_length, handle_error, error_reply,
  add_length, ok_reply, handle_epollin,
}

-- A text in the buffer, its NUL, and what the buffer held behind.
abbrev pub over : List ℕ → List ℕ → List ℕ
over text buf = text ++ (0 ∷ drop (length text + 1) buf)

ok_text : http_codes_at 200 ≡ some "OK"
unfolding http_codes_at code_map lookup insert_all insert
ok_text = refl

bad_request_text : http_codes_at 400 ≡ some "Bad Request"
unfolding http_codes_at code_map lookup insert_all insert
bad_request_text = refl

abbrev ok_line : List ℕ
ok_line = bytes "HTTP/1.1 200 OK\r\n"

abbrev empty_length : List ℕ
empty_length = bytes "Content-length: 0\r\n\r\n"

ok_line_lem : (status_line 200 "OK" ≡ ok_line) × (content_length 0 ≡ empty_length)
unfolding status_line content_length bytes decimal
ok_line_lem = (refl, refl)

bad_line_lem : status_line 400 "Bad Request" ≡ bytes "HTTP/1.1 400 Bad Request\r\n"
unfolding status_line bytes decimal
bad_line_lem = refl

line_sizes :
    (length ok_line ≡ 17)
    × (length empty_length ≡ 21)
    × (length (bytes "HTTP/1.1 400 Bad Request\r\n") ≡ 26)
unfolding bytes
line_sizes = (refl, refl, refl)

joined : ok_line ++ empty_length ≡ bytes "HTTP/1.1 200 OK\r\nContent-length: 0\r\n\r\n"
unfolding bytes
joined = refl

no_nul-ok_line : no_nul ok_line ≡ true
unfolding bytes no_nul
no_nul-ok_line = refl

-- Two texts, one over the end of the other.
pub two_texts :
    (first second buf : List ℕ)
    → no_nul first ≡ true
    → length first + length second < length buf
    → write_text (strlen (over first buf)) second (over first buf)
      ≡ some (over (first ++ second) buf)
two_texts first second buf h fits = rw (strlen-append first (drop (length first + 1) buf) h) (
    write_text-end 0 first second (drop (length first + 1) buf)
      (omega (arith, length-drop (length first + 1) buf))
    ∙ ap some (ap (λ t. first ++ (second ++ (0 ∷ t))) behind ∙ sym (append_assoc first second _)))
  where
    behind :
        drop (length second) (drop (length first + 1) buf) ≡ drop (length (first ++ second) + 1) buf
    behind =
        drop-drop (length first + 1) (length second) buf
        ∙ ap (λ n. drop n buf) (omega (arith, length-append first second))

-- What `handle_epollin` answers, by what `read` returns: nothing to a closed connection.
abbrev pub answer : ℤ → List ℕ → Reply
answer (pos zero) buf = silent
answer (pos (suc n)) buf = sent (over (bytes "HTTP/1.1 200 OK\r\nContent-length: 0\r\n\r\n") buf)
answer (negsuc n) buf = sent (over (bytes "HTTP/1.1 400 Bad Request\r\n") buf)

module _ (buf : List ℕ) (whole : length buf ≡ bufsiz) where
  ok_reply_lem : ok_reply (some "OK") buf ≡ sent (over (ok_line ++ empty_length) buf)
  ok_reply_lem =
      ap (λ t. send (add_length (write_text 0 t buf))) ok_line_lem.0
      ∙ ap (λ b. send (add_length b))
          (write_text-start ok_line buf (omega (arith, whole, line_sizes)))
      ∙ ap (λ t. send (write_text (strlen (over ok_line buf)) t (over ok_line buf))) ok_line_lem.1
      ∙ ap send
          (two_texts ok_line empty_length buf no_nul-ok_line (omega (arith, whole, line_sizes)))

  error_reply_lem :
      error_reply 400 (some "Bad Request") buf
      ≡ sent (over (bytes "HTTP/1.1 400 Bad Request\r\n") buf)
  error_reply_lem =
      ap (λ t. send (write_text 0 t buf)) bad_line_lem
      ∙ ap send (
          write_text-start (bytes "HTTP/1.1 400 Bad Request\r\n") buf
            (omega (arith, whole, line_sizes)))

  -- Whatever `read` returns, `handle_epollin` answers as follows, with a buffer of `BUFSIZ` bytes, and
  -- does not fault: to 0 nothing, to a negative number the line for 400, to a positive one the line
  -- for 200 with a content length of 0. All of the buffer is sent: the text, its NUL, and behind it
  -- what the buffer held before.
  pub handle_epollin-answer : (n : ℤ) → handle_epollin n buf ≡ answer n buf
  unfolding handle_epollin handle_error
  handle_epollin-answer (pos zero) = refl
  handle_epollin-answer (pos (suc n)) =
      ap (λ m. ok_reply m buf) ok_text ∙ ok_reply_lem ∙ ap (λ t. sent (over t buf)) joined
  handle_epollin-answer (negsuc n) =
      ap (λ m. error_reply 400 m buf) bad_request_text ∙ error_reply_lem
