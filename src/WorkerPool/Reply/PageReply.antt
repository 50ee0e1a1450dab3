-- ===== src/WorkerPool/Reply/PageReply.antt =====
-- The page that a new client is sent fits the buffer, and its header gives its length.
use nonblocking_io.Common.{
  ℕ, suc, zero, ◌≡◌, refl, ap, ◌∙◌, true, List, ◌++◌, arith, ℤ, pos, negsuc, length, bytes, decimal,
  write_text, strlen, no_nul, c_str_whole, write_text-start,
}
use nonblocking_io.WorkerPool.Reply.{
  bufsiz, Reply, silent, sent, send, page_body, page_header, add_page, page_reply, task_reply,
}
use nonblocking_io.WorkerPool.Reply.Replies.{over, two_texts}

pub length-page_body : length page_body ≡ 3644
unfolding page_body
length-page_body = refl

pub no_nul-page_body : no_nul page_body ≡ true
unfolding page_body no_nul
no_nul-page_body = refl

-- The header of a page of 3644 bytes.
abbrev pub header : List ℕ
header = bytes "HTTP/1.1 200 OK\r\nContent-length: 3644\r\n\r\n"

pub header_lem : (page_header 3644 ≡ header) × (length header ≡ 41) × (no_nul header ≡ true)
unfolding page_header bytes decimal no_nul
header_lem = (refl, refl, refl)

strlen-page_body : strlen page_body ≡ 3644
strlen-page_body = (c_str_whole page_body no_nul-page_body).1 ∙ length-page_body

-- What the task answers, by what `read` returns; nothing where the read failed.
abbrev pub task_answer : ℤ → List ℕ → Reply
task_answer (pos zero) buf = sent (over (bytes "i will keep you connected\n") buf)
task_answer (pos (suc n)) buf =
    sent (over (bytes "HTTP/1.1 200 OK\r\nContent-length: 3644\r\n\r\n" ++ page_body) buf)
task_answer (negsuc n) buf = silent

notice_size : length (bytes "i will keep you connected\n") ≡ 26
unfolding bytes
notice_size = refl

module _ (buf : List ℕ) (whole : length buf ≡ bufsiz) where
  page_reply_lem : page_reply page_body buf ≡ sent (over (header ++ page_body) buf)
  unfolding page_reply
  page_reply_lem =
      ap (λ n. send (add_page page_body (write_text 0 (page_header n) buf))) strlen-page_body
      ∙ ap (λ t. send (add_page page_body (write_text 0 t buf))) header_lem.0
      ∙ ap (λ b. send (add_page page_body b))
          (write_text-start header buf (omega (arith, whole, header_lem)))
      ∙ ap (λ t. send (write_text (strlen (over header buf)) t (over header buf)))
          (c_str_whole page_body no_nul-page_body).0
      ∙ ap send (
          two_texts header page_body buf header_lem.2
            (omega (arith, whole, header_lem, length-page_body)))

  -- Whatever `read` returns, the task of `submit` answers as follows, with a buffer of `BUFSIZ` bytes,
  -- and writes nothing past it: to 0 a notice, to a negative number nothing, to a positive one the
  -- page, whose header gives its length in bytes. The whole buffer is sent, with what it held before
  -- behind the text and its NUL.
  pub task_reply-answer : (n : ℤ) → task_reply n page_body buf ≡ task_answer n buf
  unfolding task_reply
  task_reply-answer (pos zero) = ap send (
      write_text-start (bytes "i will keep you connected\n") buf
        (omega (arith, whole, notice_size)))
  task_reply-answer (pos (suc n)) = page_reply_lem
  task_reply-answer (negsuc n) = refl
