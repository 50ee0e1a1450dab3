-- ===== src/WorkerPool/Message/Tests.antt =====
-- A request, and two codes, over an empty buffer.
use Prim.Native.String.{String}
use nonblocking_io.Common.{
  ℕ, ◌≡◌, ◌≢◌, ◌⊎◌, true, false, some, List, [], ◌∷◌, ◌++◌, pos, length, length-replicate, bytes,
}
use nonblocking_io.HttpCodes.{http_codes_at}
use nonblocking_io.HttpCodes.Domain.{is_known}
use nonblocking_io.WorkerPool.Samples.{empty_buf}
use nonblocking_io.WorkerPool.Reply.{
  bufsiz, sent, fault, handle_error, handle_epollin, page_body, task_reply,
}
use nonblocking_io.WorkerPool.Reply.Replies.{over}
use nonblocking_io.WorkerPool.Message.{Field, response_bytes, message}
use nonblocking_io.WorkerPool.Message.Framing.{ok_message, requests_answered, error_lines_unframed}

requests_answered_example :
    (old old' : List ℕ) × (task_reply (pos 100) page_body empty_buf
      ≡ sent (ok_message page_body ++ (0 ∷ old)))
    × (handle_epollin (pos 100) empty_buf ≡ sent (ok_message [] ++ (0 ∷ old')))
    × (length (ok_message page_body ++ (0 ∷ old)) ≡ bufsiz)
    × (length (ok_message [] ++ (0 ∷ old')) ≡ bufsiz)
requests_answered_example = requests_answered 99 empty_buf (length-replicate {A = ℕ} bufsiz 0)

error_lines_unframed_example :
    ((is_known 404 ≡ false) × (handle_error 404 empty_buf ≡ fault))
    ⊎ ((is_known 404 ≡ true)
        × (msg : String) × (http_codes_at 404 ≡ some msg)
        × (handle_error 404 empty_buf
            ≡ sent (
                over
                  (response_bytes (record {
                    version = bytes "HTTP/1.1";
                    status_code = 404;
                    short_msg = bytes msg;
                  }))
                  empty_buf))
        × ((first : List ℕ) (field : Field) (fields : List Field) (body : List ℕ)
            → message first field fields body
              ≢ response_bytes (record {
                version = bytes "HTTP/1.1";
                status_code = 404;
                short_msg = bytes msg;
              })))
error_lines_unframed_example =
    error_lines_unframed 404 empty_buf (length-replicate {A = ℕ} bufsiz 0)
