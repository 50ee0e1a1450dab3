-- ===== src/WorkerPool/ClientTask/Served.antt =====
-- What the clients of a thread's tasks are sent, and that they all come into the queue.
use nonblocking_io.Common.{
  ℕ, zero, suc, ◌<◌, ◌≡◌, refl, sym, ap, ◌∙◌, true, some, List, [], ◌∷◌, ◌++◌, append_assoc,
  append-nil, arith, ℤ, pos, negsuc, length, length-append, bytes, no_nul, no_nul-append,
}
use nonblocking_io.WorkerPool.{ClientInfo, put_client}
use nonblocking_io.WorkerPool.Reply.{bufsiz, page_body}
use nonblocking_io.WorkerPool.Reply.PageReply.{
  task_answer, task_reply-answer, header, header_lem, length-page_body, no_nul-page_body,
}
use nonblocking_io.WorkerPool.Callback.{Written, written}
use nonblocking_io.WorkerPool.Callback.Answers.{texts, Sent, none-Sent, one-Sent}
use nonblocking_io.WorkerPool.ClientTask.{TaskState, stored_after, client_task, client_tasks}

abbrev pub notice : List ℕ
notice = bytes "i will keep you connected\n"

-- What a client is owed, by what the read gives: the page, a notice, or nothing.
abbrev pub page_for : (fd : ℕ) → ℤ → List (ℕ × List ℕ)
page_for fd (pos zero) = (fd, notice) ∷ []
page_for fd (pos (suc n)) = (fd, header ++ page_body) ∷ []
page_for fd (negsuc n) = []

unfoldable pub pages : List (ClientInfo × ℤ) → List (ℕ × List ℕ)
pages [] = []
pages ((info, readn) ∷ rest) = page_for info.fd readn ++ pages rest

abbrev pub infos : List (ClientInfo × ℤ) → List ClientInfo
infos [] = []
infos ((info, readn) ∷ rest) = info ∷ infos rest

notice_lem : (no_nul notice ≡ true) × (length notice ≡ 26)
unfolding bytes no_nul
notice_lem = (refl, refl)

page-fits : length (header ++ page_body) < bufsiz
page-fits = omega (arith, length-append header page_body, header_lem, length-page_body)

answer-Sent :
    (fd : ℕ) (readn : ℤ) {s : Written}
    → length s.buf ≡ bufsiz
    → (t : Written) × (written (task_answer readn s.buf) fd s ≡ some t)
      × Sent s (page_for fd readn) t
answer-Sent fd (pos zero) {s} whole =
    one-Sent {s = s} whole fd notice notice_lem.0 (omega (arith, notice_lem.1))
answer-Sent fd (pos (suc n)) {s} whole =
    one-Sent {s = s} whole fd (header ++ page_body)
      (no_nul-append header page_body header_lem.2 no_nul-page_body) page-fits
answer-Sent fd (negsuc n) {s} whole = (s, refl, none-Sent {s = s} whole)

pub task-Sent :
    (info : ClientInfo) (readn : ℤ) (s : TaskState)
    → length s.written.buf ≡ bufsiz
    → (t : Written) × (client_task readn info s
        ≡ some (record { written = t; storage = put_client info s.storage }))
      × Sent s.written (page_for info.fd readn) t
unfolding client_task
task-Sent info readn s whole =
    let (t, e, sent) = answer-Sent info.fd readn {s = s.written} whole in
    (
      t,
      ap (λ r. stored_after info s.storage (written r info.fd s.written))
            (task_reply-answer s.written.buf whole readn)
          ∙ ap (stored_after info s.storage) e,
      sent,
    )

-- For a thread with a send buffer of `BUFSIZ` bytes, any tasks, and whatever the reads return: the
-- tasks come to their ends without a write past the buffer, the queue has had their clients added
-- at its end, those included whose read failed, and the texts that the clients have been sent, each
-- up to its first NUL and in order, are those they are owed: the page behind a header with its
-- length where the read gave bytes, a notice where it gave none, and nothing where it failed.
pub client_tasks_serve :
    (tasks : List (ClientInfo × ℤ)) (s : TaskState)
    → length s.written.buf ≡ bufsiz
    → (t : TaskState) × (client_tasks tasks s ≡ some t)
      × (t.storage ≡ s.storage ++ infos tasks)
      × (texts t.written.out ≡ texts s.written.out ++ pages tasks)
      × (length t.written.buf ≡ bufsiz)
unfolding client_tasks pages put_client
client_tasks_serve [] s whole =
    (s, refl, sym (append-nil s.storage), sym (append-nil (texts s.written.out)), whole)
client_tasks_serve ((info, readn) ∷ rest) s whole =
    let (m, e, sent) = task-Sent info readn s whole in
    let (t, e', stored, more, whole') =
      client_tasks_serve rest (record { written = m; storage = put_client info s.storage })
        sent.whole in
    (
      t,
      rw (client_tasks, e) e',
      stored ∙ append_assoc s.storage (info ∷ []) (infos rest),
      more
          ∙ ap (λ xs. xs ++ pages rest) sent.all
          ∙ append_assoc (texts s.written.out) (page_for info.fd readn) (pages rest),
      whole',
    )
