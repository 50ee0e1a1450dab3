-- ===== src/WorkerPool/Callback/Answers.antt =====
-- What the clients of a worker read.
use nonblocking_io.Common.{
  ℕ, zero, suc, ◌+◌, ◌<◌, ◌≡◌, refl, sym, ap, ◌∙◌, true, some, List, [], ◌∷◌, ◌++◌, append_assoc,
  append-nil, arith, if◌then◌else◌, ℤ, pos, negsuc, length, length-append, length-drop, drop, bytes,
  c_str, c_str-append, no_nul, Bool-cases, inl, inr,
}
use nonblocking_io.Epoll.{has, Event, epollin}
use nonblocking_io.WorkerPool.Reply.{bufsiz, Reply}
use nonblocking_io.WorkerPool.Reply.Replies.{over, answer, handle_epollin-answer}
use nonblocking_io.WorkerPool.Callback.{Written, written, on_hang_up, on_client_event, callback}

abbrev pub ok_bytes : List ℕ
ok_bytes = bytes "HTTP/1.1 200 OK\r\nContent-length: 0\r\n\r\n"

abbrev pub bad_bytes : List ℕ
bad_bytes = bytes "HTTP/1.1 400 Bad Request\r\n"

-- The answer to one read: none, or a descriptor and a text.
abbrev pub texts_for : (fd : ℕ) → ℤ → List (ℕ × List ℕ)
texts_for fd (pos zero) = []
texts_for fd (pos (suc n)) = (fd, ok_bytes) ∷ []
texts_for fd (negsuc n) = (fd, bad_bytes) ∷ []

abbrev pub texts_if : Event → ℤ → List (ℕ × List ℕ)
texts_if e n = if has e.events epollin then texts_for e.fd n else []

-- The answers to a batch of events.
unfoldable pub expected : List (Event × ℤ) → List (ℕ × List ℕ)
expected [] = []
expected ((e, n) ∷ rest) = texts_if e n ++ expected rest

-- What has been sent, as texts up to their NUL.
unfoldable pub texts : List (ℕ × List ℕ) → List (ℕ × List ℕ)
texts [] = []
texts ((fd, buf) ∷ rest) = (fd, c_str buf) ∷ texts rest

texts-append : (xs ys : List (ℕ × List ℕ)) → texts (xs ++ ys) ≡ texts xs ++ texts ys
unfolding texts
texts-append [] ys = refl
texts-append ((fd, buf) ∷ xs) ys = ap (λ t. (fd, c_str buf) ∷ t) (texts-append xs ys)

ok_text_lem : (no_nul ok_bytes ≡ true) × (length ok_bytes ≡ 38)
unfolding no_nul bytes
ok_text_lem = (refl, refl)

bad_text_lem : (no_nul bad_bytes ≡ true) × (length bad_bytes ≡ 26)
unfolding no_nul bytes
bad_text_lem = (refl, refl)

pub length-over :
    (text buf : List ℕ) → length text < length buf → length (over text buf) ≡ length buf
length-over text buf h =
    omega (
      arith,
      length-append text (0 ∷ drop (length text + 1) buf),
      length-drop (length text + 1) buf,
    )

-- From `s` the texts `new` have been sent, in whole buffers.
pub record Sent (s : Written) (new : List (ℕ × List ℕ)) (t : Written) : Type 0 where
  pub whole : length t.buf ≡ bufsiz
  pub all : texts t.out ≡ texts s.out ++ new

module _ {s : Written} (whole : length s.buf ≡ bufsiz) where
  pub none-Sent : Sent s [] s
  none-Sent = record { whole = whole; all = sym (append-nil (texts s.out)) }

  pub one-Sent :
      (fd : ℕ) (text : List ℕ)
      → no_nul text ≡ true
      → length text < bufsiz
      → (t : Written) × (written (Reply.sent (over text s.buf)) fd s ≡ some t)
        × Sent s ((fd, text) ∷ []) t
  unfolding texts
  one-Sent fd text h fits = (
    record { buf = over text s.buf; out = s.out ++ ((fd, over text s.buf) ∷ []) },
    refl,
    record {
      whole = length-over text s.buf (omega arith) ∙ whole;
      all =
          texts-append s.out ((fd, over text s.buf) ∷ [])
          ∙ ap (λ u. texts s.out ++ ((fd, u) ∷ []))
              (c_str-append text (drop (length text + 1) s.buf) h);
    },
  )

  answer-Sent :
      (fd : ℕ) (n : ℤ)
      → (t : Written) × (written (answer n s.buf) fd s ≡ some t) × Sent s (texts_for fd n) t
  answer-Sent fd (pos zero) = (s, refl, none-Sent)
  answer-Sent fd (pos (suc n)) = one-Sent fd ok_bytes ok_text_lem.0 (omega (arith, ok_text_lem.1))
  answer-Sent fd (negsuc n) = one-Sent fd bad_bytes bad_text_lem.0 (omega (arith, bad_text_lem.1))

on_hang_up_lem : (e : Event) (s : Written) → on_hang_up e (some s) ≡ some s
on_hang_up_lem e s = ground arith

event-Sent :
    (e : Event) (n : ℤ) {s : Written}
    → length s.buf ≡ bufsiz
    → (t : Written) × (on_client_event e n s ≡ some t) × Sent s (texts_if e n) t
unfolding on_client_event
event-Sent e n {s} whole = elim (Bool-cases (has e.events epollin)) [
  | inl reads ↦
      let (t, eq, st) = answer-Sent {s = s} whole e.fd n in
      (t, rw (reads, handle_epollin-answer s.buf whole n, eq) (on_hang_up_lem e t), rw reads st)
  | inr quiet ↦ (s, rw quiet (on_hang_up_lem e s), rw quiet (none-Sent {s = s} whole))
]

-- For every batch of events, whatever the reads return, and with a send buffer of `BUFSIZ` bytes: the
-- callback does not fault, and the texts that it sends are those expected, in the order of the events:
-- for each event with `EPOLLIN`, to its descriptor, the line for 200 and a content length of 0 if the
-- read gave bytes, the line for 400 if it failed, and nothing if it gave none. A hang-up or an error
-- in an event, alone or with `EPOLLIN`, changes nothing.
pub callback_answers :
    (batch : List (Event × ℤ)) (s : Written)
    → length s.buf ≡ bufsiz
    → (t : Written) × (callback batch s ≡ some t)
      × (length t.buf ≡ bufsiz)
      × (texts t.out ≡ texts s.out ++ expected batch)
unfolding callback expected
callback_answers [] s whole = (s, refl, whole, sym (append-nil (texts s.out)))
callback_answers ((e, n) ∷ rest) s whole =
    let (m, eq, one) = event-Sent e n whole in
    let (t, eq', whole', more) = callback_answers rest m one.whole in
    (
      t,
      rw (callback, eq) eq',
      whole',
      more
          ∙ ap (λ xs. xs ++ expected rest) one.all
          ∙ append_assoc (texts s.out) (texts_if e n) (expected rest),
    )
