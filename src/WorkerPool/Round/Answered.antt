-- ===== src/WorkerPool/Round/Answered.antt =====
-- One round of a worker: that it comes to its end, and what it has sent then.
use nonblocking_io.Common.{
  ℕ, ◌≡◌, ◌≤◌, ◌<◌, refl, sym, ◌∙◌, Option, none, some, List, [], ◌∷◌, ◌++◌, append-nil, arith, ℤ,
  pos, length, drop,
}
use nonblocking_io.Epoll.{Kernel, Event, poll_event}
use nonblocking_io.WorkerPool.{ClientInfo, Worker, take_first}
use nonblocking_io.WorkerPool.Reply.{bufsiz}
use nonblocking_io.WorkerPool.WaitTime.{wait_time_bounds}
use nonblocking_io.WorkerPool.Callback.Answers.{texts, expected, callback_answers}
use nonblocking_io.WorkerPool.Round.{
  Round, Input, with_reads, add_to, arrive_and_take, answer_all, poll_for, worker_round,
}

-- Between 1 and `worker_num` workers are available when their number is used.
abbrev pub IsAvailable : (worker_num : ℕ) → Input → Type 0
IsAvailable worker_num i = (u : ℕ) × (i.used ≡ pos u) × (0 < u) × (u ≤ worker_num)

-- What is to be sent for what `epoll_wait` gives, by the reads of the round.
abbrev pub expected_of : (read_of : ℕ → ℤ) → Option (List Event) → List (ℕ × List ℕ)
expected_of read_of none = []
expected_of read_of (some events) = expected (with_reads read_of events)

module _ {State : Type 0} (k : Kernel State) where
  -- `r` is `s` with the texts `new` sent, in whole buffers.
  pub record Answers (s : Round State) (new : List (ℕ × List ℕ)) (r : Round State) : Type 0 where
    pub storage : r.storage ≡ s.storage
    pub worker : r.worker ≡ s.worker
    pub whole : length r.written.buf ≡ bufsiz
    pub sent : texts r.written.out ≡ texts s.written.out ++ new

  answer_all-Answers :
      (read_of : ℕ → ℤ) (ready : Option (List Event)) (s : Round State)
      → length s.written.buf ≡ bufsiz
      → (r : Round State) × (answer_all k read_of ready s ≡ some r)
        × Answers s (expected_of read_of ready) r
  answer_all-Answers read_of none s whole = (
    s,
    refl,
    record {
      storage = refl;
      worker = refl;
      whole = whole;
      sent = sym (append-nil (texts s.written.out));
    },
  )
  answer_all-Answers read_of (some events) s whole =
      let (t, e, whole', sent) = callback_answers (with_reads read_of events) s.written whole in
      (
        record s { written = t },
        rw (answer_all, e),
        record { storage = refl; worker = refl; whole = whole'; sent = sent },
      )

  -- `s` once the poller has been polled.
  abbrev pub after_wait : Round State → (timeout : ℤ) → Round State
  after_wait s timeout = record s {
    worker = record s.worker { poller = (k.wait s.worker.poller timeout).1 };
  }

  poll_for-eq :
      (read_of : ℕ → ℤ) (timeout : ℤ) (s : Round State)
      → poll_for k read_of (some timeout) s
        ≡ answer_all k read_of (k.wait s.worker.poller timeout).0 (after_wait s timeout)
  unfolding poll_event
  poll_for-eq read_of timeout s = ground arith

  take_first-storage :
      (storage : List ClientInfo) (w : Worker State)
      → (take_first (add_to k) storage w).0 ≡ drop 1 storage
  take_first-storage [] w = refl
  take_first-storage (info ∷ rest) w = refl

  -- For a worker of a pool of `worker_num`, in a round in which between 1 and `worker_num` workers are
  -- available when it uses their number, with whatever number at its test, and with a send buffer of
  -- `BUFSIZ` bytes: the round comes to its end. The worker takes one client, the first, if there is
  -- one, polls once with a timeout between 1 and `worker_num` milliseconds, keeps its records, and
  -- the texts that it sends, each up to its first NUL, are what the callback owes to the events that
  -- the poll gives, and none if the poll fails.
  pub worker_round-Answers :
      (worker_num : ℕ) (i : Input) (s : Round State)
      → IsAvailable worker_num i
      → length s.written.buf ≡ bufsiz
      → let taken = arrive_and_take k i.arrived s in
        (w : ℕ) × (0 < w)
        × (w ≤ worker_num)
        × (r : Round State) × (worker_round k worker_num i s ≡ some r)
        × (r.storage ≡ drop 1 (s.storage ++ i.arrived))
        × Answers
            (after_wait taken (pos w))
            (expected_of i.read_of (k.wait taken.worker.poller (pos w)).0)
            r
  unfolding worker_round
  worker_round-Answers worker_num i s (u, used, lo, hi) whole =
      let (w, e, lo', hi') = wait_time_bounds worker_num i.tested u lo hi in
      let taken = arrive_and_take k i.arrived s in
      let (r, e', answers) =
        answer_all-Answers i.read_of (k.wait taken.worker.poller (pos w)).0
          (after_wait taken (pos w)) whole in
      (
        w,
        lo',
        hi',
        r,
        rw (used, e, poll_for-eq i.read_of (pos w) taken) e',
        answers.storage ∙ take_first-storage (s.storage ++ i.arrived) s.worker,
        answers,
      )
