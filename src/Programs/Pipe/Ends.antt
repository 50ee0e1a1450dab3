-- ===== src/Programs/Pipe/Ends.antt =====
-- When the pipe test ends, and what it prints of an event.
use Prim.Native.Nat.{bit_or}
use nonblocking_io.Common.{
  ℕ, ◌+◌, ◌-◌, ◌≡◌, refl, ap, ◌∙◌, false, List, [], ◌∷◌, arith, ltb, leb, if◌then◌else◌, ℤ, pos,
  negsuc, ltb_ℤ, All, Bool-cases, inl, inr,
}
use nonblocking_io.Epoll.{has, Event, epollin, epollhup, epollerr, epollrdhup, is_minus_one}
use nonblocking_io.WorkerPool.Available.{dec_ℤ}
use nonblocking_io.WorkerPool.EventStr.{event_str}
use nonblocking_io.Programs.Pipe.{event_str2, Pipe, pipe_event, pipe_callback, thread_poll}

-- For an event without `EPOLLRDHUP`, and whatever the bytes are that `new` gives: the two functions
-- give the same, `event_str2` of main.cpp and `event_str` of tcp_worker_pool.cpp.
event_str2-eq-event_str :
    (str : List ℕ) (events : ℕ)
    → has events epollrdhup ≡ false
    → event_str2 str events ≡ event_str str events
unfolding event_str2 event_str
event_str2-eq-event_str str events h = rw h (ground arith)

-- An event that lowers `open_fd`.
abbrev pub closes : Event → ℕ
closes e =
    if has e.events epollin then 0 else if has e.events (bit_or epollhup epollerr) then 1 else 0

unfoldable pub closings : List (Event × ℤ) → ℕ
closings [] = 0
closings ((e, n) ∷ rest) = closes e + closings rest

unfoldable pub all_closings : List (List (Event × ℤ)) → ℕ
unfolding closings
all_closings [] = 0
all_closings (batch ∷ batches) = closings batch + all_closings batches

-- `m - c` on `int`
abbrev minus : ℕ → ℕ → ℤ
minus m c = if leb c m then pos (m - c) else negsuc (c - m - 1)

dec-minus : (m c : ℕ) → dec_ℤ (minus m c) ≡ minus m (c + 1)
dec-minus m c = ground arith

minus_positive : (m c : ℕ) → ltb_ℤ (pos 0) (minus m c) ≡ ltb c m
minus_positive m c = ground arith

-- No read fails.
abbrev pub ReadsWell : List (Event × ℤ) → Type 0
ReadsWell = All (λ e. is_minus_one e.1 ≡ false)

record Lowered (m c : ℕ) (p : Pipe) : Type 0 where
  open_is : p.open_fd ≡ minus m c
  runs : p.aborted ≡ false

sign_lem : {m c : ℕ} {p : Pipe} → Lowered m c p → ltb_ℤ (pos 0) p.open_fd ≡ ltb c m
sign_lem {m} {c} l = ap (ltb_ℤ (pos 0)) l.open_is ∙ minus_positive m c

event-Lowered :
    (e : Event) (n : ℤ) {m c : ℕ} {p : Pipe}
    → is_minus_one n ≡ false
    → Lowered m c p
    → Lowered m (c + closes e) (pipe_event e n p)
event-Lowered e n {m} {c} {p} well l = elim (Bool-cases (has e.events epollin)) [
  | inl reads ↦
      rw (reads, well) (record { open_is = l.open_is ∙ ap (minus m) (omega arith); runs = l.runs })
  | inr quiet ↦ elim (Bool-cases (has e.events (bit_or epollhup epollerr))) [
    | inl hung ↦
        rw (quiet, hung) (record { open_is = ap dec_ℤ l.open_is ∙ dec-minus m c; runs = l.runs })
    | inr nothing ↦
        rw (quiet, nothing)
          (record { open_is = l.open_is ∙ ap (minus m) (omega arith); runs = l.runs })
  ]
]

callback-Lowered :
    (batch : List (Event × ℤ)) {m c : ℕ} {p : Pipe}
    → ReadsWell batch
    → Lowered m c p
    → Lowered m (c + closings batch) (pipe_callback batch p)
unfolding pipe_callback closings
callback-Lowered [] {m} {c} well l = record {
  open_is = l.open_is ∙ ap (minus m) (omega arith);
  runs = l.runs;
}
callback-Lowered ((e, n) ∷ rest) {m} {c} {p} (well, well') l =
    let one = event-Lowered e n well l in
    let more = callback-Lowered rest well' one in
    rw one.runs (record { open_is = more.open_is ∙ ap (minus m) (omega arith); runs = more.runs })

poll-Lowered :
    (batches : List (List (Event × ℤ))) {m c : ℕ} {p : Pipe}
    → All ReadsWell batches
    → Lowered m c p
    → ltb_ℤ (pos 0) (thread_poll batches p).open_fd ≡ ltb (c + all_closings batches) m
unfolding thread_poll all_closings
poll-Lowered [] {m} {c} well l = sign_lem l ∙ ap (λ k. ltb k m) (omega arith)
poll-Lowered (batch ∷ batches) {m} {c} {p} (well, well') l =
    ground (arith, sign_lem l, l.runs, poll-Lowered batches well' (callback-Lowered batch well l))

-- For `argc - 1` files and polls in which no read fails: the loop of the pipe test is over exactly
-- if the polls have brought at least as many events with `EPOLLHUP` or `EPOLLERR` and without
-- `EPOLLIN` as there are files. An event that has `EPOLLIN` as well does not count.
thread_poll_ends :
    (files : ℕ) (batches : List (List (Event × ℤ)))
    → All ReadsWell batches
    → ltb_ℤ
        (pos 0)
        (thread_poll batches (record { open_fd = pos files; reads = []; aborted = false })).open_fd
      ≡ ltb (all_closings batches) files
thread_poll_ends files batches well =
    poll-Lowered batches {m = files} {c = 0} well (record { open_is = ground arith; runs = refl })
    ∙ ap (λ k. ltb k files) (omega arith)
