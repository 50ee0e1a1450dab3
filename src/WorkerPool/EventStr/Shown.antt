-- ===== src/WorkerPool/EventStr/Shown.antt =====
-- What of an event its text shows.
use nonblocking_io.Common.{
  ℕ, suc, ◌+◌, ◌<◌, ◌≡◌, refl, sym, ap, ◌∙◌, Bool, true, false, Option, some, List, [], ◌∷◌, ◌++◌,
  append_assoc, arith, length, length-append, drop, length-drop, bytes, write_text,
  write_text-start, write_text-end, write_text_behind, c_str, c_str-append, no_nul,
}
use nonblocking_io.Epoll.{has, epollin, epollhup, epollerr, epollrdhup}
use nonblocking_io.WorkerPool.EventStr.{put_if, event_str}

-- A string of 128 bytes that reads as `text`.
record Reads (text : List ℕ) (o : Option (List ℕ)) : Type 0 where
  rest : List ℕ
  eq : o ≡ some (text ++ (0 ∷ rest))
  size : length text + 1 + length rest ≡ 128

skip :
    {text : List ℕ} {o : Option (List ℕ)} (offset : ℕ) (more : List ℕ)
    → Reads text o
    → Reads text (put_if false offset more o)
skip offset more r = record { rest = r.rest; eq = rw r.eq refl; size = r.size }

first_text :
    (text str : List ℕ)
    → length str ≡ 128
    → length text < 128
    → Reads text (put_if true 0 text (some str))
first_text text str whole fits = record {
  rest = drop (length text + 1) str;
  eq = write_text-start text str (omega (arith, whole));
  size = omega (arith, length-drop (length text + 1) str, whole);
}

-- A text directly behind the one that is there.
next_text :
    {text : List ℕ} {o : Option (List ℕ)} (more : List ℕ)
    → Reads text o
    → length text + length more < 128
    → Reads (text ++ more) (put_if true (length text) more o)
next_text {text} more r fits = record {
  rest = drop (length more) r.rest;
  eq = rw r.eq (
      write_text-end 0 text more r.rest (omega (arith, r.size))
      ∙ ap some (sym (append_assoc text more (0 ∷ drop (length more) r.rest))));
  size = omega (arith, length-append text more, length-drop (length more) r.rest, r.size);
}

-- A text behind the end of the one that is there is not seen.
unseen_text :
    {text : List ℕ} {o : Option (List ℕ)} (bit : Bool) (gap : ℕ) (more : List ℕ)
    → Reads text o
    → length text + suc gap + length more < 128
    → Reads text (put_if bit (length text + suc gap) more o)
unseen_text {text} true gap more r fits =
    let (rest', eq', same) = write_text_behind text more r.rest gap (omega (arith, r.size)) in
    record { rest = rest'; eq = rw r.eq eq'; size = omega (arith, r.size, same) }
unseen_text {text} false gap more r fits = skip (length text + suc gap) more r

-- A text over the last byte of the one that is there.
over_last :
    {o : Option (List ℕ)} (text : List ℕ) (c : ℕ) (more : List ℕ)
    → Reads (text ++ (c ∷ [])) o
    → 0 < length more
    → length text + length more < 128
    → Reads (text ++ more) (put_if true (length text) more o)
over_last text c more r some_more fits = record {
  rest = drop (length more) (0 ∷ r.rest);
  eq = rw r.eq (
      ap (write_text (length text) more) (append_assoc text (c ∷ []) (0 ∷ r.rest))
      ∙ write_text-end c text more (0 ∷ r.rest) (omega (arith, r.size, length-append text (c ∷ [])))
      ∙ ap some (sym (append_assoc text more (0 ∷ drop (length more) (0 ∷ r.rest)))));
  size = omega (
    arith,
    length-append text more,
    length-append text (c ∷ []),
    length-drop (length more) (0 ∷ r.rest),
    r.size,
  );
}

-- What can be read, by the bits for a hang-up, an error and a hang-up of the other side.
unfoldable pub shown : (hup err rdhup : Bool) → List ℕ
unfolding bytes
shown false err rdhup = bytes "epoll in "
shown true false rdhup = bytes "epoll in epoll hup "
shown true true false = bytes "epoll in epoll hup epoll err "
shown true true true = bytes "epoll in epoll hup epoll errepoll hup"

module _ (str : List ℕ) (whole : length str ≡ 128) where
  in_text : Reads (bytes "epoll in ") (put_if true 0 (bytes "epoll in ") (some str))
  unfolding bytes
  in_text = first_text (bytes "epoll in ") str whole (omega arith)

  hup_text :
      Reads
        (bytes "epoll in epoll hup ")
        (put_if true 9 (bytes "epoll hup ") (put_if true 0 (bytes "epoll in ") (some str)))
  unfolding bytes
  hup_text = next_text {text = bytes "epoll in "} (bytes "epoll hup ") in_text (omega arith)

  err_text : Reads (bytes "epoll in epoll hup epoll err ") (
      put_if true 19
        (bytes "epoll err ")
        (put_if true 9 (bytes "epoll hup ") (put_if true 0 (bytes "epoll in ") (some str))))
  unfolding bytes
  err_text =
      next_text {text = bytes "epoll in epoll hup "} (bytes "epoll err ") hup_text (omega arith)

  bits-Reads :
      (hup err rdhup : Bool)
      → Reads (shown hup err rdhup) (
          put_if rdhup 28 (bytes "epoll hup") (
            put_if err 19
              (bytes "epoll err ")
              (put_if hup 9 (bytes "epoll hup ") (put_if true 0 (bytes "epoll in ") (some str)))))
  unfolding bytes shown
  bits-Reads false err rdhup =
      unseen_text {text = bytes "epoll in "} rdhup 18 (bytes "epoll hup")
        (unseen_text {text = bytes "epoll in "} err 9 (bytes "epoll err ")
          (skip 9 (bytes "epoll hup ") in_text) (omega arith))
        (omega arith)
  bits-Reads true false rdhup =
      unseen_text {text = bytes "epoll in epoll hup "} rdhup 8 (bytes "epoll hup")
        (skip 19 (bytes "epoll err ") hup_text) (omega arith)
  bits-Reads true true false = skip 28 (bytes "epoll hup") err_text
  bits-Reads true true true =
      over_last (bytes "epoll in epoll hup epoll err") 32 (bytes "epoll hup") err_text (omega arith)
        (omega arith)

  no_nul-shown : (hup err rdhup : Bool) → no_nul (shown hup err rdhup) ≡ true
  unfolding no_nul bytes shown
  no_nul-shown false err rdhup = refl
  no_nul-shown true false rdhup = refl
  no_nul-shown true true false = refl
  no_nul-shown true true true = refl

  -- For an event with `EPOLLIN`, whatever the 128 bytes are that `new` gives: `event_str` writes
  -- nothing past them, and its text is as follows. Each later bit is shown only if those before it
  -- are set: an error is not seen without `EPOLLHUP`, nor `EPOLLRDHUP` without both.
  event_str-shown :
      (events : ℕ)
      → has events epollin ≡ true
      → (text : List ℕ) × (event_str str events ≡ some text)
        × (length text ≡ 128)
        × (c_str text ≡ shown (has events epollhup) (has events epollerr) (has events epollrdhup))
  unfolding event_str bytes
  event_str-shown events h =
      let r = bits-Reads (has events epollhup) (has events epollerr) (has events epollrdhup) in
      let text = shown (has events epollhup) (has events epollerr) (has events epollrdhup) in
      (
        text ++ (0 ∷ r.rest),
        rw h r.eq,
        omega (arith, length-append text (0 ∷ r.rest), r.size),
        c_str-append text r.rest
            (no_nul-shown (has events epollhup) (has events epollerr) (has events epollrdhup)),
      )
