-- ===== src/Programs/Signals.antt =====
-- `o_async_io` of main.cpp: the keyboard's signals, the terminal's mode, and a loop that waits for a
-- `#`.
mod Tests
use nonblocking_io.Common.{
  ℕ, zero, suc, ◌+◌, ◌≡◌, refl, Bool, true, false, ◌||◌, Option, none, some, List, [], ◌∷◌, ◌++◌,
  append-nil, arith, ◌==◌, if◌then◌else◌, ℤ,
}
use nonblocking_io.AsyncSigio.{Sigio, Instance, EnableCalls, Enabled, construct, destruct, enable}
use nonblocking_io.CbreakTerm.{Termios, Init, init}
use nonblocking_io.Programs.Keyboard.{sigio_handler}

-- `finish` after the signals of one round, each with the bytes that the handler's reads find.
unfoldable pub after_signals : List (List ℕ) → (finish : Bool) → Bool
unfolding sigio_handler
after_signals [] finish = finish
after_signals (input ∷ signals) finish = after_signals signals (sigio_handler input finish).finish

-- How often the loop has printed, and `finish`.
pub record Waited : Type 0 where
  pub lines : ℕ
  pub finish : Bool

-- The loop, over the signals that come in each of its sleeps.
unfoldable pub wait_loop : List (List (List ℕ)) → (finish : Bool) → Waited
unfolding after_signals
wait_loop [] finish = record { lines = 0; finish = finish }
wait_loop (signals ∷ rounds) finish =
    let rest = wait_loop rounds (after_signals signals finish) in
    if finish
    then record { lines = 0; finish = finish }
    else record { lines = suc rest.lines; finish = rest.finish }

pub record AsyncRun : Type 0 where
  pub sigio : Sigio
  pub enabled : Enabled
  pub term : Init
  pub waited : Waited

-- Over the results of the calls of `enable` and of `init`, whose results are dropped. The destructor
-- runs when the loop is over.
unfoldable pub o_async_io :
    Instance
    → EnableCalls
    → Option Termios
    → (set_attr : Termios → ℤ) → List (List (List ℕ))
    → Sigio
    → AsyncRun
unfolding construct destruct enable init wait_loop
o_async_io i calls attr set_attr rounds s = record {
  sigio = if (wait_loop rounds false).finish then destruct i (construct i s) else construct i s;
  enabled = enable i calls;
  term = init true attr set_attr;
  waited = wait_loop rounds false;
}

abbrev pub has_hash : List ℕ → Bool
has_hash [] = false
has_hash (c ∷ cs) = c == b'#' || has_hash cs

abbrev pub some_hash : List (List ℕ) → Bool
some_hash [] = false
some_hash (input ∷ signals) = has_hash input || some_hash signals

abbrev pub ever_hash : List (List (List ℕ)) → Bool
ever_hash [] = false
ever_hash (signals ∷ rounds) = some_hash signals || ever_hash rounds

-- The rounds up to the first with a `#`.
abbrev pub rounds_until : List (List (List ℕ)) → ℕ
rounds_until [] = 0
rounds_until (signals ∷ rounds) = suc (if some_hash signals then 0 else rounds_until rounds)

read_loop-finish :
    (input : List ℕ) (finish : Bool)
    → (nonblocking_io.Programs.Keyboard.read_loop input finish).finish ≡ (finish || has_hash input)
unfolding nonblocking_io.Programs.Keyboard.read_loop
read_loop-finish [] finish = ground arith
read_loop-finish (c ∷ cs) finish = ground (arith, read_loop-finish cs (c == b'#'))

after_signals-finish :
    (signals : List (List ℕ)) (finish : Bool)
    → after_signals signals finish ≡ (finish || some_hash signals)
unfolding after_signals
after_signals-finish [] finish = ground arith
after_signals-finish (input ∷ signals) finish = ground (
  arith,
  after_signals-finish signals (sigio_handler input finish).finish,
  read_loop-finish input finish,
)

wait_loop_lem :
    (rounds : List (List (List ℕ)))
    → (wait_loop rounds true ≡ record { lines = 0; finish = true })
      × (wait_loop rounds false ≡ record { lines = rounds_until rounds; finish = ever_hash rounds })
unfolding wait_loop
wait_loop_lem [] = (refl, refl)
wait_loop_lem (signals ∷ rounds) =
    (refl, ground (arith, after_signals-finish signals false, wait_loop_lem rounds))

-- Whatever the calls return, and whatever signals come in which of the loop's sleeps: the loop is over
-- exactly if some handler has read a `#`, and it has printed once in each round up to the first with
-- a `#`. The callback stays in the table that all instances share; and when the loop is over, the
-- descriptor that the instance was given is closed.
pub o_async_io_ends :
    (i : Instance) (calls : EnableCalls) (attr : Option Termios) (set_attr : Termios → ℤ)
    (rounds : List (List (List ℕ))) (s : Sigio)
    → let r = o_async_io i calls attr set_attr rounds s in
      (r.waited.finish ≡ ever_hash rounds)
      × (r.waited.lines ≡ rounds_until rounds)
      × (r.sigio.callbacks ≡ s.callbacks ++ (i.callback ∷ []))
      × (r.sigio.closed ≡ s.closed ++ (if ever_hash rounds then i.async_fd ∷ [] else []))
unfolding o_async_io
o_async_io_ends i calls attr set_attr rounds s = (
  ground (arith, wait_loop_lem rounds),
  ground (arith, wait_loop_lem rounds),
  ground arith,
  ground (arith, wait_loop_lem rounds, append-nil s.closed),
)
