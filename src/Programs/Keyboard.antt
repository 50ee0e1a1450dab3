-- ===== src/Programs/Keyboard.antt =====
-- `sigio_handler` of main.cpp: what is typed, up to a `#`.
use mathlib.Core.List.{map}
use nonblocking_io.Common.{
  ℕ, ◌≡◌, refl, ap, Bool, true, false, not, ◌||◌, List, [], ◌∷◌, ◌++◌, arith, ◌==◌, if◌then◌else◌,
  bytes, drop, All,
}

-- `printf("read %c\n", ch)`, and the other branch, for a carriage return.
abbrev pub read_line : ℕ → List ℕ
read_line c = bytes "read " ++ (c ∷ b'\n' ∷ [])

abbrev pub line_for : ℕ → List ℕ
line_for c = if not (c == b'\r') || not (c == b'\n') then read_line c else bytes "read <CR>"

-- What has been printed, the bytes that are left to read, and `finish`.
pub record Handled : Type 0 where
  pub printed : List (List ℕ)
  pub left : List ℕ
  pub finish : Bool

-- The loop; `input` are the bytes that `read` gives one by one before it gives none. A byte is read
-- before `finish` is looked at.
unfoldable pub read_loop : (input : List ℕ) → (finish : Bool) → Handled
unfolding bytes
read_loop [] finish = record { printed = []; left = []; finish = finish }
read_loop (c ∷ cs) finish =
    let rest = read_loop cs (c == b'#') in
    if finish
    then record { printed = []; left = cs; finish = finish }
    else record rest { printed = line_for c ∷ rest.printed }

unfoldable pub sigio_handler : (input : List ℕ) → (finish : Bool) → Handled
unfolding read_loop
sigio_handler input finish =
    let r = read_loop input finish in record r { printed = bytes "io comes in!\n" ∷ r.printed }

-- No branch is for a carriage return: the two tests never fail at once.
line_for_lem : (c : ℕ) → line_for c ≡ read_line c
line_for_lem c = ground arith

finished_lem :
    (input : List ℕ)
    → read_loop input true ≡ record { printed = []; left = drop 1 input; finish = true }
unfolding read_loop
finished_lem [] = refl
finished_lem (c ∷ cs) = refl

read_loop_none :
    (input : List ℕ)
    → All (λ c. (c == b'#') ≡ false) input
    → read_loop input false ≡ record { printed = map read_line input; left = []; finish = false }
unfolding read_loop
read_loop_none [] h = refl
read_loop_none (c ∷ cs) (h, hs) = ground (arith, h, read_loop_none cs hs, line_for_lem c)

read_loop_some :
    (input post : List ℕ)
    → All (λ c. (c == b'#') ≡ false) input
    → read_loop (input ++ (b'#' ∷ post)) false
      ≡ record { printed = map read_line (input ++ (b'#' ∷ [])); left = drop 1 post; finish = true }
unfolding read_loop
read_loop_some [] post h = ground (arith, finished_lem post)
read_loop_some (c ∷ cs) post (h, hs) = ground (arith, h, read_loop_some cs post hs, line_for_lem c)

-- For an input without `#`: the handler prints a line for each byte, carriage returns included, reads
-- them all and is not finished. With a `#` behind it: it prints the lines up to the `#` and finishes,
-- and of what follows it has read one byte more, which is lost. Once finished, it prints no line, and
-- loses one byte too.
sigio_handler_reads :
    (input post : List ℕ)
    → All (λ c. (c == b'#') ≡ false) input
    → (sigio_handler input false ≡ record {
      printed = bytes "io comes in!\n" ∷ map read_line input;
      left = [];
      finish = false;
    })
      × (sigio_handler (input ++ (b'#' ∷ post)) false ≡ record {
        printed = bytes "io comes in!\n" ∷ map read_line (input ++ (b'#' ∷ []));
        left = drop 1 post;
        finish = true;
      })
      × (sigio_handler post true
          ≡ record { printed = bytes "io comes in!\n" ∷ []; left = drop 1 post; finish = true })
unfolding sigio_handler
sigio_handler_reads input post h = (
  ap (λ (r : Handled). record r { printed = bytes "io comes in!\n" ∷ r.printed })
      (read_loop_none input h),
  ap (λ (r : Handled). record r { printed = bytes "io comes in!\n" ∷ r.printed })
      (read_loop_some input post h),
  ap (λ (r : Handled). record r { printed = bytes "io comes in!\n" ∷ r.printed })
      (finished_lem post),
)
