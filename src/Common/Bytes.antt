-- ===== src/Common/Bytes.antt =====
-- C strings in buffers: a text as its bytes, a write with its closing NUL, decimal print, and
-- `strcmp`; and the order of bytes on the network.
use Prim.Native.Nat.{ℕ, zero, suc, ◌*◌, ◌^◌, ◌+◌, ◌/◌, ◌%◌, ◌<◌}
use Prim.Native.Char.{code}
use Prim.Native.String.{String}
use mathlib.Core.Path.{◌≡◌, refl, ap, ap₂, ◌∙◌}
use mathlib.Core.Bool.{false, Bool, true, not, ◌&&◌}
use mathlib.Core.Logic.{◌≢◌, inl, inr}
use mathlib.Core.Option.{Option, none, some}
use mathlib.Core.List.{List, [], ◌∷◌, ◌++◌, append_assoc}
use native.Mathlib.Omega.{arith}
use nonblocking_io.Common.Tests.{Bool-cases, ==_iff, ltb, leb, ◌==◌, if◌then◌else◌}
use nonblocking_io.Common.Lists.{
  length, length-append, take, drop, take-append, drop-append, take-append_more, length-take,
  length-drop,
}

-- UTF-8 of a code point below 0x800.
abbrev pub encode : ℕ → List ℕ
encode c = if ltb c 0x80 then c ∷ [] else (0xc0 + c / 64) ∷ (0x80 + c % 64) ∷ []

unfoldable pub bytes : String → List ℕ
bytes String.[] = []
bytes (String.◌∷◌ c s) = encode (code c) ++ bytes s

unfoldable pub bytes_of_all : List String → List ℕ
unfolding bytes
bytes_of_all [] = []
bytes_of_all (s ∷ ss) = bytes s ++ bytes_of_all ss

-- `%d` and `%zu` of a number; the fuel is enough, as each digit takes a tenth.
unfoldable pub decimal_digits : ℕ → ℕ → List ℕ
decimal_digits zero n = []
decimal_digits (suc fuel) n =
    let front = decimal_digits fuel (n / 10) in
    if ltb n 10 then (b'0' + n) ∷ [] else front ++ ((b'0' + n % 10) ∷ [])

unfoldable pub decimal : ℕ → List ℕ
unfolding decimal_digits
decimal n = decimal_digits (suc n) n

-- `strcpy` and `sprintf` into a buffer from `offset` on; `none` if the text and its NUL do not fit.
unfoldable pub write_text : ℕ → List ℕ → List ℕ → Option (List ℕ)
write_text offset text buf =
    if leb (offset + length text + 1) (length buf)
    then some (take offset buf ++ (text ++ (0 ∷ drop (offset + length text + 1) buf)))
    else none

-- `strlen`, of a buffer that holds a NUL.
unfoldable pub strlen : List ℕ → ℕ
strlen [] = 0
strlen (c ∷ cs) = if c == 0 then 0 else suc (strlen cs)

-- The text of a buffer, up to its NUL.
unfoldable pub c_str : List ℕ → List ℕ
c_str [] = []
c_str (c ∷ cs) = if c == 0 then [] else c ∷ c_str cs

-- No byte is NUL.
unfoldable pub no_nul : List ℕ → Bool
no_nul [] = true
no_nul (c ∷ cs) = not (c == 0) && no_nul cs

pub no_nul-append :
    (xs ys : List ℕ) → no_nul xs ≡ true → no_nul ys ≡ true → no_nul (xs ++ ys) ≡ true
unfolding no_nul
no_nul-append [] ys h h' = h'
no_nul-append (x ∷ xs) ys h h' = ground (arith, no_nul-append xs ys)

pub strlen-append :
    (text rest : List ℕ) → no_nul text ≡ true → strlen (text ++ (0 ∷ rest)) ≡ length text
unfolding strlen no_nul
strlen-append [] rest h = refl
strlen-append (c ∷ cs) rest h = ground (arith, strlen-append cs rest)

pub c_str-append : (text rest : List ℕ) → no_nul text ≡ true → c_str (text ++ (0 ∷ rest)) ≡ text
unfolding c_str no_nul
c_str-append [] rest h = refl
c_str-append (c ∷ cs) rest h = ground (arith, c_str-append cs rest)

-- How many line feeds a text has.
unfoldable pub feeds : List ℕ → ℕ
feeds [] = 0
feeds (c ∷ cs) = (if c == 10 then 1 else 0) + feeds cs

pub feeds-append : (xs ys : List ℕ) → feeds (xs ++ ys) ≡ feeds xs + feeds ys
unfolding feeds
feeds-append [] ys = omega arith
feeds-append (x ∷ xs) ys = ground (arith, feeds-append xs ys)

-- A text without a NUL of its own.
pub c_str_whole :
    (text : List ℕ) → no_nul text ≡ true → (c_str text ≡ text) × (strlen text ≡ length text)
unfolding c_str strlen no_nul
c_str_whole [] h = (refl, refl)
c_str_whole (c ∷ cs) h = (ground (arith, c_str_whole cs), ground (arith, c_str_whole cs))

-- A text that fits at the start of the buffer.
pub write_text-start :
    (text buf : List ℕ)
    → length text < length buf
    → write_text 0 text buf ≡ some (text ++ (0 ∷ drop (length text + 1) buf))
unfolding write_text
write_text-start text buf h = ground arith

drop_past :
    (c : ℕ) (first second rest : List ℕ)
    → drop (length first + length second + 1) (first ++ (c ∷ rest)) ≡ drop (length second) rest
drop_past c first second rest =
    ap (λ n. drop n (first ++ (c ∷ rest))) regroup
    ∙ drop-append first (c ∷ rest) (suc (length second))
  where
    regroup : length first + length second + 1 ≡ length first + suc (length second)
    regroup = omega arith

-- A second text behind the first, over its NUL or another byte that stands there.
pub write_text-end :
    (c : ℕ) (first second rest : List ℕ)
    → length second < length rest + 1
    → write_text (length first) second (first ++ (c ∷ rest))
      ≡ some (first ++ (second ++ (0 ∷ drop (length second) rest)))
unfolding write_text
write_text-end c first second rest h = ground (
  arith,
  length-append first (c ∷ rest),
  take-append first (c ∷ rest),
  drop_past c first second rest,
)

-- A text behind the NUL of another, which stays.
pub write_text_behind :
    (first second rest : List ℕ) (gap : ℕ)
    → gap + length second < length rest
    → (rest' : List ℕ) × (write_text (length first + suc gap) second (first ++ (0 ∷ rest))
        ≡ some (first ++ (0 ∷ rest')))
      × (length rest' ≡ length rest)
unfolding write_text
write_text_behind first second rest gap h = (
  take gap rest ++ (second ++ (0 ∷ drop (gap + length second + 1) rest)),
  ground (
    arith,
    length-append first (0 ∷ rest),
    ap some (
        ap₂ (λ a b. a ++ (second ++ (0 ∷ b))) front back
        ∙ append_assoc first (0 ∷ take gap rest) _),
  ),
  omega (
    arith,
    length-append (take gap rest) (second ++ (0 ∷ drop (gap + length second + 1) rest)),
    length-append second (0 ∷ drop (gap + length second + 1) rest),
    length-take gap rest,
    length-drop (gap + length second + 1) rest,
  ),
)
  where
    front : take (length first + suc gap) (first ++ (0 ∷ rest)) ≡ first ++ (0 ∷ take gap rest)
    front = take-append_more first (0 ∷ rest) (suc gap)

    regroup :
        length first + suc gap + length second + 1 ≡ length first + suc (gap + length second + 1)
    regroup = omega arith

    back :
        drop (length first + suc gap + length second + 1) (first ++ (0 ∷ rest))
        ≡ drop (gap + length second + 1) rest
    back =
        ap (λ n. drop n (first ++ (0 ∷ rest))) regroup
        ∙ drop-append first (0 ∷ rest) (suc (gap + length second + 1))

-- `htonl` and `htons` on a little-endian processor.
abbrev pub htonl : ℕ → ℕ
htonl n =
    (n % 256) * 2 ^ 24
    + ((n / 2 ^ 8) % 256) * 2 ^ 16
    + ((n / 2 ^ 16) % 256) * 2 ^ 8
    + (n / 2 ^ 24) % 256

abbrev pub htons : ℕ → ℕ
htons n = (n % 256) * 256 + (n / 256) % 256

-- `strcmp(a, b) == 0`
unfoldable pub same_text : List ℕ → List ℕ → Bool
same_text [] [] = true
same_text (x ∷ xs) (y ∷ ys) = if x == y then same_text xs ys else false
same_text [] (y ∷ ys) = false
same_text (x ∷ xs) [] = false

same_text_refl : (xs : List ℕ) → same_text xs xs ≡ true
unfolding same_text
same_text_refl [] = refl
same_text_refl (x ∷ xs) = ground (arith, same_text_refl xs)

same_text-eq : (xs ys : List ℕ) → same_text xs ys ≡ true → xs ≡ ys
unfolding same_text
same_text-eq [] [] h = refl
same_text-eq (x ∷ xs) (y ∷ ys) h = elim (Bool-cases (x == y)) [
  | inl e ↦ ap₂ (λ z zs. z ∷ zs) ((==_iff x y).0 e) (same_text-eq xs ys (ground (arith, h, e)))
  | inr e ↦ absurd (ground (arith, h, e))
]
same_text-eq [] (y ∷ ys) h = absurd (ground (arith, h))
same_text-eq (x ∷ xs) [] h = absurd (ground (arith, h))

pub not_same : {xs ys : List ℕ} → xs ≢ ys → same_text xs ys ≡ false
not_same {xs} {ys} h = elim (Bool-cases (same_text xs ys)) [
  | inl e ↦ absurd (h (same_text-eq xs ys e))
  | inr e ↦ e
]
