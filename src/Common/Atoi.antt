-- ===== src/Common/Atoi.antt =====
-- `atoi`, and the conversions of its `int` to the unsigned types.
use Prim.Native.Nat.{ℕ, zero, suc, ◌+◌, ◌-◌, ◌*◌, ◌/◌, ◌%◌, ◌<◌}
use mathlib.Core.Path.{◌≡◌, refl, ap, ◌∙◌}
use mathlib.Core.Logic.{inl, inr}
use mathlib.Core.Bool.{Bool, true, ◌&&◌, ◌||◌}
use mathlib.Core.List.{List, [], ◌∷◌, ◌++◌}
use native.Mathlib.Omega.{arith}
use nonblocking_io.Common.Tests.{ltb, leb, ◌==◌, if◌then◌else◌, Bool-cases}
use nonblocking_io.Common.Lists.{All, All-append_one}
use nonblocking_io.Common.Ints.{ℤ, pos, negsuc}
use nonblocking_io.Common.Bytes.{decimal_digits, decimal}

abbrev pub is_digit : ℕ → Bool
is_digit c = leb b'0' c && leb c b'9'

-- The value of the digits at the start, behind `acc`.
unfoldable pub digits_value : ℕ → List ℕ → ℕ
digits_value acc [] = acc
digits_value acc (c ∷ cs) =
    let more = digits_value (acc * 10 + (c - b'0')) cs in if is_digit c then more else acc

abbrev pub negated : ℕ → ℤ
negated zero = pos 0
negated (suc n) = negsuc n

abbrev pub signed_value : List ℕ → ℤ
signed_value [] = pos 0
signed_value (c ∷ cs) =
    if c == b'-'
    then negated (digits_value 0 cs)
    else if c == b'+'
    then pos (digits_value 0 cs)
    else pos (digits_value 0 (c ∷ cs))

-- Blanks, a sign and digits. A value past the range of `int` is undefined, and not told apart.
unfoldable pub atoi : List ℕ → ℤ
unfolding digits_value
atoi [] = pos 0
atoi (c ∷ cs) =
    let rest = atoi cs in if c == 32 || (leb 9 c && leb c 13) then rest else signed_value (c ∷ cs)

-- A conversion to an unsigned type of `size` values.
abbrev pub to_unsigned : (size : ℕ) → ℤ → ℕ
to_unsigned size (pos n) = n % size
to_unsigned size (negsuc n) = (size - 1) - n % size

digits_value-append :
    (xs : List ℕ) (acc c : ℕ)
    → All (λ x. is_digit x ≡ true) xs
    → is_digit c ≡ true
    → digits_value acc (xs ++ (c ∷ [])) ≡ digits_value acc xs * 10 + (c - b'0')
unfolding digits_value
digits_value-append [] acc c h d = ground (arith, d)
digits_value-append (x ∷ xs) acc c (h, hs) d =
    ground (arith, h, digits_value-append xs (acc * 10 + (x - b'0')) c hs d)

digit_lem : (n : ℕ) → n < 10 → is_digit (b'0' + n) ≡ true
digit_lem n h = ground arith

decimal_digits_lem :
    (fuel n : ℕ)
    → n < fuel
    → All (λ x. is_digit x ≡ true) (decimal_digits fuel n)
      × (digits_value 0 (decimal_digits fuel n) ≡ n)
unfolding decimal_digits digits_value
decimal_digits_lem zero n h = elim h [ ]
decimal_digits_lem (suc fuel) n h = elim (Bool-cases (ltb n 10)) [
  | inl small ↦ rw small ((digit_lem n (ground (arith, small)), tt), ground (arith, digit_lem n))
  | inr large ↦
      let (h, e) = decimal_digits_lem fuel (n / 10) (ground (arith, large)) in
      let d : is_digit (b'0' + n % 10) ≡ true = digit_lem (n % 10) (omega arith) in
      rw large (
        All-append_one (λ x. is_digit x ≡ true) (decimal_digits fuel (n / 10)) (b'0' + n % 10) h d,
        omega (arith, e, digits_value-append (decimal_digits fuel (n / 10)) 0 (b'0' + n % 10) h d),
      )
]

atoi_digits : (xs : List ℕ) → All (λ x. is_digit x ≡ true) xs → atoi xs ≡ pos (digits_value 0 xs)
unfolding atoi
atoi_digits [] h = refl
atoi_digits (c ∷ cs) (h, hs) = ground (arith, h)

pub decimal_only_digits : (n : ℕ) → All (λ x. is_digit x ≡ true) (decimal n)
unfolding decimal
decimal_only_digits n = (decimal_digits_lem (suc n) n (omega arith)).0

-- The text of a number that `%d` prints is read back as that number.
pub atoi-decimal : (n : ℕ) → atoi (decimal n) ≡ pos n
unfolding decimal
atoi-decimal n =
    let (h, e) = decimal_digits_lem (suc n) n (omega arith) in
    atoi_digits (decimal_digits (suc n) n) h ∙ ap pos e
