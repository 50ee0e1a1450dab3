-- ===== src/Common/Ints.antt =====
-- The C++ integers: `int` as a signed number, `std::atomic_int16_t` as its bit pattern.
use Prim.Native.Nat.{ℕ, ◌+◌, ◌-◌, ◌%◌, ◌^◌}
use mathlib.Core.Bool.{Bool, true, false, ◌&&◌}
use nonblocking_io.Common.Tests.{ltb, if◌then◌else◌}

-- `negsuc n` is -(n + 1).
pub data ℤ : Type 0 where
  pos : ℕ → ℤ
  negsuc : ℕ → ℤ

-- `a < b` on `int`
abbrev pub ltb_ℤ : ℤ → ℤ → Bool
ltb_ℤ (pos a) (pos b) = ltb a b
ltb_ℤ (pos a) (negsuc b) = false
ltb_ℤ (negsuc a) (pos b) = true
ltb_ℤ (negsuc a) (negsuc b) = ltb b a

-- `COERCE_IN(a, l, r)` of thread_pool.h
unfoldable pub coerce_in : ℤ → ℤ → ℤ → ℤ
coerce_in a l r = if ltb_ℤ a l then l else if ltb_ℤ r a then r else a

-- A size that is known not to be negative.
abbrev pub to_ℕ : ℤ → ℕ
to_ℕ (pos n) = n
to_ℕ (negsuc n) = 0

abbrev pub int16_mod : ℕ
int16_mod = 2 ^ 16

-- `++`, `--` and `> 0` of a 16-bit atomic, which wrap.
unfoldable pub inc16 : ℕ → ℕ
inc16 x = (x + 1) % int16_mod

unfoldable pub dec16 : ℕ → ℕ
dec16 x = (x + int16_mod - 1) % int16_mod

unfoldable pub is_pos16 : ℕ → Bool
is_pos16 x = ltb 0 x && ltb x (2 ^ 15)

-- The two parts of an integer, which are numbers.
abbrev pub pos_part : ℤ → ℕ
pos_part (pos n) = n
pos_part (negsuc n) = 0

abbrev pub neg_part : ℤ → ℕ
neg_part (pos n) = 0
neg_part (negsuc n) = n + 1
