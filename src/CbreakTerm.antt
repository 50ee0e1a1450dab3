-- ===== src/CbreakTerm.antt =====
-- cbreak_term.h and cbreak_term.cpp: a terminal that gives one character at a time. The flag words are
-- numbers, and a mask of one bit is the number of that bit.
mod Tests
use nonblocking_io.Common.{
  ℕ, ◌+◌, ◌-◌, ◌*◌, ◌/◌, ◌%◌, ◌^◌, ◌≡◌, refl, Bool, true, false, not, ◌&&◌, Option, none, some,
  arith, if◌then◌else◌, ℤ, pos, negsuc,
}
use nonblocking_io.Epoll.{is_minus_one}

-- `flags &= ~mask` and `flags |= mask`
abbrev pub clear_bit : (bit flags : ℕ) → ℕ
clear_bit bit flags = flags - ((flags / 2 ^ bit) % 2) * 2 ^ bit

abbrev pub set_bit : (bit flags : ℕ) → ℕ
set_bit bit flags = flags + (1 - (flags / 2 ^ bit) % 2) * 2 ^ bit

-- `ISIG`, `ICANON` and `ECHO` of `c_lflag`, and `ICRNL`, of `c_iflag`, on Linux.
abbrev pub isig : ℕ
isig = 0

abbrev pub icanon : ℕ
icanon = 1

abbrev pub echo : ℕ
echo = 3

abbrev pub icrnl : ℕ
icrnl = 8

pub record Termios : Type 0 where
  pub c_iflag : ℕ
  pub c_lflag : ℕ
  pub vmin : ℕ
  pub vtime : ℕ

unfoldable pub cbreak_mode : Termios → Termios
cbreak_mode t = record t {
  c_lflag = clear_bit icrnl (set_bit isig (clear_bit echo (clear_bit icanon t.c_lflag)));
  vmin = 1;
  vtime = 0;
}

-- What `init` returns, whether it has printed an error, and the mode that it has asked for.
pub record Init : Type 0 where
  pub value : ℤ
  pub printed : Bool
  pub asked : Option Termios

-- `init`, over what `tcgetattr` gives, `none` for -1, and what `tcsetattr` returns.
unfoldable pub init : (perror : Bool) → Option Termios → (set_attr : Termios → ℤ) → Init
unfolding cbreak_mode
init perror none set_attr = record { value = negsuc 0; printed = perror; asked = none }
init perror (some t) set_attr =
    if is_minus_one (set_attr (cbreak_mode t))
    then record { value = negsuc 0; printed = perror; asked = some (cbreak_mode t) }
    else record { value = pos 0; printed = false; asked = some (cbreak_mode t) }

-- What `init` does to the mode of any terminal: in `c_lflag` it sets bit 0, `ISIG`, and clears bits
-- 1 and 3, `ICANON` and `ECHO`, and bit 8, which there is `TOSTOP`; all other bits stay. `c_iflag`
-- stays, with its `ICRNL`. Reads wait for one character, without a time.
cbreak_mode_bits :
    (t : Termios)
    → let u = cbreak_mode t in
      (u.c_lflag
        ≡ (t.c_lflag / 512) * 512 + ((t.c_lflag / 16) % 16) * 16 + ((t.c_lflag / 4) % 2) * 4 + 1)
      × (u.c_iflag ≡ t.c_iflag)
      × (u.vmin ≡ 1)
      × (u.vtime ≡ 0)
unfolding cbreak_mode
cbreak_mode_bits t = (omega arith, refl, refl, refl)
