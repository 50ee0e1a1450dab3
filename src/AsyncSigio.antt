-- ===== src/AsyncSigio.antt =====
-- async_sigio.h and async_sigio.cpp: signal-driven input, with a table of callbacks that all
-- instances share.
pub mod Registry
pub mod Enable
mod Tests
use Prim.Native.Nat.{bit_and, bit_or}
use nonblocking_io.Common.{
  ℕ, ◌-◌, Bool, Option, none, some, List, [], ◌∷◌, ◌++◌, ◌&&◌, if◌then◌else◌, ℤ, pos, negsuc,
}
use nonblocking_io.Epoll.{is_minus_one}

-- `callbacks_`, a multimap of which only the key `SIGIO` is used: its callbacks in the order of their
-- inserts. `closed` are the descriptors that destructors have closed.
pub record Sigio : Type 0 where
  pub callbacks : List ℕ
  pub closed : List ℕ

-- An instance: its descriptor, and the identity of its callback.
pub record Instance : Type 0 where
  pub async_fd : ℕ
  pub callback : ℕ
  pub perror : Bool

-- The constructor, with `init_reg_callback`.
unfoldable pub construct : Instance → Sigio → Sigio
construct i s = record s { callbacks = s.callbacks ++ (i.callback ∷ []) }

unfoldable pub destruct : Instance → Sigio → Sigio
destruct i s = record s { closed = s.closed ++ (i.async_fd ∷ []) }

-- The loop over `equal_range(SIGIO)`: the callbacks that are called, each with the signal.
pub call_all : List ℕ → (sig : ℕ) → List (ℕ × ℕ)
call_all [] sig = []
call_all (f ∷ fs) sig = (f, sig) ∷ call_all fs sig

unfoldable pub async_sigio_handler : (sig : ℕ) → Sigio → List (ℕ × ℕ)
unfolding call_all
async_sigio_handler sig s = call_all s.callbacks sig

abbrev pub o_nonblock : ℕ
o_nonblock = 0x800

abbrev pub o_async : ℕ
o_async = 0x2000

-- `flags |= mask` on `int`
abbrev pub or_int : ℤ → ℕ → ℤ
or_int (pos n) mask = pos (bit_or n mask)
or_int (negsuc n) mask = negsuc (n - bit_and n mask)

-- What the calls of `enable` return; `get_flags` is that of `F_GETFL`.
pub record EnableCalls : Type 0 where
  pub sigaction : ℤ
  pub set_own : ℤ
  pub get_flags : ℤ
  pub set_flags : ℤ → ℤ

-- What `enable` returns, whether it has printed an error, and the flags it has asked for.
pub record Enabled : Type 0 where
  pub value : ℤ
  pub printed : Bool
  pub flags : Option ℤ

unfoldable pub enable : Instance → EnableCalls → Enabled
enable i calls =
    if is_minus_one calls.sigaction
    then record { value = negsuc 0; printed = i.perror; flags = none }
    else if is_minus_one calls.set_own
    then record { value = negsuc 0; printed = i.perror; flags = none }
    else let flags = or_int calls.get_flags (bit_or o_async o_nonblock) in
      if is_minus_one (calls.set_flags flags)
      then record { value = negsuc 0; printed = i.perror; flags = some flags }
      else record { value = pos 0; printed = Bool.false; flags = some flags }
