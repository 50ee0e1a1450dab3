-- ===== src/Utils.antt =====
-- utils.h and utils.cpp: the messages for failed calls, with the text of `errno`, and the non-blocking
-- mode of a descriptor.
pub mod Messages
mod Tests
use Prim.Native.String.{String}
use nonblocking_io.Common.{
  ℕ, ◌+◌, Bool, true, false, Option, none, some, List, [], ◌∷◌, ◌++◌, if◌then◌else◌, ℤ, pos, negsuc,
  bytes, decimal,
}
use nonblocking_io.Epoll.{is_minus_one}
use nonblocking_io.ErrorMap.{errmap_find}
use nonblocking_io.AsyncSigio.{o_nonblock, or_int}

-- The line for `errno`, if the table has it.
abbrev pub text_line : Option String → List ℕ
text_line none = []
text_line (some text) = bytes text ++ (b'\n' ∷ [])

abbrev pub line_end : Bool → List ℕ
line_end cr = if cr then b'\n' ∷ [] else []

-- What `check_print` writes to `stderr`; `check_print_at` is the one with a function and a line.
unfoldable pub check_print : (res : ℤ) (msg : List ℕ) (cr : Bool) (errno : ℕ) → List ℕ
unfolding bytes errmap_find
check_print res msg cr errno =
    if is_minus_one res then msg ++ (line_end cr ++ text_line (errmap_find errno)) else []

unfoldable pub check_print_at :
    (res : ℤ) (msg func : List ℕ) (line : ℕ) (cr : Bool) (errno : ℕ) → List ℕ
unfolding check_print bytes decimal
check_print_at res msg func line cr errno =
    check_print res (msg ++ (b' ' ∷ (func ++ (b'.' ∷ decimal line)))) cr errno

-- What has been written, and whether the process has ended itself.
pub record Checked : Type 0 where
  pub written : List ℕ
  pub aborted : Bool

unfoldable pub check_print_abt : (res : ℤ) (msg : List ℕ) (cr : Bool) (errno : ℕ) → Checked
unfolding check_print
check_print_abt res msg cr errno = record {
  written = check_print res msg cr errno;
  aborted = is_minus_one res;
}

unfoldable pub check_print_abt_at :
    (res : ℤ) (msg func : List ℕ) (line : ℕ) (cr : Bool) (errno : ℕ) → Checked
unfolding check_print_at
check_print_abt_at res msg func line cr errno = record {
  written = check_print_at res msg func line cr errno;
  aborted = is_minus_one res;
}

-- What `set_fd_non_block` returns, over what the two calls of `fcntl` return.
unfoldable pub set_fd_non_block : (get_flags : ℤ) (set_flags : ℤ → ℤ) → ℤ
set_fd_non_block get_flags set_flags =
    if is_minus_one get_flags then negsuc 0 else set_flags (or_int get_flags o_nonblock)
