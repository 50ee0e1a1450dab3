-- ===== src/AsyncSigio/Enable.antt =====
-- When `enable` succeeds.
use Prim.Native.Nat.{bit_or}
use nonblocking_io.Common.{◌≡◌, Bool, not, ◌&&◌, some, arith, if◌then◌else◌, ℤ, pos, negsuc}
use nonblocking_io.Epoll.{is_minus_one}
use nonblocking_io.AsyncSigio.{Instance, EnableCalls, o_async, o_nonblock, or_int, enable}

-- The flags that `enable` asks for.
abbrev pub wanted : EnableCalls → ℤ
wanted calls = or_int calls.get_flags (bit_or o_async o_nonblock)

-- None of the three calls that are checked gives -1.
abbrev pub none_fails : EnableCalls → Bool
none_fails calls =
    not (is_minus_one calls.sigaction)
    && not (is_minus_one calls.set_own)
    && not (is_minus_one (calls.set_flags (wanted calls)))

-- `enable` returns 0 if none of `sigaction`, `F_SETOWN` and `F_SETFL` gives -1, and -1 otherwise; it
-- has printed exactly if it failed and was asked to print; and if it returns 0, the flags set are
-- those of `F_GETFL`, which is not checked, with `O_ASYNC` and `O_NONBLOCK`.
enable_outcome :
    (i : Instance) (calls : EnableCalls)
    → let r = enable i calls in
      (r.value ≡ (if none_fails calls then pos 0 else negsuc 0))
      × (r.printed ≡ (i.perror && not (none_fails calls)))
      × (r.value ≡ pos 0 → r.flags ≡ some (wanted calls))
unfolding enable
enable_outcome i calls = (ground arith, ground arith, λ e. ground (arith, e))
