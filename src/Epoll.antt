-- ===== src/Epoll.antt =====
-- epoll_wrapper.h and epoll_wrapper.cpp: a wrapper of `epoll_ctl` and `epoll_wait`. The kernel's part
-- is a parameter.
pub mod Listed
mod Tests
use Prim.Native.Nat.{bit_and, bit_or}
use nonblocking_io.Common.{
  ℕ, ◌+◌, ◌*◌, ◌^◌, ◌≡◌, ◌≢◌, Bool, true, false, not, Option, none, some, List, if◌then◌else◌, ◌==◌,
  ℤ, pos, negsuc, ◌⊎◌,
}

-- The bits of `epoll_event::events`.
abbrev pub epollin : ℕ
epollin = 0x1

abbrev pub epollpri : ℕ
epollpri = 0x2

abbrev pub epollerr : ℕ
epollerr = 0x8

abbrev pub epollhup : ℕ
epollhup = 0x10

abbrev pub epollrdhup : ℕ
epollrdhup = 0x2000

abbrev pub epollet : ℕ
epollet = 2 ^ 31

-- `events & mask`, as a condition
abbrev pub has : ℕ → ℕ → Bool
has events mask = not (bit_and events mask == 0)

-- An event that `epoll_wait` delivers: its descriptor, and its bits.
pub record Event : Type 0 where
  pub fd : ℕ
  pub events : ℕ

-- One epoll instance of the kernel: `EPOLL_CTL_ADD` and `EPOLL_CTL_DEL` with what they return, and
-- `epoll_wait`, which returns at most `MAX_EVENTS` events, or fails.
pub record Kernel (State : Type 0) : Type 0 where
  pub ctl_add : State → ℕ → ℕ → ℤ × State
  pub ctl_del : State → ℕ → ℤ × State
  pub wait : State → (timeout : ℤ) → Option (List Event) × State
  pub registered : State → ℕ → Option ℕ

-- What epoll_ctl(2) says of the interest list: an add fails for a descriptor that is there (EEXIST),
-- and enters another one or fails without entering it (EBADF, EPERM, ENOSPC, ENOMEM); no other
-- descriptor is touched, and epoll_wait(2) touches none.
pub record IsEpoll {State : Type 0} (k : Kernel State) : Type 0 where
  pub add_old :
      (s : State) (fd events old : ℕ)
      → k.registered s fd ≡ some old
      → k.ctl_add s fd events ≡ (negsuc 0, s)
  pub add_new :
      (s : State) (fd events : ℕ)
      → k.registered s fd ≡ none
      → (((k.ctl_add s fd events).0 ≡ pos 0)
          × (k.registered (k.ctl_add s fd events).1 fd ≡ some events))
        ⊎ (((k.ctl_add s fd events).0 ≡ negsuc 0)
            × (k.registered (k.ctl_add s fd events).1 fd ≡ none))
  pub add_others :
      (s : State) (fd events other : ℕ)
      → fd ≢ other
      → k.registered (k.ctl_add s fd events).1 other ≡ k.registered s other
  pub wait_keeps :
      (s : State) (timeout : ℤ) (fd : ℕ) → k.registered (k.wait s timeout).1 fd ≡ k.registered s fd

-- `ck == -1`
abbrev pub is_minus_one : ℤ → Bool
is_minus_one (pos n) = false
is_minus_one (negsuc ℕ.zero) = true
is_minus_one (negsuc (ℕ.suc n)) = false

-- What the constructor leaves: the descriptor, whether it has printed an error, and whether it has
-- ended the process.
pub record Opened : Type 0 where
  pub epoll_fd : ℤ
  pub printed : Bool
  pub aborted : Bool

-- `epoll_wrapper()`, over what `epoll_create1` returns and what `fcntl` returns for its descriptor.
unfoldable pub open_epoll : (created : ℤ) (set_flags : ℤ → ℤ) → Opened
open_epoll created set_flags =
    if is_minus_one created
    then record { epoll_fd = created; printed = true; aborted = true }
    else record { epoll_fd = created; printed = is_minus_one (set_flags created); aborted = false }

-- What a call returns, whether it has printed an error, and the instance afterwards.
pub record Result (State : Type 0) : Type 0 where
  pub value : ℤ
  pub printed : Bool
  pub after : State

module _ {State : Type 0} (k : Kernel State) where
  unfoldable pub add_event : State → (fd event : ℕ) (ignore_err : Bool) → Result State
  add_event s fd event ignore_err =
      let (res, s') = k.ctl_add s fd (bit_or event epollet) in
      if not ignore_err
      then record { value = pos 0; printed = false; after = s' }
      else record { value = res; printed = is_minus_one res; after = s' }

  unfoldable pub modify_event : State → (fd event : ℕ) → Result State
  unfolding add_event
  modify_event s fd event = add_event s fd event true

  unfoldable pub delete_event : State → (fd : ℕ) → Result State
  delete_event s fd =
      let (res, s') = k.ctl_del s fd in
      record { value = res; printed = is_minus_one res; after = s' }

  -- The events that the callback gets, `none` if it is not called; whether an error has been printed;
  -- and the instance.
  unfoldable pub poll_event : State → (timeout : ℤ) → Option (List Event) × Bool × State
  poll_event s timeout =
      let (ready, s') = k.wait s timeout in
      elim ready [ none ↦ (none, true, s') | some events ↦ (some events, false, s') ]
