-- ===== src/Epoll/Listed.antt =====
-- A kernel of one epoll instance, to try the wrapper on: an interest list that is a map with room for
-- a number of descriptors (ENOSPC), of which every one is ready for what it was registered with.
use nonblocking_io.Common.{
  ℕ, ◌≡◌, ◌≢◌, refl, Option, none, some, List, [], ◌∷◌, arith, ℤ, pos, negsuc, lookup, insert,
  erase, lookup-insert, ltb, length, if◌then◌else◌, ◌⊎◌, inl, inr, Bool-cases,
}
use nonblocking_io.Epoll.{Kernel, IsEpoll, Event}

abbrev pub ctl_add : (room : ℕ) → List (ℕ × ℕ) → ℕ → ℕ → Option ℕ → ℤ × List (ℕ × ℕ)
ctl_add room s fd events none =
    if ltb (length s) room then (pos 0, insert fd events s) else (negsuc 0, s)
ctl_add room s fd events (some old) = (negsuc 0, s)

abbrev pub ctl_del : List (ℕ × ℕ) → ℕ → Option ℕ → ℤ × List (ℕ × ℕ)
ctl_del s fd none = (negsuc 0, s)
ctl_del s fd (some old) = (pos 0, erase fd s)

abbrev pub all_ready : List (ℕ × ℕ) → List Event
all_ready [] = []
all_ready ((fd, events) ∷ s) = record { fd = fd; events = events } ∷ all_ready s

abbrev pub kernel : (room : ℕ) → Kernel (List (ℕ × ℕ))
kernel room = record {
  ctl_add = λ s fd events. ctl_add room s fd events (lookup fd s);
  ctl_del = λ s fd. ctl_del s fd (lookup fd s);
  wait = λ s timeout. (some (all_ready s), s);
  registered = λ s fd. lookup fd s;
}

others :
    (room : ℕ) (s : List (ℕ × ℕ)) (fd events other : ℕ) (old : Option ℕ)
    → fd ≢ other
    → lookup other (ctl_add room s fd events old).1 ≡ lookup other s
others room s fd events other none ne = ground (arith, lookup-insert other fd events s, ne)
others room s fd events other (some old) ne = refl

added :
    (room : ℕ) (s : List (ℕ × ℕ)) (fd events : ℕ)
    → lookup fd s ≡ none
    → let r = ctl_add room s fd events none in
      ((r.0 ≡ pos 0) × (lookup fd r.1 ≡ some events)) ⊎ ((r.0 ≡ negsuc 0) × (lookup fd r.1 ≡ none))
added room s fd events h = elim (Bool-cases (ltb (length s) room)) [
  | inl e ↦ inl (rw e refl, rw e (ground (arith, lookup-insert fd fd events s)))
  | inr e ↦ inr (rw e refl, rw e h)
]

pub kernel-IsEpoll : (room : ℕ) → IsEpoll (kernel room)
kernel-IsEpoll room = record {
  add_old = λ s fd events old h. rw h;
  add_new = λ s fd events h. rw h (added room s fd events h);
  add_others = λ s fd events other ne. others room s fd events other (lookup fd s) ne;
  wait_keeps = λ s timeout fd. refl;
}
