-- ===== src/Instance/Once.antt =====
-- How many objects there are, and what the callers get.
use native.Mathlib.Decide.{ℕ_discrete}
use mathlib.Core.Path.{subst}
use nonblocking_io.Common.{
  update, at_update, ℕ, ◌+◌, ◌≤◌, ◌<◌, ◌≡◌, ◌⊎◌, inl, inr, refl, ap, sym, Bool, true, false, Option,
  none, some, arith,
}
use nonblocking_io.Instance.{
  Pc, idle, missing, locked, making, unlocking, returning, returned, stopping, stop_locked,
  deleting, stop_unlocking, Shared, Step, check, take, check_again, make, give, read, call_again,
  stop_check, stop_take, stop_check_again, delete, stop_give, Reach, here, next, after_check,
  after_second, after_stop_check, after_stop_second,
}
use nonblocking_io.Instance.Invariant.{present, Inv, Reach-Inv, Knows-at}

-- Whatever `n` threads call, `instance` and `shutdown` in any interleaving: every object made has been
-- deleted, or is the one that the pointer has. There is never a second one.
one_alive : (n : ℕ) {s : Shared} → Reach n s → s.made ≡ s.deleted + present s.instance_ptr
one_alive n r = (Reach-Inv r).alive

-- What a thread has or will return, in a run that deletes no object: the first object.
abbrev Sure : Option ℕ → Pc → Type 0
Sure ptr idle = Unit {0}
Sure ptr missing = Unit {0}
Sure ptr locked = Unit {0}
Sure ptr making = Unit {0}
Sure ptr unlocking = ptr ≡ some 0
Sure ptr returning = ptr ≡ some 0
Sure ptr (returned r) = r ≡ some 0
Sure ptr stopping = Unit {0}
Sure ptr stop_locked = Unit {0}
Sure ptr deleting = Unit {0}
Sure ptr stop_unlocking = Unit {0}

record IsFirst (n : ℕ) (s : Shared) : Type 0 where
  ptr : (s.instance_ptr ≡ none) ⊎ (s.instance_ptr ≡ some 0)
  sure : (i : ℕ) → i < n → Sure s.instance_ptr (s.pc i)

-- A pointer that was null changes nothing that is sure but for those who will return it.
Sure-some : (ptr : Option ℕ) (c : Pc) → ptr ≡ none → Sure ptr c → Sure (some 0) c
Sure-some ptr unlocking e h = refl
Sure-some ptr returning e h = refl
Sure-some ptr (returned r) e h = h
Sure-some ptr idle e h = tt
Sure-some ptr missing e h = tt
Sure-some ptr locked e h = tt
Sure-some ptr making e h = tt
Sure-some ptr stopping e h = tt
Sure-some ptr stop_locked e h = tt
Sure-some ptr deleting e h = tt
Sure-some ptr stop_unlocking e h = tt

module _ {n : ℕ} {s : Shared} (f : IsFirst n s) (i : ℕ) where
  moved-IsFirst :
      (c : Pc) (taken : Bool)
      → Sure s.instance_ptr c
      → IsFirst n (record s { taken = taken; pc = update s.pc i c })
  moved-IsFirst c taken h = record {
    ptr = f.ptr;
    sure = λ j lt. at_update (Sure s.instance_ptr) s.pc i j c h (λ ne. f.sure j lt);
  }

  Sure-at : (c : Pc) → i < n → s.pc i ≡ c → Sure s.instance_ptr c
  Sure-at c lt at = subst (Sure s.instance_ptr) at (f.sure i lt)

  made-IsFirst :
      (made : ℕ)
      → s.instance_ptr ≡ none
      → s.made ≡ 0
      → IsFirst n
          (record s { instance_ptr = some s.made; made = made; pc = update s.pc i unlocking })
  made-IsFirst made absent e = record {
    ptr = inr (ap some e);
    sure = λ j lt. at_update (Sure (some s.made)) s.pc i j unlocking (ap some e) (λ ne.
        subst (λ k. Sure (some k) (s.pc j)) (sym e)
          (Sure-some s.instance_ptr (s.pc j) absent (f.sure j lt)));
  }

check-Sure :
    (ptr : Option ℕ)
    → (ptr ≡ none) ⊎ (ptr ≡ some 0)
    → Sure ptr (after_check ptr)
      × Sure ptr (after_second ptr)
      × Sure ptr (after_stop_check ptr)
      × Sure ptr (after_stop_second ptr)
check-Sure none h = (tt, tt, tt, tt)
check-Sure (some k) (inl e) = absurd (ground (arith, e))
check-Sure (some k) (inr e) = (e, e, tt, tt)

Step-IsFirst :
    {n : ℕ} {s t : Shared} → Step n s t → Inv n s → t.deleted ≡ 0 → IsFirst n s → IsFirst n t
Step-IsFirst {s = s} (check i lt at) inv z f =
    moved-IsFirst f i (after_check s.instance_ptr) s.taken (check-Sure s.instance_ptr f.ptr).0
Step-IsFirst (take i lt at free) inv z f = moved-IsFirst f i locked true tt
Step-IsFirst {s = s} (check_again i lt at) inv z f =
    moved-IsFirst f i (after_second s.instance_ptr) s.taken (check-Sure s.instance_ptr f.ptr).1
Step-IsFirst {s = s} (make i lt at) inv z f =
    let absent = Knows-at inv i lt making at in
    made-IsFirst f i (s.made + 1) absent (omega (arith, inv.alive, z, ap present absent))
Step-IsFirst (give i lt at) inv z f =
    moved-IsFirst f i returning false (Sure-at f i unlocking lt at)
Step-IsFirst {s = s} (read i lt at) inv z f =
    moved-IsFirst f i (returned s.instance_ptr) s.taken (Sure-at f i returning lt at)
Step-IsFirst {s = s} (call_again i lt at) inv z f = moved-IsFirst f i idle s.taken tt
Step-IsFirst {s = s} (stop_check i lt at) inv z f =
    moved-IsFirst f i (after_stop_check s.instance_ptr) s.taken (check-Sure s.instance_ptr f.ptr).2
Step-IsFirst (stop_take i lt at free) inv z f = moved-IsFirst f i stop_locked true tt
Step-IsFirst {s = s} (stop_check_again i lt at) inv z f =
    moved-IsFirst f i (after_stop_second s.instance_ptr) s.taken (check-Sure s.instance_ptr f.ptr).3
Step-IsFirst (delete i lt at) inv z f = absurd (omega (arith, z))
Step-IsFirst (stop_give i lt at) inv z f = moved-IsFirst f i idle false tt

deleted-le : {n : ℕ} {s t : Shared} → Step n s t → s.deleted ≤ t.deleted
deleted-le (delete i lt at) = omega arith
deleted-le st = omega arith

Reach-IsFirst : {n : ℕ} {s : Shared} → Reach n s → s.deleted ≡ 0 → IsFirst n s
Reach-IsFirst here z = record { ptr = inl refl; sure = λ i lt. tt }
Reach-IsFirst (next r st) z =
    Step-IsFirst st (Reach-Inv r) z (Reach-IsFirst r (omega (arith, deleted-le st, z)))

-- In a run that has deleted no object: at most one has been made, and each call of `instance` that has
-- returned has returned that one, never a null pointer.
pub instance_once :
    (n : ℕ) {s : Shared}
    → Reach n s
    → s.deleted ≡ 0
    → (s.made ≤ 1) × ((i : ℕ) (r : Option ℕ) → i < n → s.pc i ≡ returned r → r ≡ some 0)
instance_once n r z = (
  ground (arith, one_alive n r, z),
  λ i p lt at. Sure-at (Reach-IsFirst r z) i (returned p) lt at,
)

-- With `shutdown`, two threads are enough for `instance` to return a null pointer: the pointer is read
-- again for the return when the mutex has been given back.
instance_may_be_null : (n : ℕ) → 1 < n → (s : Shared) × Reach n s × (s.pc 0 ≡ returned none)
unfolding ℕ_discrete
instance_may_be_null n two = (
  _,
  next
      (next
        (next (next (next made (stop_check 1 two refl)) (stop_take 1 two refl refl))
          (stop_check_again 1 two refl))
        (delete 1 two refl))
      (read 0 (omega arith) refl),
  refl,
)
  where
    made : Reach n (record {
      instance_ptr = some 0;
      taken = false;
      made = 1;
      deleted = 0;
      pc =
          update
            (update (update (update (update (λ _. idle) 0 missing) 0 locked) 0 making) 0 unlocking)
            0
            returning;
    })
    made =
        next
          (next
            (next (next (next here (check 0 (omega arith) refl)) (take 0 (omega arith) refl refl))
              (check_again 0 (omega arith) refl))
            (make 0 (omega arith) refl))
          (give 0 (omega arith) refl)
