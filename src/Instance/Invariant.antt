-- ===== src/Instance/Invariant.antt =====
-- What holds whatever the interleaving: the mutex has one owner, and what the owner has read of the
-- pointer is still so.
use mathlib.Core.Path.{subst}
use nonblocking_io.Common.{
  update, total, total-update, total-const, total-two, at_update, ℕ, ◌+◌, ◌<◌, ◌≡◌, ◌≢◌, refl, ap,
  sym, ◌∙◌, le-total, Bool, true, false, Option, none, some, arith, if◌then◌else◌,
}
use nonblocking_io.Instance.{
  Pc, idle, missing, locked, making, unlocking, returning, returned, stopping, stop_locked,
  deleting, stop_unlocking, Shared, Step, check, take, check_again, make, give, read, call_again,
  stop_check, stop_take, stop_check_again, delete, stop_give, Reach, here, next, after_check,
  after_second, after_stop_check, after_stop_second,
}

-- The threads that have the mutex.
abbrev pub owns : Pc → ℕ
owns idle = 0
owns missing = 0
owns locked = 1
owns making = 1
owns unlocking = 1
owns returning = 0
owns (returned r) = 0
owns stopping = 0
owns stop_locked = 1
owns deleting = 1
owns stop_unlocking = 1

abbrev pub present : Option ℕ → ℕ
present none = 0
present (some k) = 1

-- What a thread behind its second check knows of the pointer.
abbrev pub Knows : Option ℕ → Pc → Type 0
Knows ptr idle = Unit {0}
Knows ptr missing = Unit {0}
Knows ptr locked = Unit {0}
Knows ptr making = ptr ≡ none
Knows ptr unlocking = present ptr ≡ 1
Knows ptr returning = Unit {0}
Knows ptr (returned r) = Unit {0}
Knows ptr stopping = Unit {0}
Knows ptr stop_locked = Unit {0}
Knows ptr deleting = present ptr ≡ 1
Knows ptr stop_unlocking = ptr ≡ none

pub record Inv (n : ℕ) (s : Shared) : Type 0 where
  pub owner : total owns n s.pc ≡ (if s.taken then 1 else 0)
  pub alive : s.made ≡ s.deleted + present s.instance_ptr
  pub knows : (i : ℕ) → i < n → Knows s.instance_ptr (s.pc i)

free-Knows : (ptr : Option ℕ) (c : Pc) → owns c ≡ 0 → Knows ptr c
free-Knows ptr making e = absurd (omega arith)
free-Knows ptr unlocking e = absurd (omega arith)
free-Knows ptr deleting e = absurd (omega arith)
free-Knows ptr stop_unlocking e = absurd (omega arith)
free-Knows ptr idle e = tt
free-Knows ptr missing e = tt
free-Knows ptr locked e = tt
free-Knows ptr returning e = tt
free-Knows ptr (returned r) e = tt
free-Knows ptr stopping e = tt
free-Knows ptr stop_locked e = tt

module _ {n : ℕ} {s : Shared} (inv : Inv n s) where
  -- The other threads do not own the mutex.
  others : (i j : ℕ) → i < n → j < n → i ≢ j → owns (s.pc i) ≡ 1 → owns (s.pc j) ≡ 0
  others i j lt lt' apart own = ground (arith, inv.owner, total-two owns n i j s.pc lt lt' apart)

  -- A thread that moves without touching the pointer.
  moved-Inv :
      (i : ℕ) (c : Pc) (taken : Bool)
      → i < n
      → (if taken then 1 else 0) + owns (s.pc i) ≡ (if s.taken then 1 else 0) + owns c
      → Knows s.instance_ptr c
      → Inv n (record s { taken = taken; pc = update s.pc i c })
  moved-Inv i c taken lt e k = record {
    owner = omega (arith, inv.owner, total-update owns n i c s.pc lt);
    alive = inv.alive;
    knows = λ j lt'. at_update (Knows s.instance_ptr) s.pc i j c k (λ ne. inv.knows j lt');
  }

  -- The owner changes the pointer.
  changed-Inv :
      (i : ℕ) (c : Pc) (ptr : Option ℕ) (made deleted : ℕ)
      → i < n
      → owns (s.pc i) ≡ 1
      → owns c ≡ 1
      → made ≡ deleted + present ptr
      → Knows ptr c
      → Inv n
          (record s { instance_ptr = ptr; made = made; deleted = deleted; pc = update s.pc i c })
  changed-Inv i c ptr made deleted lt own own' e k = record {
    owner = omega (arith, inv.owner, total-update owns n i c s.pc lt);
    alive = e;
    knows = λ j lt'.
        at_update (Knows ptr) s.pc i j c k
          (λ ne. free-Knows ptr (s.pc j) (others i j lt lt' ne own));
  }

-- What a check of the pointer leads to.
check_lem : (ptr : Option ℕ) → (owns (after_check ptr) ≡ 0) × Knows ptr (after_check ptr)
check_lem none = (refl, tt)
check_lem (some k) = (refl, tt)

second_lem : (ptr : Option ℕ) → (owns (after_second ptr) ≡ 1) × Knows ptr (after_second ptr)
second_lem none = (refl, refl)
second_lem (some k) = (refl, refl)

stop_check_lem :
    (ptr : Option ℕ) → (owns (after_stop_check ptr) ≡ 0) × Knows ptr (after_stop_check ptr)
stop_check_lem none = (refl, tt)
stop_check_lem (some k) = (refl, tt)

stop_second_lem :
    (ptr : Option ℕ) → (owns (after_stop_second ptr) ≡ 1) × Knows ptr (after_stop_second ptr)
stop_second_lem none = (refl, refl)
stop_second_lem (some k) = (refl, refl)

module _ {n : ℕ} {s : Shared} (inv : Inv n s) (i : ℕ) (lt : i < n) where
  -- A check leads to `c`, which owns the mutex if the thread did before.
  checked-Inv :
      (c : Pc)
      → owns (s.pc i) ≡ owns c
      → Knows s.instance_ptr c
      → Inv n (record s { pc = update s.pc i c })
  checked-Inv c same k = moved-Inv inv i c s.taken lt (omega (arith, same)) k

  -- The mutex is taken, or given back.
  taken-Inv :
      (c : Pc)
      → owns (s.pc i) ≡ 0
      → s.taken ≡ false
      → owns c ≡ 1
      → Knows s.instance_ptr c
      → Inv n (record s { taken = true; pc = update s.pc i c })
  taken-Inv c out free in_c k = moved-Inv inv i c true lt (ground (arith, free, out, in_c)) k

  given-Inv :
      (c : Pc)
      → owns (s.pc i) ≡ 1
      → owns c ≡ 0
      → Knows s.instance_ptr c
      → Inv n (record s { taken = false; pc = update s.pc i c })
  given-Inv c in_c out k =
      moved-Inv inv i c false lt (ground (arith, inv.owner, le-total owns n i s.pc lt, in_c, out)) k

-- What the thread that moves knows, from where it stands.
pub Knows-at :
    {n : ℕ} {s : Shared}
    → Inv n s
    → (i : ℕ) → i < n
    → (c : Pc) → s.pc i ≡ c
    → Knows s.instance_ptr c
Knows-at {s = s} inv i lt c at = subst (Knows s.instance_ptr) at (inv.knows i lt)

Step-Inv : {n : ℕ} {s t : Shared} → Step n s t → Inv n s → Inv n t
Step-Inv {s = s} (check i lt at) inv =
    let (e, k) = check_lem s.instance_ptr in
    checked-Inv inv i lt (after_check s.instance_ptr) (ap owns at ∙ sym e) k
Step-Inv (take i lt at free) inv = taken-Inv inv i lt locked (ap owns at) free refl tt
Step-Inv {s = s} (check_again i lt at) inv =
    let (e, k) = second_lem s.instance_ptr in
    checked-Inv inv i lt (after_second s.instance_ptr) (ap owns at ∙ sym e) k
Step-Inv {s = s} (make i lt at) inv =
    let absent = Knows-at inv i lt making at in
    changed-Inv inv i unlocking (some s.made) (s.made + 1) s.deleted lt (ap owns at) refl
      (omega (arith, inv.alive, ap present absent)) refl
Step-Inv (give i lt at) inv = given-Inv inv i lt returning (ap owns at) refl tt
Step-Inv {s = s} (read i lt at) inv = checked-Inv inv i lt (returned s.instance_ptr) (ap owns at) tt
Step-Inv (call_again i lt at) inv = checked-Inv inv i lt idle (ap owns at) tt
Step-Inv {s = s} (stop_check i lt at) inv =
    let (e, k) = stop_check_lem s.instance_ptr in
    checked-Inv inv i lt (after_stop_check s.instance_ptr) (ap owns at ∙ sym e) k
Step-Inv (stop_take i lt at free) inv = taken-Inv inv i lt stop_locked (ap owns at) free refl tt
Step-Inv {s = s} (stop_check_again i lt at) inv =
    let (e, k) = stop_second_lem s.instance_ptr in
    checked-Inv inv i lt (after_stop_second s.instance_ptr) (ap owns at ∙ sym e) k
Step-Inv {s = s} (delete i lt at) inv =
    let there = Knows-at inv i lt deleting at in
    changed-Inv inv i stop_unlocking none s.made (s.deleted + 1) lt (ap owns at) refl
      (omega (arith, inv.alive, there)) refl
Step-Inv (stop_give i lt at) inv = given-Inv inv i lt idle (ap owns at) refl tt

pub Reach-Inv : {n : ℕ} {s : Shared} → Reach n s → Inv n s
Reach-Inv {n} here = record {
  owner = total-const owns n idle refl;
  alive = refl;
  knows = λ i lt. tt;
}
Reach-Inv (next r st) = Step-Inv st (Reach-Inv r)
