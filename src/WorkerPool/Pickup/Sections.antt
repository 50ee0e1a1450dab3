-- ===== src/WorkerPool/Pickup/Sections.antt =====
-- What a thread of the pick-up knows in its locked section, and that its moves keep this.
use mathlib.Core.Path.{subst, fun_ext}
use nonblocking_io.Common.{
  ℕ, ◌<◌, ◌≡◌, ◌≢◌, refl, true, false, some, List, [], ◌∷◌, ◌++◌, arith, sym, ap, ap₂, ◌∙◌, total,
  total-update, total-two, le-total, update, at_update, at_update_either, if◌then◌else◌, ◌==◌,
  Bool-cases, inl, inr,
}
use nonblocking_io.WorkerSync.{Mutex, lock}
use nonblocking_io.WorkerPool.{ClientInfo, take_first}
use nonblocking_io.WorkerPool.Handover
use nonblocking_io.WorkerPool.Handover.{Storage}
use nonblocking_io.WorkerPool.Pickup.{
  Pc, outside, seen, held, facing, fronted, popping, recording, watching, bringing, storing,
  emplacing, leaving, Pickup, after_look, after_second_look, removed, recorded, watched,
}

-- A thread with the lock.
abbrev pub inside : Pc → ℕ
inside outside = 0
inside seen = 0
inside held = 1
inside facing = 1
inside (fronted c) = 1
inside (popping c storage) = 1
inside (recording c) = 1
inside (watching c) = 1
inside (bringing c) = 0
inside (storing c) = 1
inside (emplacing c storage) = 1
inside leaving = 1

pub inside-look : (storage : List ClientInfo) → inside (after_look storage) ≡ 0
inside-look storage = ground arith

pub inside-second_look : (storage : List ClientInfo) → inside (after_second_look storage) ≡ 1
inside-second_look storage = ground arith

pub lock_free :
    (m : Mutex) {m' : Mutex} → lock m ≡ some m' → (m.taken ≡ false) × (m' ≡ record { taken = true })
lock_free m got = (ground (arith, got), ground (arith, got))

abbrev pub tail_of : List ClientInfo → List ClientInfo
tail_of [] = []
tail_of (c ∷ cs) = cs

pub nil-cons : {c : ClientInfo} {cs : List ClientInfo} → [] ≢ c ∷ cs
nil-cons e = cc

module _ {Poller : Type 0} where
  abbrev pub taken_count : Pickup Poller → ℕ
  taken_count s = if s.mutex.taken then 1 else 0

  -- How far thread `i` has come from the storage `a` that whole sections have left.
  abbrev pub From : ℕ → Pc → Storage Poller → Storage Poller → Type 0
  From i outside a s = Unit {0}
  From i seen a s = Unit {0}
  From i held a s = s ≡ a
  From i facing a s = (s ≡ a) × (a.storage ≢ [])
  From i (fronted c) a s = (s ≡ a) × (cs : List ClientInfo) × (a.storage ≡ c ∷ cs)
  From i (popping c storage) a s =
      (s ≡ a) × (storage ≡ a.storage) × (cs : List ClientInfo) × (a.storage ≡ c ∷ cs)
  From i (recording c) a s = (cs : List ClientInfo) × (a.storage ≡ c ∷ cs) × (s ≡ removed i c cs a)
  From i (watching c) a s =
      (cs : List ClientInfo) × (a.storage ≡ c ∷ cs) × (s ≡ recorded i c (removed i c cs a))
  From i (bringing c) a s = Unit {0}
  From i (storing c) a s = s ≡ a
  From i (emplacing c storage) a s = (s ≡ a) × (storage ≡ a.storage)
  From i leaving a s = s ≡ a

  outside-From : (i : ℕ) (c : Pc) (a s : Storage Poller) → inside c ≡ 0 → From i c a s
  outside-From i outside a s h = tt
  outside-From i seen a s h = tt
  outside-From i held a s h = absurd (omega (arith, h))
  outside-From i facing a s h = absurd (omega (arith, h))
  outside-From i (fronted c) a s h = absurd (omega (arith, h))
  outside-From i (popping c storage) a s h = absurd (omega (arith, h))
  outside-From i (recording c) a s h = absurd (omega (arith, h))
  outside-From i (watching c) a s h = absurd (omega (arith, h))
  outside-From i (bringing c) a s h = tt
  outside-From i (storing c) a s h = absurd (omega (arith, h))
  outside-From i (emplacing c storage) a s h = absurd (omega (arith, h))
  outside-From i leaving a s h = absurd (omega (arith, h))

  pub second_look-From :
      (i : ℕ) (storage : List ClientInfo) (a s : Storage Poller)
      → s ≡ a
      → a.storage ≡ storage
      → From i (after_second_look storage) a s
  second_look-From i [] a s e same = e
  second_look-From i (c ∷ cs) a s e same = (e, λ none. cc)

module _ {Poller : Type 0} (add_event : Poller → (fd events : ℕ) → Poller) (n : ℕ)
    (store : Storage Poller) where
  -- `whole` is what the whole sections so far have made of the storage.
  pub record Inv (s : Pickup Poller) : Type 0 where
    pub held_once : total inside n s.pc ≡ taken_count s
    pub sound : s.faulted ≡ false
    pub whole : Storage Poller
    pub run : Handover.Reach add_event store whole
    pub free : s.mutex.taken ≡ false → s.store ≡ whole
    pub from : (i : ℕ) → i < n → From i (s.pc i) whole s.store

  -- The three writes of a worker's section are the one step that takes a client out.
  pub watched-take_out :
      (i : ℕ) (c : ClientInfo) (cs : List ClientInfo) (a s : Storage Poller)
      → a.storage ≡ c ∷ cs
      → s ≡ recorded i c (removed i c cs a)
      → watched add_event i c s ≡ record a {
        storage = (take_first add_event a.storage (a.workers i)).0;
        workers =
            λ j. if j == i then (take_first add_event a.storage (a.workers j)).1 else a.workers j;
        taken = a.taken ++ ((i, c) ∷ []);
      }
  watched-take_out i c cs a s e from =
      ap (watched add_event i c) from
      ∙ ap₂ (λ xs ws. record a { storage = xs; workers = ws; taken = a.taken ++ ((i, c) ∷ []) })
          (sym (ap (λ xs. (take_first add_event xs (a.workers i)).0) e))
          (fun_ext (λ j. elim (Bool-cases (j == i)) [
            | inl same ↦ rw same (sym (ap (λ xs. (take_first add_event xs (a.workers j)).1) e))
            | inr other ↦ rw other refl
          ]))

  module _ {s : Pickup Poller} (inv : Inv s) where
    -- A thread that is outside before and after.
    pub idle-Inv :
        (i : ℕ) (c : Pc)
        → i < n
        → inside (s.pc i) ≡ 0
        → inside c ≡ 0
        → Inv (record s { pc = update s.pc i c })
    idle-Inv i c lt before after = record {
      held_once = omega (arith, inv.held_once, total-update inside n i c s.pc lt, before, after);
      sound = inv.sound;
      whole = inv.whole;
      run = inv.run;
      free = inv.free;
      from = λ j lt'.
          at_update (λ d. From j d inv.whole s.store) s.pc i j c
            (outside-From j c inv.whole s.store after) (λ ne. inv.from j lt');
    }

    -- The other threads are outside while thread `i` has the lock or takes it.
    alone :
        (i : ℕ) (c : Pc) (a t : Storage Poller)
        → i < n
        → ((j : ℕ) → j < n → i ≢ j → inside (s.pc j) ≡ 0)
        → From i c a t
        → (j : ℕ) → j < n
        → From j (update s.pc i c j) a t
    alone i c a t lt away f j lt' =
        at_update_either (λ d. From j d a t) s.pc i j c (λ same. subst (λ k. From k c a t) same f)
          (λ ne. outside-From j (s.pc j) a t (away j lt' ne))

    others_away :
        (i : ℕ) → i < n → inside (s.pc i) ≡ 1 → (j : ℕ) → j < n → i ≢ j → inside (s.pc j) ≡ 0
    others_away i lt within j lt' ne =
        ground (arith, inv.held_once, total-two inside n i j s.pc lt lt' ne)

    -- A thread with the lock that goes on, and changes the storage.
    pub within-Inv :
        (i : ℕ) (c : Pc) (t a : Storage Poller)
        → i < n
        → inside (s.pc i) ≡ 1
        → inside c ≡ 1
        → Handover.Reach add_event store a
        → From i c a t
        → Inv (record s { store = t; pc = update s.pc i c })
    within-Inv i c t a lt before after reach f = record {
      held_once = omega (arith, inv.held_once, total-update inside n i c s.pc lt, before, after);
      sound = inv.sound;
      whole = a;
      run = reach;
      free = λ open_now.
          absurd (ground (arith, inv.held_once, le-total inside n i s.pc lt, before, open_now));
      from = alone i c a t lt (others_away i lt before) f;
    }

    -- A thread that takes the free lock finds what whole sections have left.
    pub in-Inv :
        (i : ℕ) (c : Pc)
        → i < n
        → inside (s.pc i) ≡ 0
        → inside c ≡ 1
        → s.mutex.taken ≡ false
        → (s.store ≡ inv.whole → From i c inv.whole s.store)
        → Inv (record s { mutex = record { taken = true }; pc = update s.pc i c })
    in-Inv i c lt before after open_now f = record {
      held_once =
          ground (arith, inv.held_once, total-update inside n i c s.pc lt, before, after, open_now);
      sound = inv.sound;
      whole = inv.whole;
      run = inv.run;
      free = λ h. absurd (ground (arith, h));
      from =
          alone i c inv.whole s.store lt
            (λ j lt' ne. ground (arith, inv.held_once, le-total inside n j s.pc lt', open_now))
            (f (inv.free open_now));
    }

    pub out-Inv :
        (i : ℕ)
        → i < n
        → s.pc i ≡ leaving
        → Inv (record s { mutex = record { taken = false }; pc = update s.pc i outside })
    out-Inv i lt at = record {
      held_once = ground (arith, inv.held_once, total-update inside n i outside s.pc lt, at);
      sound = inv.sound;
      whole = inv.whole;
      run = inv.run;
      free = λ h. subst (λ c. From i c inv.whole s.store) at (inv.from i lt);
      from = alone i outside inv.whole s.store lt (others_away i lt (ap inside at)) tt;
    }

    -- What thread `i` knows, at the place where it stands.
    pub knows : (i : ℕ) {c : Pc} → i < n → s.pc i ≡ c → From i c inv.whole s.store
    knows i lt at = subst (λ d. From i d inv.whole s.store) at (inv.from i lt)
