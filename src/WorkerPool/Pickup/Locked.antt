-- ===== src/WorkerPool/Pickup/Locked.antt =====
-- What the lock makes of the two looks and of the sections: a worker that pops finds a client, and all
-- that the threads do to the queue is what whole sections do.
use mathlib.Core.Path.{subst}
use nonblocking_io.Common.{
  ℕ, ◌≤◌, ◌≡◌, refl, false, arith, sym, ap, ap₂, ◌∙◌, total, total-const, update,
}
use nonblocking_io.WorkerPool.{put_client}
use nonblocking_io.WorkerPool.Handover
use nonblocking_io.WorkerPool.Handover.{Storage}
use nonblocking_io.WorkerPool.Pickup.{
  outside, held, fronted, popping, recording, watching, bringing, storing, emplacing, leaving,
  Pickup, after_look, after_second_look, removed, recorded, watched, stored, Step, look, acquire,
  look_again, front, front_empty, begin_pop, pop, pop_empty, insert_info, add, release, bring,
  acquire_for, begin_emplace, emplace, initial, Reach, here, next,
}
use nonblocking_io.WorkerPool.Pickup.Sections.{
  inside, inside-look, inside-second_look, lock_free, tail_of, nil-cons, taken_count,
  second_look-From, Inv, watched-take_out, idle-Inv, within-Inv, in-Inv, out-Inv, knows,
}

module _ {Poller : Type 0} (add_event : Poller → (fd events : ℕ) → Poller) (n : ℕ)
    (store : Storage Poller) where
  Step-Inv :
      {s t : Pickup Poller}
      → Step add_event n s t
      → Inv add_event n store s
      → Inv add_event n store t
  unfolding put_client
  Step-Inv {s} (look i lt at) inv =
      idle-Inv add_event n store inv i (after_look s.store.storage) lt (ap inside at)
        (inside-look s.store.storage)
  Step-Inv {s} (acquire i lt at got) inv =
      let (open_now, taken) = lock_free s.mutex got in
      subst (λ m. Inv add_event n store (record s { mutex = m; pc = update s.pc i held }))
        (sym taken)
        (in-Inv add_event n store inv i held lt (ap inside at) refl open_now (λ same. same))
  Step-Inv {s} (look_again i lt at) inv =
      let same = knows add_event n store inv i lt at in
      within-Inv add_event n store inv i (after_second_look s.store.storage) s.store inv.whole lt
        (ap inside at) (inside-second_look s.store.storage) inv.run
        (second_look-From i s.store.storage inv.whole s.store same
          (sym (ap (λ (x : Storage Poller). x.storage) same)))
  Step-Inv {s} (front i {c} {cs} lt at e) inv =
      let (same, some_client) = knows add_event n store inv i lt at in
      within-Inv add_event n store inv i (fronted c) s.store inv.whole lt (ap inside at) refl
        inv.run (same, cs, sym (ap (λ (x : Storage Poller). x.storage) same) ∙ e)
  Step-Inv {s} (front_empty i lt at e) inv =
      let (same, some_client) = knows add_event n store inv i lt at in
      absurd (some_client (sym (ap (λ (x : Storage Poller). x.storage) same) ∙ e))
  Step-Inv {s} (begin_pop i {c} lt at) inv =
      let (same, cs, e) = knows add_event n store inv i lt at in
      within-Inv add_event n store inv i (popping c s.store.storage) s.store inv.whole lt
        (ap inside at) refl inv.run (same, ap (λ (x : Storage Poller). x.storage) same, cs, e)
  Step-Inv {s} (pop i {c} {d} {ds} lt at) inv =
      let (same, read, cs, e) = knows add_event n store inv i lt at in
      let rest : ds ≡ cs = ap tail_of (read ∙ e) in
      within-Inv add_event n store inv i (recording c) (removed i c ds s.store) inv.whole lt
        (ap inside at) refl inv.run (cs, e, ap₂ (removed i c) rest same)
  Step-Inv {s} (pop_empty i lt at) inv =
      let (same, read, cs, e) = knows add_event n store inv i lt at in absurd (nil-cons (read ∙ e))
  Step-Inv {s} (insert_info i {c} lt at) inv =
      let (cs, e, from) = knows add_event n store inv i lt at in
      within-Inv add_event n store inv i (watching c) (recorded i c s.store) inv.whole lt
        (ap inside at) refl inv.run (cs, e, ap (recorded i c) from)
  Step-Inv {s} (add i {c} lt at) inv =
      let (cs, e, from) = knows add_event n store inv i lt at in
      within-Inv add_event n store inv i leaving (watched add_event i c s.store) _ lt (ap inside at)
        refl (Handover.next inv.run (Handover.take_out i e))
        (watched-take_out add_event n store i c cs inv.whole s.store e from)
  Step-Inv (release i lt at) inv = out-Inv add_event n store inv i lt at
  Step-Inv {s} (bring i c lt at) inv =
      idle-Inv add_event n store inv i (bringing c) lt (ap inside at) refl
  Step-Inv {s} (acquire_for i {c} lt at got) inv =
      let (open_now, taken) = lock_free s.mutex got in
      subst (λ m. Inv add_event n store (record s { mutex = m; pc = update s.pc i (storing c) }))
        (sym taken)
        (in-Inv add_event n store inv i (storing c) lt (ap inside at) refl open_now (λ same. same))
  Step-Inv {s} (begin_emplace i {c} lt at) inv =
      let same = knows add_event n store inv i lt at in
      within-Inv add_event n store inv i (emplacing c s.store.storage) s.store inv.whole lt
        (ap inside at) refl inv.run (same, ap (λ (x : Storage Poller). x.storage) same)
  Step-Inv {s} (emplace i {c} {storage} lt at) inv =
      let (same, read) = knows add_event n store inv i lt at in
      within-Inv add_event n store inv i leaving (stored c storage s.store) _ lt (ap inside at) refl
        (Handover.next inv.run (Handover.put_in c)) (ap₂ (stored c) read same)

  initial-Inv : Inv add_event n store (initial add_event store)
  initial-Inv = record {
    held_once = total-const inside n outside refl;
    sound = refl;
    whole = store;
    run = Handover.here;
    free = λ h. refl;
    from = λ i lt. tt;
  }

  Reach-Inv :
      {s : Pickup Poller} → Reach add_event n (initial add_event store) s → Inv add_event n store s
  Reach-Inv here = initial-Inv
  Reach-Inv (next r st) = Step-Inv st (Reach-Inv r)

module _ {Poller : Type 0} (add_event : Poller → (fd events : ℕ) → Poller) (n : ℕ) where
  -- Whatever `n` threads do, workers and tasks, each in its sections: no worker takes the front of an
  -- empty queue, although the first look is made without the lock; at most one thread has the lock,
  -- and it is taken exactly if one has.
  pub no_empty_pop :
      {store : Storage Poller} {s : Pickup Poller}
      → Reach add_event n (initial add_event store) s
      → (s.faulted ≡ false) × (total inside n s.pc ≤ 1) × (total inside n s.pc ≡ taken_count s)
  no_empty_pop {store} r =
      let inv = Reach-Inv add_event n store r in
      (inv.sound, ground (arith, inv.held_once), inv.held_once)

  -- However `n` threads, workers and tasks, are interleaved in their looks and sections, in which
  -- each read and each write of the queue, of `client_infos` and of the poller is a step of its
  -- own: whenever the lock is free, the queue and what the workers have taken are what a run of the
  -- hand-over has made of them, in which each take and each put is one step.
  pub pickup_refines :
      {store : Storage Poller} {s : Pickup Poller}
      → Reach add_event n (initial add_event store) s
      → s.mutex.taken ≡ false
      → Handover.Reach add_event store s.store
  pickup_refines {store} r open_now =
      let inv = Reach-Inv add_event n store r in
      subst (Handover.Reach add_event store) (sym (inv.free open_now)) inv.run
